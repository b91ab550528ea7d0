-- ===== src/Mirror/Messages.antt =====
-- The two indexes and handle_message of app/rabbitmq_consumer.py.
use omnimap_sync.Redis.{IsLawful}
use omnimap_sync.World.{World}
use omnimap_sync.Env.{Env}
use omnimap_sync.Consumer.Handle.{handle_message, Message}
use omnimap_sync.Mirror.{IsMirrored}
use omnimap_sync.Mirror.Steps.{append_changelog_events-Keeps}
use omnimap_sync.Mirror.Handlers.{
  neutral, unindexed, subscribe-Keeps, update_access-Keeps, unsubscribe-Keeps,
  change_sandbox_mode-Keeps,
}
use omnimap_sync.Mirror.Dispatch.{KeepsAccess, handle_message-Keeps}

module _ (E : Env) (L : IsLawful E.redis) where
  keeps_access : KeepsAccess E (IsMirrored E.redis)
  keeps_access = record {
    access = update_access-Keeps E L;
    subscription = subscribe-Keeps E L;
    removal = unsubscribe-Keeps E L;
    mode = change_sandbox_mode-Keeps E L;
  }

  -- If before a message the two indexes agree, that is a user stands in a block's set of
  -- subscribers exactly if the block stands in the user's set of blocks, then they agree after
  -- it: for every body, and wherever requests to Redis or sends fail.
  pub handle_message-IsMirrored :
      (message : Message) (w : World E.redis.State)
      → IsMirrored E.redis w.redis
      → IsMirrored E.redis (handle_message E message w).1.redis
  handle_message-IsMirrored message w h =
      (handle_message-Keeps E (IsMirrored E.redis) (unindexed E L)
          (append_changelog_events-Keeps E (IsMirrored E.redis) (neutral E L)) keeps_access
          message).at
        w h

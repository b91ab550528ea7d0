-- ===== src/Log/Messages.antt =====
-- The changelog and handle_message of app/rabbitmq_consumer.py.
use omnimap_sync.Prelude.{String, true, List, ◌++◌, Dict, ◌≡◌, refl, arith}
use omnimap_sync.Models.{
  Permission, UpdateAccessMessage, SubscribeMessage, UnsubscribeMessage, SandboxModeChangedMessage,
}
use omnimap_sync.Redis.{Key, subscription_version, Command, Entry, IsLawful}
use omnimap_sync.World.{World, Exec, write_all}
use omnimap_sync.World.Keeps.{keeps_rules, Keeps-write_all}
use omnimap_sync.Consumer.Pipelines.{
  AllKeys, apply_all-AllKeys, AllKeys-append, subscribe_commands-AllKeys, access_commands-AllKeys,
  srem_commands-AllKeys, delete_commands-AllKeys,
}
use omnimap_sync.Env.{Env}
use omnimap_sync.Consumer.Access.{
  access_commands, subscribe_commands, srem_commands, delete_commands, for_chunks, subscribe,
  update_access, unsubscribe, unsubscribe_chunk, clear_chunk, tell_and_clear, change_sandbox_mode,
}
use omnimap_sync.Consumer.Changelog.{bump_subscription_versions}
use omnimap_sync.Consumer.Handle.{handle_message, Message}
use omnimap_sync.Mirror.Rows.{send_message_update_access-Keeps}
use omnimap_sync.Mirror.Steps.{
  Kept, Stored, free, is_plain, IgnoresPlain, read-Keeps, read_all-Keeps, spawn-Keeps,
  bump_subscription_versions-Keeps, update_sandbox_cache-Keeps,
}
use omnimap_sync.Mirror.Dispatch.{KeepsAccess, handle_message-Keeps}
use omnimap_sync.Log.{IsLogged}
use omnimap_sync.Log.Appends.{
  is_unlogged, write_unlogged-IsLogged, append_changelog_events-KeepsLog,
}

plain_unlogged : (k : Key) → is_plain k ≡ true → is_unlogged k ≡ true
plain_unlogged k h = ground arith

module _ (E : Env) (L : IsLawful E.redis) where
  abbrev Logged : {A : Type 0} → Exec E.redis.State A → Type 0
  Logged m = Kept E (IsLogged E.redis) m

  ignores : IgnoresPlain E.redis (IsLogged E.redis)
  ignores s k c h = write_unlogged-IsLogged E.redis L s k c (plain_unlogged k h)

  unlogged-Keeps :
      (cs : List (Key × Command)) → AllKeys is_unlogged cs → Logged (write_all E.redis cs)
  unlogged-Keeps cs u =
      Keeps-write_all E.redis (Stored E.redis (IsLogged E.redis)) (free E.redis (IsLogged E.redis))
        cs
        (λ w h.
          apply_all-AllKeys is_unlogged E.redis (IsLogged E.redis)
            (write_unlogged-IsLogged E.redis L) w.redis cs u h)

  for_chunks-Keeps :
      (xs : List String) (body : List String → Exec E.redis.State Unit)
      → ((chunk : List String) → Logged (body chunk))
      → Logged (for_chunks E xs body)
  unfolding for_chunks
  for_chunks-Keeps xs body k = search (keeps_rules, k)

  subscribe_chunk-Keeps :
      (user : String) (bs : List String) → Logged (write_all E.redis (subscribe_commands user bs))
  subscribe_chunk-Keeps user bs =
      unlogged-Keeps _ (subscribe_commands-AllKeys is_unlogged (λ b. refl) user bs refl)

  access_chunk-Keeps :
      (p : Permission) (user : String) (bs : List String)
      → Logged (write_all E.redis (access_commands p user bs))
  access_chunk-Keeps p user bs =
      unlogged-Keeps _ (access_commands-AllKeys is_unlogged (λ b. refl) p user bs refl)

  clearing-Keeps :
      (d : Dict (List String)) (bs : List String)
      → Logged (write_all E.redis (srem_commands d ++ delete_commands bs))
  clearing-Keeps d bs = unlogged-Keeps _ (
      AllKeys-append is_unlogged _ _ (srem_commands-AllKeys is_unlogged d (λ u. refl))
        (delete_commands-AllKeys is_unlogged (λ b. refl) bs (λ b. refl) (λ b. refl)))

  bumps : (users : List String) → Logged (bump_subscription_versions E users)
  bumps users =
      bump_subscription_versions-Keeps E (IsLogged E.redis)
        (λ s u c h. write_unlogged-IsLogged E.redis L s (subscription_version u) c refl h) users

  subscribe-Keeps : (msg : SubscribeMessage) → Logged (subscribe E msg)
  unfolding subscribe
  subscribe-Keeps msg = search (keeps_rules, for_chunks-Keeps, subscribe_chunk-Keeps, bumps)

  update_access-Keeps : (msg : UpdateAccessMessage) → Logged (update_access E msg)
  unfolding update_access
  update_access-Keeps msg = search (
    keeps_rules,
    for_chunks-Keeps,
    access_chunk-Keeps,
    bumps,
    send_message_update_access-Keeps E (IsLogged E.redis) ignores,
  )

  clear_chunk-Keeps :
      (chunk : List String) (entries : List Entry) → Logged (clear_chunk E chunk entries)
  unfolding clear_chunk
  clear_chunk-Keeps chunk entries =
      search (keeps_rules, clearing-Keeps, append_changelog_events-KeepsLog E L, bumps)

  tell_and_clear-Keeps :
      (chunk : List String) (entries : List Entry) → Logged (tell_and_clear E chunk entries)
  unfolding tell_and_clear
  tell_and_clear-Keeps chunk entries =
      search (keeps_rules, spawn-Keeps E.redis (IsLogged E.redis) ignores, clear_chunk-Keeps)

  unsubscribe_chunk-Keeps : (chunk : List String) → Logged (unsubscribe_chunk E chunk)
  unfolding unsubscribe_chunk
  unsubscribe_chunk-Keeps chunk =
      search (keeps_rules, read_all-Keeps E.redis (IsLogged E.redis) ignores, tell_and_clear-Keeps)

  unsubscribe-Keeps : (msg : UnsubscribeMessage) → Logged (unsubscribe E msg)
  unfolding unsubscribe
  unsubscribe-Keeps msg = search (keeps_rules, for_chunks-Keeps, unsubscribe_chunk-Keeps)

  change_sandbox_mode-Keeps : (msg : SandboxModeChangedMessage) → Logged (change_sandbox_mode E msg)
  unfolding change_sandbox_mode
  change_sandbox_mode-Keeps msg = search (
    keeps_rules,
    update_sandbox_cache-Keeps E (IsLogged E.redis) ignores,
    read-Keeps E.redis (IsLogged E.redis) ignores,
    spawn-Keeps E.redis (IsLogged E.redis) ignores,
  )

  keeps_access : KeepsAccess E (IsLogged E.redis)
  keeps_access = record {
    access = update_access-Keeps;
    subscription = subscribe-Keeps;
    removal = unsubscribe-Keeps;
    mode = change_sandbox_mode-Keeps;
  }

  -- If before a message the scores of the changelog increase and none is above the sequence number
  -- that was given out last, then this holds after the message: for every body, and wherever
  -- requests to Redis or sends fail.
  pub handle_message-IsLogged :
      (message : Message) (w : World E.redis.State)
      → IsLogged E.redis w.redis
      → IsLogged E.redis (handle_message E message w).1.redis
  handle_message-IsLogged message w h =
      (handle_message-Keeps E (IsLogged E.redis) ignores (append_changelog_events-KeepsLog E L)
          keeps_access message).at
        w h

-- ===== src/Mirror/Delivery.antt =====
-- Whom action_update_block of app/rabbitmq_consumer.py tells when no request to Redis fails.
use omnimap_sync.Prelude.{
  pos, length, String, true, false, not, ◌||◌, Option, some, List, [], ◌∷◌, ◌++◌, Dict, ◌≡◌, refl,
  arith, ◌∙◌, ap, is_empty, if◌then◌else◌,
}
use omnimap_sync.Value.{Value, truthy}
use omnimap_sync.Models.{Outgoing, block_update, SandboxContextItem, UpdateBlockMessage}
use omnimap_sync.Redis.{Key, block, changelog_seq, Command, incrby, Entry, effect, IsLawful}
use omnimap_sync.World.{World, Exec, ◌>>=◌, pure, spawn, write_all}
use omnimap_sync.World.Keeps.{Keeps-pure, Leads}
use omnimap_sync.World.Ensures.{
  Ensures, Ensures-pure, Ensures-bind, Ensures-if, Ensures-try_except, Ensures-write_all,
  Ensures-write_read, Ensures-read, IsCalm, Leads-after, Leads-if, Leads-try_except,
}
use omnimap_sync.Consumer.Pipelines.{apply_all-AllKeys, zadd_events-AllKeys}
use omnimap_sync.Env.{Env}
use omnimap_sync.Manager.Sandbox.{
  filter_subscribers_for_private_sandbox, SandboxInfo, get_value, update_sandbox_cache,
}
use omnimap_sync.Consumer.Changelog.{Op, append_changelog_events}
use omnimap_sync.Consumer.Blocks.{
  context_info, authorized, parent_info, save_block, cache_sandbox, notify_block, unless_raised,
  update_block,
}
use omnimap_sync.Consumer.Secrecy.{HasContext, parent_info-context_info}
use omnimap_sync.Mirror.{is_neutral, neutral_block, AllNeutral}
use omnimap_sync.Mirror.Steps.{IgnoresNeutral, sandbox_commands-AllNeutral}

module _ (E : Env) (L : IsLawful E.redis) (b : String) (entry : Entry) where
  abbrev Holds : E.redis.State → Type 0
  Holds s = E.redis.view s (block b) ≡ entry

  Holds-IgnoresNeutral : IgnoresNeutral E.redis Holds
  Holds-IgnoresNeutral s k c n h =
      L.view-write s k c (block b)
      ∙ ap (λ t. if t then effect c (E.redis.view s k) else E.redis.view s (block b))
          (neutral_block E.redis L k b n)
      ∙ h

  module _ (before : List (Outgoing × List String)) where
    -- No request fails, the block has its subscribers, and no task is added yet.
    abbrev IsReady : World E.redis.State → Type 0
    IsReady w = IsCalm w × Holds w.redis × (w.spawned ≡ before)

    write-Ensures :
        (cs : List (Key × Command))
        → AllNeutral cs
        → Ensures IsReady (λ _. IsReady) (write_all E.redis cs)
    write-Ensures cs n =
        Ensures-write_all E.redis (λ w h. h.0) cs
          (λ w h. (
            h.0,
            apply_all-AllKeys is_neutral E.redis Holds Holds-IgnoresNeutral w.redis cs n h.1,
            h.2,
          ))

    append-Ensures :
        (events : List (String × Op))
        → Ensures IsReady (λ _. IsReady) (append_changelog_events E events)
    unfolding append_changelog_events
    append-Ensures events =
        Ensures-if (not E.settings.sync_v2_enabled || is_empty events) _ _
          (λ _. Ensures-pure tt (λ w h. h))
          (λ _. Ensures-try_except _ _ (
            Ensures-bind (λ _. IsReady) _ _
              (Ensures-write_read E.redis (λ w h. h.0) changelog_seq (incrby (pos (length events)))
                (λ w h. (
                  h.0,
                  Holds-IgnoresNeutral w.redis changelog_seq (incrby (pos (length events))) refl
                      h.1,
                  h.2,
                )))
              (λ reply. write-Ensures _ (zadd_events-AllKeys is_neutral _ events _ refl))))

    cache-Ensures : (d : Dict Value) → Ensures IsReady (λ _. IsReady) (cache_sandbox E b d)
    unfolding cache_sandbox update_sandbox_cache
    cache-Ensures d =
        Ensures-if (truthy (get_value d "sandbox_mode")) _ _
          (λ _. Ensures-try_except _ _ (write-Ensures _ (sandbox_commands-AllNeutral E b _ _)))
          (λ _. Ensures-pure tt (λ w h. h))

module _ (E : Env) (L : IsLawful E.redis) (msg : UpdateBlockMessage) (ctx : SandboxContextItem)
    (entry : Entry) (before : List (Outgoing × List String)) where
  abbrev Ready : World E.redis.State → Type 0
  Ready w = IsReady E L msg.block_uuid entry before w

  -- The users who are subscribed to the block and may see it.
  abbrev recipients : List String
  recipients = authorized E (some (context_info ctx)) msg.block_data entry.members

  -- One task is added, for the recipients.
  abbrev IsTold : World E.redis.State → Type 0
  IsTold w =
      w.spawned
      ≡ before
        ++ (
          block_update (record { block_uuid = msg.block_uuid; content = msg.block_data }),
          recipients,
        )
          ∷ []

  save-Ensures : is_empty msg.block_data ≡ false → Ensures Ready (λ _. Ready) (save_block E msg)
  unfolding save_block
  save-Ensures full =
      Ensures-bind (λ _. Ready) _ _
        (Ensures-if (is_empty msg.block_data) _ _ (λ e. cc)
          (λ _. write-Ensures E L msg.block_uuid entry before _ (refl, tt)))
        (λ _. append-Ensures E L msg.block_uuid entry before _)

  spawn-Leads : Leads Ready IsTold (
      spawn
        (block_update (record { block_uuid = msg.block_uuid; content = msg.block_data }))
        recipients)
  unfolding spawn
  spawn-Leads = record {
    at = λ w h.
        ap
          (λ ts.
            ts
            ++ (
              block_update (record { block_uuid = msg.block_uuid; content = msg.block_data }),
              recipients,
            )
              ∷ [])
          h.2;
  }

  no_recipients :
      (users : List String)
      → is_empty users ≡ true
      → is_empty (authorized E (some (context_info ctx)) msg.block_data users) ≡ true
  unfolding authorized filter_subscribers_for_private_sandbox
  no_recipients [] h = ground arith
  no_recipients (u ∷ users) h = cc

  given :
      {A : Type 0} (e : Entry) (m : Exec E.redis.State A)
      → (e ≡ entry → Leads Ready IsTold m)
      → Leads (λ w. (e ≡ entry) × Ready w) IsTold m
  given e m k = record { at = λ w h. (k h.0).at w h.1 }

  known_parent-Leads :
      (f : Option SandboxInfo → Exec E.redis.State Unit)
      → HasContext E msg ctx
      → Leads Ready IsTold (f (some (context_info ctx)))
      → Leads Ready IsTold (parent_info E msg >>= f)
  unfolding ◌>>=◌
  known_parent-Leads f h k =
      rw (parent_info-context_info E msg ctx h) (record { at = λ w r. k.at w r })

  notify-Leads :
      HasContext E msg ctx → is_empty recipients ≡ false → Leads Ready IsTold (notify_block E msg)
  unfolding notify_block
  notify-Leads h some_one =
      Leads-after (λ e w. (e ≡ entry) × Ready w) IsTold _ _
        (Ensures-read E.redis (λ w r. r.0) (block msg.block_uuid) (λ w r. (r.1, r)))
        (λ e. given e _ (λ p. rw p (
          Leads-if (is_empty entry.members) (pure tt) _
            (λ nobody. record { at = λ w r. ground (arith, no_recipients entry.members) })
            (λ somebody. known_parent-Leads _ h (
              Leads-if (is_empty recipients) (pure tt) _
                (λ nobody. record { at = λ w r. ground arith }) (λ _. spawn-Leads))))))

  saved-Leads :
      (rest : Exec E.redis.State Unit)
      → is_empty msg.block_data ≡ false
      → Leads Ready IsTold rest
      → Leads Ready IsTold (unless_raised E (save_block E msg) rest)
  unfolding unless_raised
  saved-Leads rest full l =
      Leads-after (λ done w. (done ≡ true) × Ready w) IsTold _ _
        (Ensures-try_except _ _ (
          Ensures-bind (λ _. Ready) _ _ (save-Ensures full)
            (λ _. Ensures-pure true (λ w r. (refl, r)))))
        (λ done.
          Leads-if done rest (pure tt) (λ _. record { at = λ w r. l.at w r.1 })
            (λ failed. record { at = λ w r. cc (failed, r.0) }))

  IsTold-Leads :
      is_empty msg.block_data ≡ false
      → HasContext E msg ctx
      → is_empty recipients ≡ false
      → Leads Ready IsTold (update_block E msg)
  unfolding update_block
  IsTold-Leads full h some_one = saved-Leads _ full (
      Leads-after (λ _. Ready) IsTold _ _
        (cache-Ensures E L msg.block_uuid entry before msg.block_data)
        (λ _. Leads-try_except _ _ (notify-Leads h some_one) (λ _. Keeps-pure tt)))

-- If no request to Redis fails, the block's data is not empty, the message has the sandbox of the
-- block's parent with it, and someone is subscribed to the block and may see it, then
-- action_update_block adds one task: to tell those users, and no other, of the block.
pub update_block-spawned :
    (E : Env) (L : IsLawful E.redis) (msg : UpdateBlockMessage) (ctx : SandboxContextItem)
    (w : World E.redis.State)
    → IsCalm w
    → is_empty msg.block_data ≡ false
    → HasContext E msg ctx
    → is_empty (
        authorized E
          (some (context_info ctx))
          msg.block_data
          (E.redis.view w.redis (block msg.block_uuid)).members)
      ≡ false
    → (update_block E msg w).1.spawned
      ≡ w.spawned
        ++ (
          block_update (record { block_uuid = msg.block_uuid; content = msg.block_data }),
          authorized E
              (some (context_info ctx))
              msg.block_data
              (E.redis.view w.redis (block msg.block_uuid)).members,
        )
          ∷ []
update_block-spawned E L msg ctx w calm full h some_one =
    (IsTold-Leads E L msg ctx (E.redis.view w.redis (block msg.block_uuid)) w.spawned full h
        some_one).at
      w (calm, refl, refl)

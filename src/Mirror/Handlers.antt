-- ===== src/Mirror/Handlers.antt =====
-- The handlers of app/rabbitmq_consumer.py that write the two indexes.
use mathlib.Core.Path.{subst}
use omnimap_sync.Prelude.{String, Bool, true, false, List, [], ◌∷◌, map, ◌≡◌, refl, sym}
use omnimap_sync.Models.{
  Permission, deny, UpdateAccessMessage, SubscribeMessage, UnsubscribeMessage,
  SandboxModeChangedMessage, block_update,
}
use omnimap_sync.Redis.{Key, block, Command, IsLawful}
use omnimap_sync.World.{
  World, Exec, ◌>>=◌, modify, continue, request, request_with, for_each, spawn, write_all,
  apply_all,
}
use omnimap_sync.World.Keeps.{
  Keeps, keeps_rules, Keeps-write_all, Keeps-bind, Keeps-for_each, Leads, Leads-bind, Leads-Keeps,
}
use omnimap_sync.World.Replies.{Keeps-read_all_bind}
use omnimap_sync.Env.{Env}
use omnimap_sync.Consumer.Access.{
  access_commands, subscribe_commands, for_chunks, subscribe, update_access, unsubscribe,
  unsubscribe_chunk, clear_chunk, tell_and_clear, deleted_block, change_sandbox_mode,
}
use omnimap_sync.Mirror.{
  write_neutral-IsMirrored, IsMirrored, subscribe_commands-IsMirrored, revoke_commands-IsMirrored,
}
use omnimap_sync.Mirror.Removal.{unsubscribe_commands-IsMirrored}
use omnimap_sync.Mirror.Rows.{send_message_update_access-Keeps}
use omnimap_sync.Mirror.Steps.{
  IgnoresNeutral, IgnoresPlain, IgnoresVersions, plain, unversioned, Stored, free, read-Keeps,
  spawn-Keeps, append_changelog_events-Keeps, bump_subscription_versions-Keeps,
  update_sandbox_cache-Keeps,
}

module _ (E : Env) (L : IsLawful E.redis) where
  pub neutral : IgnoresNeutral E.redis (IsMirrored E.redis)
  neutral = write_neutral-IsMirrored E.redis L

  pub unindexed : IgnoresPlain E.redis (IsMirrored E.redis)
  unindexed = plain E.redis (IsMirrored E.redis) neutral

  versions : IgnoresVersions E.redis (IsMirrored E.redis)
  versions = unversioned E.redis (IsMirrored E.redis) neutral

  abbrev pub KeepsMirrored : {A : Type 0} → Exec E.redis.State A → Type 0
  KeepsMirrored m = Keeps (Stored E.redis (IsMirrored E.redis)) m

  subscribe_chunk-Keeps :
      (user : String) (chunk : List String)
      → KeepsMirrored (write_all E.redis (subscribe_commands user chunk))
  subscribe_chunk-Keeps user chunk =
      Keeps-write_all E.redis (Stored E.redis (IsMirrored E.redis))
        (free E.redis (IsMirrored E.redis)) _
        (λ w h. subscribe_commands-IsMirrored E.redis L w.redis user chunk h)

  access_commands-IsMirrored :
      (p : Permission) (s : E.redis.State) (user : String) (chunk : List String)
      → IsMirrored E.redis s
      → IsMirrored E.redis (apply_all E.redis s (access_commands p user chunk))
  access_commands-IsMirrored deny s user chunk h =
      revoke_commands-IsMirrored E.redis L s user chunk h
  access_commands-IsMirrored _ s user chunk h =
      subscribe_commands-IsMirrored E.redis L s user chunk h

  access_chunk-Keeps :
      (p : Permission) (user : String) (chunk : List String)
      → KeepsMirrored (write_all E.redis (access_commands p user chunk))
  access_chunk-Keeps p user chunk =
      Keeps-write_all E.redis (Stored E.redis (IsMirrored E.redis))
        (free E.redis (IsMirrored E.redis)) _
        (λ w h. access_commands-IsMirrored p w.redis user chunk h)

  for_chunks-Keeps :
      (xs : List String) (body : List String → Exec E.redis.State Unit)
      → ((chunk : List String) → KeepsMirrored (body chunk))
      → KeepsMirrored (for_chunks E xs body)
  unfolding for_chunks
  for_chunks-Keeps xs body k = search (keeps_rules, k)

  pub subscribe-Keeps : (msg : SubscribeMessage) → KeepsMirrored (subscribe E msg)
  unfolding subscribe
  subscribe-Keeps msg = search (
    keeps_rules,
    for_chunks-Keeps,
    subscribe_chunk-Keeps,
    bump_subscription_versions-Keeps E (IsMirrored E.redis) versions,
  )

  pub update_access-Keeps : (msg : UpdateAccessMessage) → KeepsMirrored (update_access E msg)
  unfolding update_access
  update_access-Keeps msg = search (
    keeps_rules,
    for_chunks-Keeps,
    access_chunk-Keeps,
    bump_subscription_versions-Keeps E (IsMirrored E.redis) versions,
    send_message_update_access-Keeps E (IsMirrored E.redis) unindexed,
  )

  -- The state that a chunk's pipeline was built from is the one that it runs in.
  abbrev FromState : E.redis.State → World E.redis.State → Type 0
  FromState s w = IsMirrored E.redis s × (w.redis ≡ s)

  told-Keeps :
      (s : E.redis.State) (chunk users : List String)
      → Keeps (FromState s) (
          for_each chunk (λ b.
            spawn (block_update (record { block_uuid = b; content = deleted_block b })) users))
  told-Keeps s chunk users = Keeps-for_each chunk _ (λ b. unfold spawn in record { at = λ w h. h })

  write_with :
      (s : E.redis.State) (cs : List (Key × Command)) (fs : List Bool) (w : World E.redis.State)
      → IsMirrored E.redis (apply_all E.redis s cs)
      → FromState s w
      → Stored E.redis
          (IsMirrored E.redis)
          (continue
            (λ _. modify (λ v. record v { redis = apply_all E.redis v.redis cs }))
            (request_with fs w).0
            (request_with fs w).1).1
  unfolding modify
  write_with s cs [] w k h = subst (λ t. IsMirrored E.redis (apply_all E.redis t cs)) (sym h.1) k
  write_with s cs (true ∷ fs) w k h = subst (IsMirrored E.redis) (sym h.1) h.0
  write_with s cs (false ∷ fs) w k h =
      subst (λ t. IsMirrored E.redis (apply_all E.redis t cs)) (sym h.1) k

  write-Leads :
      (s : E.redis.State) (cs : List (Key × Command))
      → IsMirrored E.redis (apply_all E.redis s cs)
      → Leads (FromState s) (Stored E.redis (IsMirrored E.redis)) (write_all E.redis cs)
  unfolding write_all request ◌>>=◌
  write-Leads s cs k = record { at = λ w h. write_with s cs w.faults w k h }

  clear_chunk-Leads :
      (s : E.redis.State) (chunk : List String)
      → IsMirrored E.redis s
      → Leads
          (FromState s)
          (Stored E.redis (IsMirrored E.redis))
          (clear_chunk E chunk (map (E.redis.view s) (map block chunk)))
  unfolding clear_chunk
  clear_chunk-Leads s chunk h =
      Leads-bind (FromState s) (Stored E.redis (IsMirrored E.redis))
        (Stored E.redis (IsMirrored E.redis)) _ _
        (write-Leads s _ (unsubscribe_commands-IsMirrored E.redis L s chunk h))
        (λ _. Leads-Keeps (
          Keeps-bind _ _ (append_changelog_events-Keeps E (IsMirrored E.redis) neutral _)
            (λ _. bump_subscription_versions-Keeps E (IsMirrored E.redis) versions _)))
        (λ w q. q)

  tell_and_clear-Leads :
      (s : E.redis.State) (chunk : List String)
      → IsMirrored E.redis s
      → Leads
          (FromState s)
          (Stored E.redis (IsMirrored E.redis))
          (tell_and_clear E chunk (map (E.redis.view s) (map block chunk)))
  unfolding tell_and_clear
  tell_and_clear-Leads s chunk h =
      Leads-bind (FromState s) (FromState s) (Stored E.redis (IsMirrored E.redis)) _ _
        (Leads-Keeps (told-Keeps s chunk _)) (λ _. clear_chunk-Leads s chunk h)
        (λ w q. subst (IsMirrored E.redis) (sym q.1) q.0)

  unsubscribe_chunk-Keeps : (chunk : List String) → KeepsMirrored (unsubscribe_chunk E chunk)
  unfolding unsubscribe_chunk
  unsubscribe_chunk-Keeps chunk =
      Keeps-read_all_bind E.redis (Stored E.redis (IsMirrored E.redis))
        (free E.redis (IsMirrored E.redis)) (map block chunk) (tell_and_clear E chunk)
        λ v h. (tell_and_clear-Leads v.redis chunk h).at v (h, refl)

  pub unsubscribe-Keeps : (msg : UnsubscribeMessage) → KeepsMirrored (unsubscribe E msg)
  unfolding unsubscribe
  unsubscribe-Keeps msg = search (keeps_rules, for_chunks-Keeps, unsubscribe_chunk-Keeps)

  pub change_sandbox_mode-Keeps :
      (msg : SandboxModeChangedMessage) → KeepsMirrored (change_sandbox_mode E msg)
  unfolding change_sandbox_mode
  change_sandbox_mode-Keeps msg = search (
    keeps_rules,
    update_sandbox_cache-Keeps E (IsMirrored E.redis) unindexed,
    read-Keeps E.redis (IsMirrored E.redis) unindexed,
    spawn-Keeps E.redis (IsMirrored E.redis) unindexed,
  )

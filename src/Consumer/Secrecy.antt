-- ===== src/Consumer/Secrecy.antt =====
-- Whom action_update_block of app/rabbitmq_consumer.py tells of a block in a private sandbox.
use omnimap_sync.Prelude.{
  String, true, false, Option, some, List, [], ◌∷◌, ◌++◌, Dict, contains, All, ◌≡◌, refl, arith,
  is_empty,
}
use omnimap_sync.Value.{Value, truthy, to_str}
use omnimap_sync.Models.{SandboxContextItem, Outgoing, UpdateBlockMessage}
use omnimap_sync.Redis.{Key, block, Command}
use omnimap_sync.World.{World, Exec, ◌>>=◌, pure, spawn, write_all, read, write_read}
use omnimap_sync.World.Keeps.{
  Keeps, keeps_rules, Keeps-pure, Keeps-bind, Keeps-if, Keeps-try_except, Keeps-write_all,
  Keeps-read, Keeps-write_read,
}
use omnimap_sync.Env.{Env}
use omnimap_sync.Manager.Sandbox.{SandboxInfo, get_value, update_sandbox_cache}
use omnimap_sync.Consumer.Changelog.{Op, append_changelog_events}
use omnimap_sync.Consumer.Blocks.{
  context_info, context_item, authorized, parent_info, context_or_lookup, save_block, cache_sandbox,
  notify_block, unless_raised, update_block,
}
use omnimap_sync.Consumer.Private.{may_see, contains-authorized}

All-append :
    {A : Type 0} (P : A → Type 0) (xs : List A) (x : A) → All P xs → P x → All P (xs ++ x ∷ [])
All-append P [] x h p = (p, tt)
All-append P (y ∷ xs) x h p = (h.0, All-append P xs x h.1 p)

module _ (E : Env) (msg : UpdateBlockMessage) (ctx : SandboxContextItem) where
  -- A task goes only to users who may see the block.
  abbrev pub IsDiscreet : Outgoing × List String → Type 0
  IsDiscreet task =
      (user : String)
      → contains task.1 user ≡ true
      → may_see E (some (context_info ctx)) msg.block_data user ≡ true

  abbrev pub AllDiscreet : World E.redis.State → Type 0
  AllDiscreet w = All IsDiscreet w.spawned

  abbrev Discreet : {A : Type 0} → Exec E.redis.State A → Type 0
  Discreet m = Keeps AllDiscreet m

  write-Discreet : (cs : List (Key × Command)) → Discreet (write_all E.redis cs)
  write-Discreet cs = Keeps-write_all E.redis AllDiscreet (λ w fs h. h) cs (λ w h. h)

  read-Discreet : (k : Key) → Discreet (read E.redis k)
  read-Discreet k = Keeps-read E.redis AllDiscreet (λ w fs h. h) k

  write_read-Discreet : (k : Key) (c : Command) → Discreet (write_read E.redis k c)
  write_read-Discreet k c = Keeps-write_read E.redis AllDiscreet (λ w fs h. h) k c (λ w h. h)

  append_changelog_events-Discreet :
      (events : List (String × Op)) → Discreet (append_changelog_events E events)
  unfolding append_changelog_events
  append_changelog_events-Discreet events =
      search (keeps_rules, write-Discreet, write_read-Discreet)

  save_block-Discreet : Discreet (save_block E msg)
  unfolding save_block
  save_block-Discreet = search (keeps_rules, write-Discreet, append_changelog_events-Discreet)

  update_sandbox_cache-Discreet :
      (b : String) (mode creator : Value) → Discreet (update_sandbox_cache E b mode creator)
  unfolding update_sandbox_cache
  update_sandbox_cache-Discreet b mode creator = search (keeps_rules, write-Discreet)

  cache_sandbox-Discreet : (b : String) (d : Dict Value) → Discreet (cache_sandbox E b d)
  unfolding cache_sandbox
  cache_sandbox-Discreet b d = search (keeps_rules, update_sandbox_cache-Discreet)

  spawn-Discreet :
      (m : Outgoing) (subscribers : List String)
      → Discreet (spawn m (authorized E (some (context_info ctx)) msg.block_data subscribers))
  unfolding spawn
  spawn-Discreet m subscribers = record {
    at = λ w h. All-append IsDiscreet w.spawned _ h (λ user c. ground (
      arith,
      c,
      contains-authorized E (some (context_info ctx)) msg.block_data subscribers user,
    ));
  }

  -- The message has the sandbox of the block's parent with it.
  abbrev pub HasContext : Type 0
  HasContext =
      (truthy (get_value msg.block_data "parent_id") ≡ true)
      × (context_item msg.sandbox_context (to_str E.runtime (get_value msg.block_data "parent_id"))
          ≡ some ctx)

  pub parent_info-context_info : HasContext → parent_info E msg ≡ pure (some (context_info ctx))
  unfolding parent_info context_or_lookup
  parent_info-context_info h = rw (h.0, h.1) refl

  known_parent-Discreet :
      (f : Option SandboxInfo → Exec E.redis.State Unit)
      → HasContext
      → Discreet (f (some (context_info ctx)))
      → Discreet (parent_info E msg >>= f)
  unfolding ◌>>=◌
  known_parent-Discreet f h k = rw (parent_info-context_info h) (record { at = λ w d. k.at w d })

  notify_block-Discreet : HasContext → Discreet (notify_block E msg)
  unfolding notify_block
  notify_block-Discreet h = Keeps-bind _ _ (read-Discreet (block msg.block_uuid)) λ entry.
      Keeps-if (is_empty entry.members) _ _ (λ _. Keeps-pure tt)
        λ _. known_parent-Discreet _ h (
          Keeps-if (is_empty (authorized E (some (context_info ctx)) msg.block_data entry.members))
            _ _ (λ _. Keeps-pure tt) (λ _. spawn-Discreet _ entry.members))

  update_block-Discreet : HasContext → Discreet (update_block E msg)
  unfolding update_block unless_raised
  update_block-Discreet h =
      Keeps-bind _ _
        (Keeps-try_except _ _ (Keeps-bind _ _ save_block-Discreet (λ _. Keeps-pure true))
          (λ _. Keeps-pure false))
        (λ saved.
          Keeps-if saved _ _
            (λ _.
              Keeps-bind _ _ (cache_sandbox-Discreet msg.block_uuid msg.block_data)
                (λ _. Keeps-try_except _ _ (notify_block-Discreet h) (λ _. Keeps-pure tt)))
            (λ _. Keeps-pure tt))

  -- If the message has the sandbox of the block's parent with it, then action_update_block tells
  -- only users who may see the block in that sandbox, wherever requests to Redis fail: every task
  -- that it adds is for such users alone, if those before are.
  pub update_block-AllDiscreet :
      (w : World E.redis.State) → HasContext → AllDiscreet w → AllDiscreet (update_block E msg w).1
  update_block-AllDiscreet w h d = (update_block-Discreet h).at w d

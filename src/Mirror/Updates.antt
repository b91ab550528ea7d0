-- ===== src/Mirror/Updates.antt =====
-- Saving blocks and telling of it, in app/rabbitmq_consumer.py, and the two indexes.
use omnimap_sync.Prelude.{String, true, false, List, [], ◌∷◌, Dict, Option, none, some, refl}
use omnimap_sync.Value.{Value}
use omnimap_sync.Models.{
  UpdateBlockMessage, UpdateBlocksMessage, BlockUpdateResponse, SandboxContextItem,
}
use omnimap_sync.Redis.{blockdata, hset}
use omnimap_sync.World.{Exec, pure, write_all}
use omnimap_sync.World.Keeps.{keeps_rules, Keeps-pure, Keeps-bind, Keeps-if, Keeps-try_except}
use omnimap_sync.Env.{Env}
use omnimap_sync.Manager.Sandbox.{
  SandboxInfo, get_sandbox_info, ask_backend, cache_backend_info, cached_or,
  get_parent_sandbox_info,
}
use omnimap_sync.Consumer.Blocks.{
  parent_info, context_or_lookup, save_block, cache_sandbox, notify_block, unless_raised,
  update_block, save_commands, save_blocks, fetch_parents, parent_sandbox_cache, cache_for,
  send_updates, notify_blocks, update_blocks,
}
use omnimap_sync.Mirror.Steps.{
  Kept, AllPlain, IgnoresPlain, KeepsLog, write_plain-Keeps, read-Keeps, read_all-Keeps,
  spawn-Keeps, update_sandbox_cache-Keeps,
}
use omnimap_sync.Mirror.Sends.{send_personal_message-Keeps}

module _ (E : Env) (P : E.redis.State → Type 0) (N : IgnoresPlain E.redis P)
    (A : KeepsLog E P) where
  cache_backend_info-Keeps :
      (p : String) (info : Option SandboxInfo) → Kept E P (cache_backend_info E p info)
  unfolding cache_backend_info
  cache_backend_info-Keeps p none = Keeps-pure none
  cache_backend_info-Keeps p (some info) = search (keeps_rules, update_sandbox_cache-Keeps E P N)

  ask_backend-Keeps : (p : String) → Kept E P (ask_backend E p)
  unfolding ask_backend
  ask_backend-Keeps p = search (keeps_rules, cache_backend_info-Keeps)

  cached_or-Keeps :
      (info : Option SandboxInfo) (p : String) → Kept E P (cached_or E info (ask_backend E p))
  unfolding cached_or
  cached_or-Keeps none p = ask_backend-Keeps p
  cached_or-Keeps (some info) p = Keeps-pure (some info)

  get_sandbox_info-Keeps : (p : String) → Kept E P (get_sandbox_info E p)
  unfolding get_sandbox_info
  get_sandbox_info-Keeps p = search (keeps_rules, read-Keeps E.redis P N)

  get_parent_sandbox_info-Keeps : (p : String) → Kept E P (get_parent_sandbox_info E p)
  unfolding get_parent_sandbox_info
  get_parent_sandbox_info-Keeps p = search (keeps_rules, get_sandbox_info-Keeps, cached_or-Keeps)

  context_or_lookup-Keeps :
      (c : Option SandboxContextItem) (p : String) → Kept E P (context_or_lookup E c p)
  unfolding context_or_lookup
  context_or_lookup-Keeps none p = get_parent_sandbox_info-Keeps p
  context_or_lookup-Keeps (some c) p = Keeps-pure _

  parent_info-Keeps : (msg : UpdateBlockMessage) → Kept E P (parent_info E msg)
  unfolding parent_info
  parent_info-Keeps msg = search (keeps_rules, context_or_lookup-Keeps)

  notify_block-Keeps : (msg : UpdateBlockMessage) → Kept E P (notify_block E msg)
  unfolding notify_block
  notify_block-Keeps msg =
      search (keeps_rules, read-Keeps E.redis P N, parent_info-Keeps, spawn-Keeps E.redis P N)

  hset-Keeps :
      (b : String) (d : Dict String) → Kept E P (write_all E.redis ((blockdata b, hset d) ∷ []))
  hset-Keeps b d = write_plain-Keeps E.redis P N _ (refl, tt)

  save_block-Keeps : (msg : UpdateBlockMessage) → Kept E P (save_block E msg)
  unfolding save_block
  save_block-Keeps msg = search (keeps_rules, hset-Keeps, A)

  cache_sandbox-Keeps : (b : String) (d : Dict Value) → Kept E P (cache_sandbox E b d)
  unfolding cache_sandbox
  cache_sandbox-Keeps b d = search (keeps_rules, update_sandbox_cache-Keeps E P N)

  unless_raised-Keeps :
      (m n : Exec E.redis.State Unit) → Kept E P m → Kept E P n → Kept E P (unless_raised E m n)
  unfolding unless_raised
  unless_raised-Keeps m n km kn =
      Keeps-bind _ _
        (Keeps-try_except _ _ (Keeps-bind _ _ km (λ _. Keeps-pure true)) (λ _. Keeps-pure false))
        (λ done. Keeps-if done n (pure tt) (λ _. kn) (λ _. Keeps-pure tt))

  pub update_block-Keeps : (msg : UpdateBlockMessage) → Kept E P (update_block E msg)
  unfolding update_block
  update_block-Keeps msg =
      search (
        keeps_rules, unless_raised-Keeps, save_block-Keeps, cache_sandbox-Keeps, notify_block-Keeps,
      )

  save_commands-AllPlain : (blocks : Dict (Dict Value)) → AllPlain (save_commands E blocks)
  unfolding save_commands
  save_commands-AllPlain [] = tt
  save_commands-AllPlain ((b, d) ∷ blocks) = (refl, save_commands-AllPlain blocks)

  save_commands-Keeps :
      (blocks : Dict (Dict Value)) → Kept E P (write_all E.redis (save_commands E blocks))
  save_commands-Keeps blocks = write_plain-Keeps E.redis P N _ (save_commands-AllPlain blocks)

  save_blocks-Keeps : (blocks : Dict (Dict Value)) → Kept E P (save_blocks E blocks)
  unfolding save_blocks
  save_blocks-Keeps blocks = search (keeps_rules, save_commands-Keeps, A)

  fetch_parents-Keeps : (pids : List String) → Kept E P (fetch_parents E pids)
  unfolding fetch_parents
  fetch_parents-Keeps pids = search (keeps_rules, read_all-Keeps E.redis P N)

  cache_for-Keeps :
      (c : Option (Dict SandboxContextItem)) (blocks : Dict (Dict Value))
      → Kept E P (cache_for E c blocks)
  unfolding cache_for
  cache_for-Keeps none blocks = fetch_parents-Keeps _
  cache_for-Keeps (some []) blocks = fetch_parents-Keeps _
  cache_for-Keeps (some (i ∷ items)) blocks = Keeps-pure _

  send_updates-Keeps : (u : String × List BlockUpdateResponse) → Kept E P (send_updates E u)
  unfolding send_updates
  send_updates-Keeps (user, update ∷ []) = send_personal_message-Keeps E.redis P N E.settings _ user
  send_updates-Keeps (user, us) = send_personal_message-Keeps E.redis P N E.settings _ user

  notify_blocks-Keeps : (msg : UpdateBlocksMessage) → Kept E P (notify_blocks E msg)
  unfolding notify_blocks parent_sandbox_cache
  notify_blocks-Keeps msg =
      search (keeps_rules, read_all-Keeps E.redis P N, cache_for-Keeps, send_updates-Keeps)

  pub update_blocks-Keeps : (msg : UpdateBlocksMessage) → Kept E P (update_blocks E msg)
  unfolding update_blocks
  update_blocks-Keeps msg = search (
    keeps_rules, unless_raised-Keeps, save_blocks-Keeps, cache_sandbox-Keeps, notify_blocks-Keeps,
  )

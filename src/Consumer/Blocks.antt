-- ===== src/Consumer/Blocks.antt =====
-- action_update_block and action_update_blocks of app/rabbitmq_consumer.py.
use omnimap_sync.Prelude.{
  String, Bool, true, false, ◌||◌, ◌==◌, Option, none, some, List, [], ◌∷◌, ◌++◌, map, is_empty,
  insert, Dict, if◌then◌else◌,
}
use omnimap_sync.Prelude.Assoc
use omnimap_sync.Value.{Value, truthy, to_str}
use omnimap_sync.Models.{
  id_text, id_truthy, SandboxContextItem, UpdateBlockMessage, UpdateBlocksMessage,
  BlockUpdateResponse, block_update, block_updates_batch,
}
use omnimap_sync.Utils.{prepare_block_data_for_redis}
use omnimap_sync.Redis.{Key, block, blockdata, sandbox, Command, hset, Entry}
use omnimap_sync.World.{
  Exec, ◌>>=◌, ◌>>◌, data_error, raise, pure, try_except, for_each, write_all, read, read_all,
  spawn,
}
use omnimap_sync.Env.{Env}
use omnimap_sync.Manager.{send_personal_message}
use omnimap_sync.Manager.Sandbox.{
  SandboxInfo, get_value, info_of_fields, update_sandbox_cache, get_parent_sandbox_info,
  filter_subscribers_for_private_sandbox,
}
use omnimap_sync.Consumer.Changelog.{upsert, append_changelog_events}

-- A sandbox of the message's context, as the dict that the code makes of it.
unfoldable pub context_info : SandboxContextItem → SandboxInfo
context_info ctx = record {
  mode = if ctx.is_private then "private" else "open";
  creator_id =
      if id_truthy ctx.creator_id
      then elim ctx.creator_id [ none ↦ "" | some id ↦ id_text id ]
      else "";
}

-- `msg.sandbox_context and parent_id in msg.sandbox_context`, with the item
abbrev pub context_item : Option (Dict SandboxContextItem) → String → Option SandboxContextItem
context_item none parent_id = none
context_item (some items) parent_id = Assoc.get items parent_id

unfoldable pub has_empty_block : Dict (Dict Value) → Bool
has_empty_block [] = false
has_empty_block ((block_uuid, block_data) ∷ blocks) = is_empty block_data || has_empty_block blocks

module _ (E : Env) where
  -- The subscribers who may have the update, given what is known of the parent.
  unfoldable pub authorized : Option SandboxInfo → Dict Value → List String → List String
  authorized none block_data subscribers = subscribers
  authorized (some info) block_data subscribers =
      if info.mode == "private"
      then filter_subscribers_for_private_sandbox E.runtime subscribers
          (get_value block_data "creator_id") info.creator_id
      else subscribers

  unfoldable pub context_or_lookup :
      Option SandboxContextItem → String → Exec E.redis.State (Option SandboxInfo)
  context_or_lookup (some ctx) parent_id = pure (some (context_info ctx))
  context_or_lookup none parent_id = get_parent_sandbox_info E parent_id

  -- What is known of the parent: from the message's context, else from the cache or the backend.
  unfoldable pub parent_info : UpdateBlockMessage → Exec E.redis.State (Option SandboxInfo)
  parent_info msg =
      if truthy (get_value msg.block_data "parent_id")
      then context_or_lookup
          (context_item msg.sandbox_context
            (to_str E.runtime (get_value msg.block_data "parent_id")))
          (to_str E.runtime (get_value msg.block_data "parent_id"))
      else pure none

  -- The client refuses an HSET with no field.
  unfoldable pub save_block : UpdateBlockMessage → Exec E.redis.State Unit
  save_block msg = do
    if is_empty msg.block_data
        then raise data_error
        else write_all E.redis (
            (blockdata msg.block_uuid, hset (prepare_block_data_for_redis E.runtime msg.block_data))
            ∷ [])
    append_changelog_events E ((msg.block_uuid, upsert) ∷ [])

  -- Step 1.5 of a batch, and the same step of a single update.
  unfoldable pub cache_sandbox : String → Dict Value → Exec E.redis.State Unit
  cache_sandbox block_uuid block_data =
      if truthy (get_value block_data "sandbox_mode")
      then update_sandbox_cache E block_uuid (get_value block_data "sandbox_mode")
          (get_value block_data "creator_id")
      else pure tt

  unfoldable pub notify_block : UpdateBlockMessage → Exec E.redis.State Unit
  notify_block msg = do
    entry ← read E.redis (block msg.block_uuid)
    if is_empty entry.members then pure tt else do
      info ← parent_info msg
      if is_empty (authorized info msg.block_data entry.members)
          then pure tt
          else spawn
              (block_update (record { block_uuid = msg.block_uuid; content = msg.block_data }))
              (authorized info msg.block_data entry.members)

  -- `try: first except Exception: return`, then the rest
  unfoldable pub unless_raised :
      Exec E.redis.State Unit → Exec E.redis.State Unit → Exec E.redis.State Unit
  unless_raised first rest = do
    done ← try_except (do first; pure true) (λ _. pure false)
    if done then rest else pure tt

  unfoldable pub update_block : UpdateBlockMessage → Exec E.redis.State Unit
  update_block msg =
      unless_raised (save_block msg) (do
        cache_sandbox msg.block_uuid msg.block_data
        try_except (notify_block msg) (λ _. pure tt))

  -- The pipeline of step 1.
  unfoldable pub save_commands : Dict (Dict Value) → List (Key × Command)
  save_commands [] = []
  save_commands ((block_uuid, block_data) ∷ blocks) =
      (blockdata block_uuid, hset (prepare_block_data_for_redis E.runtime block_data))
      ∷ save_commands blocks

  unfoldable pub save_blocks : Dict (Dict Value) → Exec E.redis.State Unit
  save_blocks blocks = do
    if has_empty_block blocks then raise data_error else write_all E.redis (save_commands blocks)
    append_changelog_events E (map (λ b. (b, upsert)) (Assoc.keys blocks))

  unfoldable pub parent_ids : List String → Dict (Dict Value) → List String
  parent_ids seen [] = seen
  parent_ids seen ((_, block_data) ∷ blocks) =
      parent_ids
        (if truthy (get_value block_data "parent_id")
          then insert (to_str E.runtime (get_value block_data "parent_id")) seen
          else seen)
        blocks

  -- `parent_sandbox_cache` from the message's context.
  unfoldable pub context_cache : Dict SandboxContextItem → Dict SandboxInfo
  context_cache [] = []
  context_cache ((parent_id, ctx) ∷ items) = (parent_id, context_info ctx) ∷ context_cache items

  abbrev put_info : String → Option SandboxInfo → Dict SandboxInfo → Dict SandboxInfo
  put_info pid none cache = cache
  put_info pid (some info) cache = Assoc.put cache pid info

  -- `parent_sandbox_cache` from the replies to HGETALL.
  unfoldable pub fetched_cache : List String → List Entry → Dict SandboxInfo → Dict SandboxInfo
  fetched_cache [] entries cache = cache
  fetched_cache (pid ∷ pids) [] cache = cache
  fetched_cache (pid ∷ pids) (entry ∷ entries) cache =
      fetched_cache pids entries (put_info pid (info_of_fields entry.fields) cache)

  unfoldable pub fetch_parents : List String → Exec E.redis.State (Dict SandboxInfo)
  fetch_parents pids =
      if is_empty pids
      then pure []
      else do entries ← read_all E.redis (map sandbox pids); pure (fetched_cache pids entries [])

  -- An empty context counts as none.
  unfoldable pub cache_for :
      Option (Dict SandboxContextItem) → Dict (Dict Value) → Exec E.redis.State (Dict SandboxInfo)
  cache_for none blocks = fetch_parents (parent_ids [] blocks)
  cache_for (some []) blocks = fetch_parents (parent_ids [] blocks)
  cache_for (some (item ∷ items)) blocks = pure (context_cache (item ∷ items))

  unfoldable pub parent_sandbox_cache : UpdateBlocksMessage → Exec E.redis.State (Dict SandboxInfo)
  parent_sandbox_cache msg = cache_for msg.sandbox_context msg.blocks

  -- `parent_sandbox_cache.get(str(parent_id))`, nothing for a block without parent
  abbrev pub cached_parent : Dict SandboxInfo → Dict Value → Option SandboxInfo
  cached_parent cache block_data =
      if truthy (get_value block_data "parent_id")
      then Assoc.get cache (to_str E.runtime (get_value block_data "parent_id"))
      else none

  abbrev updates_of : Option (List BlockUpdateResponse) → List BlockUpdateResponse
  updates_of none = []
  updates_of (some us) = us

  unfoldable pub add_update :
      BlockUpdateResponse
      → List String
      → Dict (List BlockUpdateResponse)
      → Dict (List BlockUpdateResponse)
  add_update update [] user_updates = user_updates
  add_update update (user ∷ users) user_updates =
      add_update update users
        (Assoc.put user_updates user (updates_of (Assoc.get user_updates user) ++ update ∷ []))

  -- Step 2: the updates of each user, in the order of the blocks.
  unfoldable pub group_updates :
      Dict SandboxInfo
      → Dict (Dict Value)
      → List Entry
      → Dict (List BlockUpdateResponse)
      → Dict (List BlockUpdateResponse)
  group_updates cache [] entries user_updates = user_updates
  group_updates cache (b ∷ blocks) [] user_updates = user_updates
  group_updates cache ((block_uuid, block_data) ∷ blocks) (entry ∷ entries) user_updates =
      group_updates cache blocks entries (
        add_update (record { block_uuid = block_uuid; content = block_data })
          (authorized (cached_parent cache block_data) block_data entry.members) user_updates)

  unfoldable pub send_updates : String × List BlockUpdateResponse → Exec E.redis.State Unit
  send_updates (user, update ∷ []) =
      send_personal_message E.redis E.settings (block_update update) user
  send_updates (user, updates) =
      send_personal_message E.redis E.settings (block_updates_batch updates) user

  unfoldable pub notify_blocks : UpdateBlocksMessage → Exec E.redis.State Unit
  notify_blocks msg = do
    entries ←
        if is_empty msg.blocks
        then pure []
        else read_all E.redis (map block (Assoc.keys msg.blocks))
    cache ← parent_sandbox_cache msg
    for_each (group_updates cache msg.blocks entries []) send_updates

  unfoldable pub update_blocks : UpdateBlocksMessage → Exec E.redis.State Unit
  update_blocks msg = unless_raised (save_blocks msg.blocks) (do
    for_each msg.blocks (λ b. cache_sandbox b.0 b.1)
    try_except (notify_blocks msg) (λ _. pure tt))

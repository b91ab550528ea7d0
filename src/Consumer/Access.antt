-- ===== src/Consumer/Access.antt =====
-- Who is subscribed to what: action_update_access, action_subscribe, action_unsubscribe and
-- action_sandbox_mode_changed of app/rabbitmq_consumer.py.
use omnimap_sync.Prelude.{
  ℕ, zero, suc, String, Bool, true, false, Option, none, some, List, [], ◌∷◌, ◌++◌, map, take, drop,
  length, eqb, is_empty, insert, Dict, if◌then◌else◌,
}
use omnimap_sync.Prelude.Assoc
use omnimap_sync.Value.{Value, bool, str}
use omnimap_sync.Models.{
  id_text, id_value, SandboxMode, none_mode, open_mode, private_mode, Permission, deny,
  UpdateAccessMessage, SubscribeMessage, UnsubscribeMessage, SandboxModeChangedMessage,
  block_update, block_update_access, sandbox_mode_changed,
}
use omnimap_sync.Utils.{parse_redis_block_data}
use omnimap_sync.Redis.{Key, block, blockdata, subscriber, sandbox, Command, sadd, srem, Entry}
use omnimap_sync.World.{
  value_error, Exec, ◌>>=◌, ◌>>◌, pure, raise, try_except, for_each, write_all, read, read_all,
  spawn,
}
use omnimap_sync.Env.{Env}
use omnimap_sync.Manager.{send_personal_message}
use omnimap_sync.Manager.Sandbox.{update_sandbox_cache}
use omnimap_sync.Consumer.Changelog.{delete, append_changelog_events, bump_subscription_versions}

-- `xs[i:i + portion] for i in range(0, len(xs), portion)`; the length of `xs` is fuel enough.
abbrev pub chunks_loop : ℕ → ℕ → List String → List (List String)
chunks_loop zero portion xs = []
chunks_loop (suc fuel) portion [] = []
chunks_loop (suc fuel) portion (x ∷ xs) =
    take portion (x ∷ xs) ∷ chunks_loop fuel portion (drop portion (x ∷ xs))

unfoldable pub chunks : ℕ → List String → List (List String)
chunks portion xs = chunks_loop (length xs) portion xs

-- The pipeline of one chunk.
unfoldable pub subscribe_commands : String → List String → List (Key × Command)
subscribe_commands user [] = []
subscribe_commands user (b ∷ bs) =
    (block b, sadd user) ∷ (subscriber user, sadd b) ∷ subscribe_commands user bs

unfoldable pub revoke_commands : String → List String → List (Key × Command)
revoke_commands user [] = []
revoke_commands user (b ∷ bs) =
    (block b, srem user) ∷ (subscriber user, srem b) ∷ revoke_commands user bs

abbrev pub is_deny : Permission → Bool
is_deny deny = true
is_deny _ = false

abbrev pub access_commands : Permission → String → List String → List (Key × Command)
access_commands permission user bs =
    if is_deny permission then revoke_commands user bs else subscribe_commands user bs

-- The subscribers of each block of a chunk, turned round: `user_blocks[user_id].add(block_uuid)`.
abbrev pub blocks_or_nil : Option (List String) → List String
blocks_or_nil none = []
blocks_or_nil (some bs) = bs

unfoldable pub add_users : String → List String → Dict (List String) → Dict (List String)
add_users b [] user_blocks = user_blocks
add_users b (user ∷ users) user_blocks =
    add_users b users
      (Assoc.put user_blocks user (insert b (blocks_or_nil (Assoc.get user_blocks user))))

unfoldable pub user_blocks_of : List String → List Entry → Dict (List String) → Dict (List String)
user_blocks_of [] entries user_blocks = user_blocks
user_blocks_of (b ∷ bs) [] user_blocks = user_blocks
user_blocks_of (b ∷ bs) (entry ∷ entries) user_blocks =
    user_blocks_of bs entries (add_users b entry.members user_blocks)

abbrev pub union : List String → List String → List String
union seen [] = seen
union seen (user ∷ users) = union (insert user seen) users

unfoldable pub all_subscribers_of : List Entry → List String → List String
all_subscribers_of [] seen = seen
all_subscribers_of (entry ∷ entries) seen = all_subscribers_of entries (union seen entry.members)

unfoldable pub srem_commands : Dict (List String) → List (Key × Command)
srem_commands [] = []
srem_commands ((user, bs) ∷ d) = map (λ b. (subscriber user, srem b)) bs ++ srem_commands d

unfoldable pub delete_commands : List String → List (Key × Command)
delete_commands bs =
    map (λ b. (block b, Command.delete)) bs
    ++ (map (λ b. (blockdata b, Command.delete)) bs ++ map (λ b. (sandbox b, Command.delete)) bs)

unfoldable pub deleted_block : String → Dict Value
deleted_block b = ("id", str b) ∷ ("deleted", bool true) ∷ []

abbrev pub mode_text : SandboxMode → String
mode_text none_mode = "none"
mode_text open_mode = "open"
mode_text private_mode = "private"

module _ (E : Env) where
  -- The loop over chunks. `range` refuses a step of 0.
  unfoldable pub for_chunks :
      List String → (List String → Exec E.redis.State Unit) → Exec E.redis.State Unit
  for_chunks xs body =
      if eqb E.settings.block_portion 0
      then raise value_error
      else for_each (chunks E.settings.block_portion xs) body

  unfoldable pub parse_rows : List Entry → List (Dict Value)
  parse_rows [] = []
  parse_rows (entry ∷ entries) =
      if is_empty entry.fields
      then parse_rows entries
      else parse_redis_block_data E.runtime entry.fields ∷ parse_rows entries

  unfoldable pub fetch_rows : List String → Exec E.redis.State (List (Dict Value))
  fetch_rows block_ids = do
    entries ← read_all E.redis (map blockdata block_ids)
    pure (parse_rows entries)

  -- The data that the message brings, else what Redis has.
  unfoldable pub given_or_fetched :
      Option (List (Dict Value)) → List String → Exec E.redis.State (List (Dict Value))
  given_or_fetched none block_ids = fetch_rows block_ids
  given_or_fetched (some []) block_ids = fetch_rows block_ids
  given_or_fetched (some (d ∷ ds)) block_ids = pure (d ∷ ds)

  -- `data_list` of `send_message_update_access`.
  unfoldable pub access_data : UpdateAccessMessage → Exec E.redis.State (List (Dict Value))
  access_data msg =
      if is_deny msg.permission
      then pure (map (λ b. Assoc.put E.settings.forbidden_block "id" (str b)) msg.start_block_ids)
      else given_or_fetched msg.block_data msg.start_block_ids

  unfoldable pub send_message_update_access : UpdateAccessMessage → Exec E.redis.State Unit
  send_message_update_access msg = do
    rows ← access_data msg
    if is_empty rows
        then pure tt
        else send_personal_message E.redis E.settings
            (block_update_access (record {
              start_block_ids = rows;
              block_uuids = msg.block_uuids ++ msg.start_block_ids;
              permission = msg.permission;
            }))
            (id_text msg.user_id)

  unfoldable pub update_access : UpdateAccessMessage → Exec E.redis.State Unit
  update_access msg =
      try_except
        (do
          for_chunks (msg.block_uuids ++ msg.start_block_ids) (λ chunk.
              write_all E.redis (access_commands msg.permission (id_text msg.user_id) chunk))
          bump_subscription_versions E (id_text msg.user_id ∷ [])
          send_message_update_access msg)
        (λ _. pure tt)

  unfoldable pub subscribe : SubscribeMessage → Exec E.redis.State Unit
  subscribe msg =
      try_except
        (do
          for_chunks msg.block_uuids
              (λ chunk. write_all E.redis (subscribe_commands (id_text msg.user_id) chunk))
          bump_subscription_versions E (id_text msg.user_id ∷ []))
        (λ _. pure tt)

  unfoldable pub clear_chunk : List String → List Entry → Exec E.redis.State Unit
  clear_chunk chunk entries = do
    write_all E.redis (srem_commands (user_blocks_of chunk entries []) ++ delete_commands chunk)
    append_changelog_events E (map (λ b. (b, delete)) chunk)
    bump_subscription_versions E (all_subscribers_of entries [])

  -- Every subscriber of the chunk is told of every block of the chunk.
  unfoldable pub tell_and_clear : List String → List Entry → Exec E.redis.State Unit
  tell_and_clear chunk entries = do
    for_each chunk (λ b.
        spawn (block_update (record { block_uuid = b; content = deleted_block b }))
          (all_subscribers_of entries []))
    clear_chunk chunk entries

  unfoldable pub unsubscribe_chunk : List String → Exec E.redis.State Unit
  unsubscribe_chunk chunk = do
    entries ← read_all E.redis (map block chunk)
    tell_and_clear chunk entries

  unfoldable pub unsubscribe : UnsubscribeMessage → Exec E.redis.State Unit
  unsubscribe msg = try_except (for_chunks msg.block_uuids unsubscribe_chunk) (λ _. pure tt)

  unfoldable pub change_sandbox_mode : SandboxModeChangedMessage → Exec E.redis.State Unit
  change_sandbox_mode msg = do
    update_sandbox_cache E msg.block_uuid (str (mode_text msg.sandbox_mode))
        (id_value msg.creator_id)
    try_except
        (do
          entry ← read E.redis (block msg.block_uuid)
          if is_empty entry.members
              then pure tt
              else spawn (sandbox_mode_changed msg.block_uuid msg.sandbox_mode) entry.members)
        (λ _. pure tt)

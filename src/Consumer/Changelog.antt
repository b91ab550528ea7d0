-- ===== src/Consumer/Changelog.antt =====
-- The changelog for cursor-based sync and the subscription versions: the helpers at the head of
-- app/rabbitmq_consumer.py, and the decoder of a changelog member in app/websockets.py.
use omnimap_sync.Prelude.{
  ℕ, pos, pos_part, ◌+◌, ◌-◌, String, ◌<>◌, not, ◌||◌, ◌==◌, Option, none, some, List, [], ◌∷◌,
  ◌++◌, map, length, is_empty, insert, ltb, decimal, cut_colon, if◌then◌else◌,
}
use omnimap_sync.Redis.{
  Key, subscription_version, changelog, changelog_seq, Command, incrby, zadd, zkeep, number_or_zero,
}
use omnimap_sync.World.{Exec, ◌>>=◌, pure, try_except, write_all, write_read}
use omnimap_sync.Env.{Env}

pub data Op : Type 0 where
  upsert delete : Op

abbrev pub op_text : Op → String
op_text upsert = "upsert"
op_text delete = "delete"

unfoldable pub changelog_member : ℕ → Op → String → String
changelog_member seq op block_id = decimal seq <> (":" <> (op_text op <> (":" <> block_id)))

abbrev decode_op : Option (String × String) → Option (Op × String)
decode_op none = none
decode_op (some (op, block_id)) =
    if block_id == ""
    then none
    else if op == "upsert"
    then some (upsert, block_id)
    else if op == "delete"
    then some (delete, block_id)
    else none

abbrev decode_rest : Option (String × String) → Option (Op × String)
decode_rest none = none
decode_rest (some (seq, rest)) = decode_op (cut_colon rest)

-- `_decode_changelog_member`: `member.split(":", 2)` cuts at the first two colons.
unfoldable pub decode_changelog_member : String → Option (Op × String)
decode_changelog_member member = decode_rest (cut_colon member)

-- The ZADD commands of the events, from a sequence number on.
unfoldable pub zadd_events : ℕ → List (String × Op) → List (Key × Command)
zadd_events seq [] = []
zadd_events seq ((block_id, op) ∷ events) =
    (changelog, zadd (changelog_member seq op block_id) seq) ∷ zadd_events (seq + 1) events

unfoldable pub trim_changelog : ℕ → List (Key × Command)
trim_changelog max_len = if ltb 0 max_len then (changelog, zkeep max_len) ∷ [] else []

-- `{str(uid) for uid in user_ids}`
unfoldable pub unique : List String → List String → List String
unique seen [] = seen
unique seen (user ∷ users) = unique (insert user seen) users

module _ (E : Env) where
  unfoldable pub append_changelog_events : List (String × Op) → Exec E.redis.State Unit
  append_changelog_events events =
      if not E.settings.sync_v2_enabled || is_empty events
      then pure tt
      else try_except
          (do
            reply ← write_read E.redis changelog_seq (incrby (pos (length events)))
            write_all E.redis (
                zadd_events (pos_part (number_or_zero reply.number) - length events + 1) events
                ++ trim_changelog E.settings.changelog_max_len))
          (λ _. pure tt)

  unfoldable pub bump_subscription_versions : List String → Exec E.redis.State Unit
  bump_subscription_versions user_ids =
      if not E.settings.sync_v2_enabled || is_empty user_ids
      then pure tt
      else try_except
          (write_all E.redis
            (map (λ user. (subscription_version user, incrby (pos 1))) (unique [] user_ids)))
          (λ _. pure tt)

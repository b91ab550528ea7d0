-- ===== src/Sync/V1.antt =====
-- handle_get_updates of app/websockets.py.
use omnimap_sync.Prelude.{
  ℤ, pos, ltbℤ, zero, String, Bool, true, false, ◌||◌, ◌==◌, Option, none, some, List, [], ◌∷◌,
  ◌++◌, map, is_empty, eqb, contains, Dict, if◌then◌else◌,
}
use omnimap_sync.Prelude.Assoc
use omnimap_sync.Value.{
  Value, Items, bool, int, str, list, dict, nil, item, truthy, Conversion, converted,
}
use omnimap_sync.Models.{BlockUpdatesResponse, error, block_updates}
use omnimap_sync.Redis.{blockdata, subscriber, Entry}
use omnimap_sync.World.{
  Socket, overflow_error, attribute_error, value_error, Exec, ◌>>=◌, pure, raise, try_except, read,
  read_all,
}
use omnimap_sync.Env.{Env}
use omnimap_sync.Manager.Sandbox.{get_value}
use omnimap_sync.Consumer.Access.{chunks}
use omnimap_sync.Consumer.Handle.{fields_dict, in_set}
use omnimap_sync.Sync.V2.{load_row, reply}

abbrev pub resync : String → BlockUpdatesResponse
resync reason = record {
  updates = [];
  new_blocks = [];
  full_resync_required = true;
  reason = some reason;
}

-- `valid_blocks_dict` and `unsubscribed_blocks`
pub record Split : Type 0 where
  pub valid : Dict ℤ
  pub unsubscribed : List Value

-- `d.get(k, 0)`
abbrev value_or_zero : Option Value → Value
value_or_zero none = int (pos 0)
value_or_zero (some v) = v

-- `int(float(v))`, 0 for what is no number; infinity is not caught.
abbrev pub time_or_zero : {S : Type 0} → Conversion → Exec S ℤ
time_or_zero (converted z) = pure z
time_or_zero Conversion.overflow_error = raise overflow_error
time_or_zero _ = pure (pos 0)

-- `int(float(v))`, nothing for what is no number.
abbrev pub time_or_none : {S : Type 0} → Conversion → Exec S (Option ℤ)
time_or_none (converted z) = pure (some z)
time_or_none Conversion.overflow_error = raise overflow_error
time_or_none _ = pure none

-- `{"id": block_id, "deleted": True}`
abbrev pub deleted_value : Value → Dict Value
deleted_value v = ("id", v) ∷ ("deleted", bool true) ∷ []

abbrev pub contains_text : List Value → String → Bool
contains_text [] s = false
contains_text (str t ∷ vs) s = t == s || contains_text vs s
contains_text (v ∷ vs) s = contains_text vs s

-- `subscribed_blocks - (set(valid_blocks_dict.keys()) | set(unsubscribed_blocks))`
unfoldable pub new_block_ids : Split → List String → List String
new_block_ids split [] = []
new_block_ids split (b ∷ bs) =
    let rest = new_block_ids split bs in
    if contains (Assoc.keys split.valid) b || contains_text split.unsubscribed b
    then rest
    else b ∷ rest

abbrev pub text_of : Value → String
text_of (str s) = s
text_of _ = ""

abbrev zero_or : Option ℤ → ℤ
zero_or none = pos 0
zero_or (some z) = z

module _ (E : Env) where
  -- One block of the request, whose id is in the set of subscriptions or not.
  unfoldable pub place_block : Split → Dict Value → Value → Bool → Exec E.redis.State Split
  place_block split block id true = do
    time ← time_or_zero (E.runtime.int_float (value_or_zero (Assoc.get block "updated_at")))
    pure (record split { valid = Assoc.put split.valid (text_of id) time })
  place_block split block id false =
      pure
        (if truthy id then record split { unsubscribed = split.unsubscribed ++ id ∷ [] } else split)

  -- A block that is no dict has no `get`.
  unfoldable pub split_block : List String → Split → Value → Exec E.redis.State Split
  split_block subscribed split (dict fs) = do
    known ← in_set subscribed (get_value (fields_dict fs) "id")
    place_block split (fields_dict fs) (get_value (fields_dict fs) "id") known
  split_block subscribed split v = raise attribute_error

  unfoldable pub split_blocks : List String → Split → Items → Exec E.redis.State Split
  split_blocks subscribed split nil = pure split
  split_blocks subscribed split (item v vs) = do
    next ← split_block subscribed split v
    split_blocks subscribed next vs

  abbrev pub newer_row : ℤ → Dict String → Option ℤ → Exec E.redis.State (List (Dict Value))
  newer_row client_time fields none = pure []
  newer_row client_time fields (some redis_time) =
      if ltbℤ client_time redis_time then (do row ← load_row E fields; pure (row ∷ [])) else pure []

  abbrev time_field : Option String → Value
  time_field none = int (pos 0)
  time_field (some s) = str s

  -- One row of a chunk, if it is newer than the client's.
  unfoldable pub compare_row : ℤ → Dict String → Exec E.redis.State (List (Dict Value))
  compare_row client_time fields = if is_empty fields then pure [] else do
    redis_time ← time_or_none (E.runtime.int_float (time_field (Assoc.get fields "updated_at")))
    newer_row client_time fields redis_time

  unfoldable pub compare_rows :
      Dict ℤ → List String → List Entry → Exec E.redis.State (List (Dict Value))
  compare_rows valid [] entries = pure []
  compare_rows valid (b ∷ bs) [] = pure []
  compare_rows valid (b ∷ bs) (entry ∷ entries) = do
    row ← compare_row (zero_or (Assoc.get valid b)) entry.fields
    rows ← compare_rows valid bs entries
    pure (row ++ rows)

  unfoldable pub compare_chunks :
      Dict ℤ → List (List String) → Exec E.redis.State (List (Dict Value))
  compare_chunks valid [] = pure []
  compare_chunks valid (chunk ∷ rest) = do
    entries ← read_all E.redis (map blockdata chunk)
    rows ← compare_rows valid chunk entries
    more ← compare_chunks valid rest
    pure (rows ++ more)

  -- A row that cannot be read is left out.
  unfoldable pub new_row : Dict String → Exec E.redis.State (List (Dict Value))
  new_row fields =
      if is_empty fields
      then pure []
      else try_except (do row ← load_row E fields; pure (row ∷ [])) (λ _. pure [])

  unfoldable pub new_rows : List Entry → Exec E.redis.State (List (Dict Value))
  new_rows [] = pure []
  new_rows (entry ∷ entries) = do
    row ← new_row entry.fields
    rows ← new_rows entries
    pure (row ++ rows)

  unfoldable pub new_blocks : List String → Exec E.redis.State (List (Dict Value))
  new_blocks [] = pure []
  new_blocks (b ∷ bs) = do entries ← read_all E.redis (map blockdata (b ∷ bs)); new_rows entries

  unfoldable pub answer_split : List String → Split → Exec E.redis.State BlockUpdatesResponse
  answer_split subscribed split =
      if is_empty split.valid
      then pure (resync "no_valid_blocks")
      else if eqb E.settings.block_portion zero
      then raise value_error
      else do
        rows ← compare_chunks split.valid (chunks E.settings.block_portion (Assoc.keys split.valid))
        fresh ← new_blocks (new_block_ids split subscribed)
        pure (record {
          updates = rows ++ map deleted_value split.unsubscribed;
          new_blocks = fresh;
          full_resync_required = false;
          reason = none;
        })

  unfoldable pub get_updates : String → Items → Exec E.redis.State BlockUpdatesResponse
  get_updates user blocks = do
    subscribed ← read E.redis (subscriber user)
    if is_empty subscribed.members then pure (resync "no_subscriptions") else do
      split ← split_blocks subscribed.members (record { valid = []; unsubscribed = [] }) blocks
      answer_split subscribed.members split

  unfoldable pub handle_get_updates : Socket → String → Value → Exec E.redis.State Unit
  handle_get_updates websocket user (list blocks) = do
    response ← get_updates user blocks
    reply websocket (block_updates response)
  handle_get_updates websocket user v = reply websocket (error "`blocks` must be a list.")

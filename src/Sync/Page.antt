-- ===== src/Sync/Page.antt =====
-- A page of the changelog, as handle_get_updates_v2 of app/websockets.py reads it.
use omnimap_sync.Prelude.{
  ℕ, suc, ℤ, pos, negsuc, String, Bool, true, false, Option, none, some, List, [], ◌∷◌, Dict,
  contains, ltb, min, max, if◌then◌else◌,
}
use omnimap_sync.Prelude.Assoc
use omnimap_sync.Consumer.Changelog.{Op, upsert, delete, decode_changelog_member}

-- `max(1, min(limit, GET_UPDATES_V2_MAX_LIMIT))`
abbrev pub safe_limit : ℤ → ℕ → ℕ
safe_limit (pos n) max_limit = max 1 (min n max_limit)
safe_limit (negsuc n) max_limit = 1

-- ZRANGEBYSCORE ({cursor} +inf, the entries with a greater score.
unfoldable pub entries_after : ℕ → List (String × ℕ) → List (String × ℕ)
entries_after cursor [] = []
entries_after cursor ((member, score) ∷ entries) =
    let rest = entries_after cursor entries in
    if ltb cursor score then (member, score) ∷ rest else rest

-- `cursor < min_seq - 1`, for the first entry of the changelog.
abbrev pub is_stale : ℕ → List (String × ℕ) → Bool
is_stale cursor [] = false
is_stale cursor ((member, score) ∷ entries) = ltb (suc cursor) score

-- `prev is None or seq > prev[0]`
abbrev pub is_newer : Option (ℕ × Op) → ℕ → Bool
is_newer none seq = true
is_newer (some (prev, op)) seq = ltb prev seq

-- One entry of the page: `max_seq` and `latest_by_block`.
abbrev pub scan_entry : Option (Op × String) → ℕ → ℕ × Dict (ℕ × Op) → ℕ × Dict (ℕ × Op)
scan_entry none score (max_seq, latest) = (max_seq, latest)
scan_entry (some (op, block_id)) score (max_seq, latest) = (
  max max_seq score,
  if is_newer (Assoc.get latest block_id) score
      then Assoc.put latest block_id (score, op)
      else latest,
)

-- Last event per block wins within the page.
unfoldable pub scan : List (String × ℕ) → ℕ × Dict (ℕ × Op) → ℕ × Dict (ℕ × Op)
scan [] state = state
scan ((member, score) ∷ entries) state =
    scan entries (scan_entry (decode_changelog_member member) score state)

pub record Event : Type 0 where
  pub seq : ℕ
  pub block_id : String
  pub op : Op

-- `relevant_events` before it is sorted.
unfoldable pub relevant_events : List String → Dict (ℕ × Op) → List Event
relevant_events subscribed [] = []
relevant_events subscribed ((block_id, (seq, op)) ∷ latest) =
    let rest = relevant_events subscribed latest in
    if contains subscribed block_id
    then record { seq = seq; block_id = block_id; op = op } ∷ rest
    else rest

abbrev pub insert_event : Event → List Event → List Event
insert_event e [] = e ∷ []
insert_event e (f ∷ fs) = if ltb f.seq e.seq then f ∷ insert_event e fs else e ∷ f ∷ fs

-- `relevant_events.sort(key=lambda item: item[0])`, stable.
unfoldable pub sort_events : List Event → List Event
sort_events [] = []
sort_events (e ∷ es) = insert_event e (sort_events es)

abbrev pub is_upsert : Op → Bool
is_upsert upsert = true
is_upsert delete = false

unfoldable pub ids_of : Bool → List Event → List String
ids_of upserts [] = []
ids_of true (e ∷ es) =
    let rest = ids_of true es in if is_upsert e.op then e.block_id ∷ rest else rest
ids_of false (e ∷ es) =
    let rest = ids_of false es in if is_upsert e.op then rest else e.block_id ∷ rest

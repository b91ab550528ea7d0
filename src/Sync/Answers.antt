-- ===== src/Sync/Answers.antt =====
-- Which blocks the answer to get_updates_v2 has, in app/websockets.py.
use omnimap_sync.Prelude.{
  ℕ, String, Bool, true, false, ◌&&◌, ◌||◌, not, ◌==◌, eq_iff, Option, none, some, List, [], ◌∷◌,
  Dict, contains, ◌≡◌, refl, ◌∙◌, ap, arith,
}
use omnimap_sync.Prelude.Assoc
use omnimap_sync.Utils.RoundTrip.{has_distinct}
use omnimap_sync.Consumer.Changelog.{Op, decode_changelog_member}
use omnimap_sync.Sync.Page.{
  scan, scan_entry, Event, relevant_events, sort_events, insert_event, is_upsert, ids_of,
}
use omnimap_sync.Sync.Progress.{is_ascending}
use omnimap_sync.Sync.Latest.{last_event, get-scan}

-- An upsert, or else a deletion.
abbrev pub is_of_kind : Bool → Option (ℕ × Op) → Bool
is_of_kind upserts none = false
is_of_kind true (some (seq, op)) = is_upsert op
is_of_kind false (some (seq, op)) = not (is_upsert op)

contains-insert_event :
    (upserts : Bool) (e : Event) (es : List Event) (id : String)
    → contains (ids_of upserts (insert_event e es)) id ≡ contains (ids_of upserts (e ∷ es)) id
unfolding ids_of
contains-insert_event upserts e [] id = refl
contains-insert_event true e (f ∷ fs) id = ground (arith, contains-insert_event true e fs id)
contains-insert_event false e (f ∷ fs) id = ground (arith, contains-insert_event false e fs id)

contains-cons_event :
    (upserts : Bool) (e : Event) (es fs : List Event) (id : String)
    → contains (ids_of upserts es) id ≡ contains (ids_of upserts fs) id
    → contains (ids_of upserts (e ∷ es)) id ≡ contains (ids_of upserts (e ∷ fs)) id
unfolding ids_of
contains-cons_event true e es fs id h = ground arith
contains-cons_event false e es fs id h = ground arith

contains-sort_events :
    (upserts : Bool) (es : List Event) (id : String)
    → contains (ids_of upserts (sort_events es)) id ≡ contains (ids_of upserts es) id
unfolding sort_events
contains-sort_events upserts [] id = refl
contains-sort_events upserts (e ∷ es) id =
    contains-insert_event upserts e (sort_events es) id
    ∙ contains-cons_event upserts e (sort_events es) es id (contains-sort_events upserts es id)

get-none :
    {A : Type 0} (d : Dict A) (k : String)
    → contains (Assoc.keys d) k ≡ false
    → Assoc.get d k ≡ none
get-none [] k h = refl
get-none ((j, v) ∷ d) k h = ground (arith, get-none d k)

contains-relevant_events :
    (upserts : Bool) (subscribed : List String) (latest : Dict (ℕ × Op)) (id : String)
    → has_distinct (Assoc.keys latest) ≡ true
    → contains (ids_of upserts (relevant_events subscribed latest)) id
      ≡ (contains subscribed id && is_of_kind upserts (Assoc.get latest id))
unfolding relevant_events ids_of
contains-relevant_events upserts subscribed [] id h = ground arith
contains-relevant_events true subscribed ((b, e) ∷ latest) id h =
    ground
      (arith, contains-relevant_events true subscribed latest id, get-none latest b, eq_iff b id)
contains-relevant_events false subscribed ((b, e) ∷ latest) id h =
    ground
      (arith, contains-relevant_events false subscribed latest id, get-none latest b, eq_iff b id)

contains-put :
    {A : Type 0} (d : Dict A) (k : String) (v : A) (j : String)
    → contains (Assoc.keys (Assoc.put d k v)) j ≡ (k == j || contains (Assoc.keys d) j)
contains-put [] k v j = refl
contains-put ((i, w) ∷ d) k v j = ground (arith, contains-put d k v j, eq_iff i k, eq_iff i j)

distinct_put :
    {A : Type 0} (d : Dict A) (k : String) (v : A)
    → has_distinct (Assoc.keys d) ≡ true
    → has_distinct (Assoc.keys (Assoc.put d k v)) ≡ true
distinct_put [] k v h = refl
distinct_put ((i, w) ∷ d) k v h =
    ground (arith, distinct_put d k v, contains-put d k v i, eq_iff k i, eq_iff i k)

distinct_scan_entry :
    (o : Option (Op × String)) (score m : ℕ) (latest : Dict (ℕ × Op))
    → has_distinct (Assoc.keys latest) ≡ true
    → has_distinct (Assoc.keys (scan_entry o score (m, latest)).1) ≡ true
distinct_scan_entry none score m latest h = h
distinct_scan_entry (some (op, b)) score m latest h =
    ground (arith, distinct_put latest b (score, op))

pub distinct_scan :
    (entries : List (String × ℕ)) (m : ℕ) (latest : Dict (ℕ × Op))
    → has_distinct (Assoc.keys latest) ≡ true
    → has_distinct (Assoc.keys (scan entries (m, latest)).1) ≡ true
unfolding scan
distinct_scan [] m latest h = h
distinct_scan ((member, score) ∷ entries) m latest h =
    let next = scan_entry (decode_changelog_member member) score (m, latest) in
    distinct_scan entries next.0 next.1
      (distinct_scan_entry (decode_changelog_member member) score m latest h)

-- If the scores of a page increase, then the blocks that its answer has as upserted (or deleted)
-- are those that the user subscribes to and whose last event in the page is an upsert (or a
-- deletion).
pub contains-ids_of :
    (upserts : Bool) (subscribed : List String) (low cursor : ℕ) (page : List (String × ℕ))
    (id : String)
    → is_ascending low page ≡ true
    → contains
        (ids_of upserts (sort_events (relevant_events subscribed (scan page (cursor, [])).1)))
        id
      ≡ (contains subscribed id && is_of_kind upserts (last_event page id))
contains-ids_of upserts subscribed low cursor page id h =
    let latest = (scan page (cursor, [])).1 in
    contains-sort_events upserts (relevant_events subscribed latest) id
    ∙ contains-relevant_events upserts subscribed latest id (distinct_scan page cursor [] refl)
    ∙ ap (λ e. contains subscribed id && is_of_kind upserts e) (get-scan low cursor page id h)

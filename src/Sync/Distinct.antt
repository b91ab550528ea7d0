-- ===== src/Sync/Distinct.antt =====
-- The answer to get_updates_v2 of app/websockets.py names no block twice.
use omnimap_sync.Prelude.{
  ℕ, String, Bool, true, false, eq_iff, List, [], ◌∷◌, Dict, contains, ◌≡◌, refl, ◌∙◌, arith,
}
use omnimap_sync.Prelude.Assoc
use omnimap_sync.Utils.RoundTrip.{has_distinct}
use omnimap_sync.Consumer.Changelog.{Op}
use omnimap_sync.Sync.Page.{scan, Event, relevant_events, sort_events, insert_event, ids_of}
use omnimap_sync.Sync.Answers.{distinct_scan}

abbrev event_ids : List Event → List String
event_ids [] = []
event_ids (e ∷ es) = e.block_id ∷ event_ids es

contains_relevant :
    (subscribed : List String) (latest : Dict (ℕ × Op)) (b : String)
    → contains (Assoc.keys latest) b ≡ false
    → contains (event_ids (relevant_events subscribed latest)) b ≡ false
unfolding relevant_events
contains_relevant subscribed [] b h = refl
contains_relevant subscribed ((a, e) ∷ latest) b h =
    ground (arith, contains_relevant subscribed latest b)

distinct_relevant :
    (subscribed : List String) (latest : Dict (ℕ × Op))
    → has_distinct (Assoc.keys latest) ≡ true
    → has_distinct (event_ids (relevant_events subscribed latest)) ≡ true
unfolding relevant_events
distinct_relevant subscribed [] h = refl
distinct_relevant subscribed ((a, e) ∷ latest) h =
    ground (arith, distinct_relevant subscribed latest, contains_relevant subscribed latest a)

contains_inserted :
    (e : Event) (es : List Event) (b : String)
    → contains (event_ids (insert_event e es)) b ≡ contains (event_ids (e ∷ es)) b
contains_inserted e [] b = refl
contains_inserted e (f ∷ fs) b = ground (arith, contains_inserted e fs b)

distinct_inserted :
    (e : Event) (es : List Event)
    → has_distinct (event_ids (e ∷ es)) ≡ true
    → has_distinct (event_ids (insert_event e es)) ≡ true
distinct_inserted e [] h = refl
distinct_inserted e (f ∷ fs) h = ground (
  arith,
  distinct_inserted e fs,
  contains_inserted e fs f.block_id,
  eq_iff e.block_id f.block_id,
  eq_iff f.block_id e.block_id,
)

contains_sorted :
    (es : List Event) (b : String)
    → contains (event_ids (sort_events es)) b ≡ contains (event_ids es) b
unfolding sort_events
contains_sorted [] b = refl
contains_sorted (e ∷ es) b =
    contains_inserted e (sort_events es) b ∙ ground (arith, contains_sorted es b)

distinct_sorted :
    (es : List Event)
    → has_distinct (event_ids es) ≡ true
    → has_distinct (event_ids (sort_events es)) ≡ true
unfolding sort_events
distinct_sorted [] h = refl
distinct_sorted (e ∷ es) h =
    distinct_inserted e (sort_events es)
      (ground (arith, distinct_sorted es, contains_sorted es e.block_id))

contains_kind :
    (upserts : Bool) (es : List Event) (b : String)
    → contains (event_ids es) b ≡ false
    → contains (ids_of upserts es) b ≡ false
unfolding ids_of
contains_kind upserts [] b h = refl
contains_kind true (e ∷ es) b h = ground (arith, contains_kind true es b)
contains_kind false (e ∷ es) b h = ground (arith, contains_kind false es b)

distinct_kind :
    (upserts : Bool) (es : List Event)
    → has_distinct (event_ids es) ≡ true
    → has_distinct (ids_of upserts es) ≡ true
unfolding ids_of
distinct_kind upserts [] h = refl
distinct_kind true (e ∷ es) h =
    ground (arith, distinct_kind true es, contains_kind true es e.block_id)
distinct_kind false (e ∷ es) h =
    ground (arith, distinct_kind false es, contains_kind false es e.block_id)

pub has_distinct-ids_of :
    (upserts : Bool) (subscribed : List String) (page : List (String × ℕ)) (cursor : ℕ)
    → has_distinct
        (ids_of upserts (sort_events (relevant_events subscribed (scan page (cursor, [])).1)))
      ≡ true
has_distinct-ids_of upserts subscribed page cursor =
    distinct_kind upserts _
      (distinct_sorted _ (distinct_relevant subscribed _ (distinct_scan page cursor [] refl)))

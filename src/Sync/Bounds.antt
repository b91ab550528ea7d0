-- ===== src/Sync/Bounds.antt =====
-- How much one answer of get_updates_v2 of app/websockets.py has.
use omnimap_sync.Prelude.{
  ℕ, suc, ◌+◌, ◌≤◌, ℤ, pos, negsuc, max, String, true, false, Option, none, some, List, [], ◌∷◌,
  map, length, length-append, length-take, Dict, ◌≡◌, refl, arith,
}
use omnimap_sync.Prelude.Assoc
use omnimap_sync.Models.{BlockUpdatesV2Response}
use omnimap_sync.Redis.{subscriber}
use omnimap_sync.World.{World, ok}
use omnimap_sync.Env.{Env}
use omnimap_sync.Consumer.Access.{deleted_block}
use omnimap_sync.Consumer.Changelog.{Op, decode_changelog_member}
use omnimap_sync.Sync.Page.{
  safe_limit, is_stale, entries_after, scan, scan_entry, Event, relevant_events, sort_events,
  insert_event, ids_of,
}
use omnimap_sync.Sync.Progress.{le_scan}
use omnimap_sync.Sync.V2.{get_updates_v2}
use omnimap_sync.Sync.Rows.{row_of, fields_of}
use omnimap_sync.Sync.Reference.{
  IsSynced, log_of, page_after, events_of, cursor_after, answer_at, get_updates_v2-answer_at,
}

length-map : {A B : Type 0} (f : A → B) (xs : List A) → length (map f xs) ≡ length xs
length-map f [] = refl
length-map f (x ∷ xs) = omega (arith, length-map f xs)

put_bound :
    {A : Type 0} (d : Dict A) (k : String) (v : A) → length (Assoc.put d k v) ≤ suc (length d)
put_bound [] k v = omega arith
put_bound ((j, u) ∷ d) k v = ground (arith, put_bound d k v)

scan_entry_bound :
    (o : Option (Op × String)) (score m : ℕ) (latest : Dict (ℕ × Op))
    → length (scan_entry o score (m, latest)).1 ≤ suc (length latest)
scan_entry_bound none score m latest = omega arith
scan_entry_bound (some (op, b)) score m latest = ground (arith, put_bound latest b (score, op))

scan_bound :
    (page : List (String × ℕ)) (m : ℕ) (latest : Dict (ℕ × Op))
    → length (scan page (m, latest)).1 ≤ length page + length latest
unfolding scan
scan_bound [] m latest = omega arith
scan_bound ((member, score) ∷ page) m latest =
    let next = scan_entry (decode_changelog_member member) score (m, latest) in
    omega (
      arith,
      scan_bound page next.0 next.1,
      scan_entry_bound (decode_changelog_member member) score m latest,
    )

relevant_events_bound :
    (subscribed : List String) (latest : Dict (ℕ × Op))
    → length (relevant_events subscribed latest) ≤ length latest
unfolding relevant_events
relevant_events_bound subscribed [] = omega arith
relevant_events_bound subscribed ((b, e) ∷ latest) =
    ground (arith, relevant_events_bound subscribed latest)

length-insert_event : (e : Event) (es : List Event) → length (insert_event e es) ≡ suc (length es)
length-insert_event e [] = refl
length-insert_event e (f ∷ fs) = ground (arith, length-insert_event e fs)

length-sort_events : (es : List Event) → length (sort_events es) ≡ length es
unfolding sort_events
length-sort_events [] = refl
length-sort_events (e ∷ es) =
    omega (arith, length-insert_event e (sort_events es), length-sort_events es)

-- Every event is an upsert or a deletion.
length-ids_of : (es : List Event) → length (ids_of true es) + length (ids_of false es) ≡ length es
unfolding ids_of
length-ids_of [] = refl
length-ids_of (e ∷ es) = ground (arith, length-ids_of es)

module _ (E : Env) (user : String) (limit : ℤ) (w : World E.redis.State) (cursor : ℕ) where
  events_of_bound :
      length (events_of E user limit w cursor)
      ≤ safe_limit limit E.settings.get_updates_v2_max_limit
  events_of_bound =
      let members = (E.redis.view w.redis (subscriber user)).members in
      let page = page_after E user limit w cursor in
      let latest = (scan page (cursor, [])).1 in
      omega (
        arith,
        length-sort_events (relevant_events members latest),
        relevant_events_bound members latest,
        scan_bound page cursor [],
        length-take (safe_limit limit E.settings.get_updates_v2_max_limit)
            (entries_after cursor (log_of E user limit w)),
      )

  answer_at_bound :
      length (answer_at E user limit w cursor).updates
      ≤ safe_limit limit E.settings.get_updates_v2_max_limit
  unfolding answer_at
  answer_at_bound =
      let upserts = ids_of true (events_of E user limit w cursor) in
      let deletes = ids_of false (events_of E user limit w cursor) in
      omega (
        arith,
        length-append (map (λ b. row_of E b (fields_of E w b)) upserts) (map deleted_block deletes),
        length-map (λ b. row_of E b (fields_of E w b)) upserts,
        length-map deleted_block deletes,
        length-ids_of (events_of E user limit w cursor),
        events_of_bound,
      )

  next_cursor-answer_at :
      (answer_at E user limit w cursor).next_cursor ≡ pos (cursor_after E user limit w cursor)
  unfolding answer_at
  next_cursor-answer_at = refl

safe_limit_bound : (limit : ℤ) (bound : ℕ) → safe_limit limit bound ≤ max 1 bound
safe_limit_bound (pos n) bound = omega arith
safe_limit_bound (negsuc n) bound = omega arith

-- If the client is in step with the server, no request fails, no time is infinite, the changelog is
-- one that the consumer writes, and its first entry is not too late for the cursor, then whatever
-- limit it asks for, the answer of get_updates_v2 has at most as many updates as the settings allow,
-- or one, and its cursor is not below the client's.
pub get_updates_v2-bound :
    (E : Env) (user : String) (version : ℕ) (limit : ℤ) (w : World E.redis.State) (cursor : ℕ)
    → IsSynced E user version w
    → is_stale cursor (log_of E user limit w) ≡ false
    → (page : BlockUpdatesV2Response) × (next : ℕ) × (get_updates_v2 E user cursor version limit w
        ≡ (ok page, w))
      × (length page.updates ≤ max 1 E.settings.get_updates_v2_max_limit)
      × (page.next_cursor ≡ pos next)
      × (cursor ≤ next)
get_updates_v2-bound E user version limit w cursor s fresh = (
  answer_at E user limit w cursor,
  cursor_after E user limit w cursor,
  get_updates_v2-answer_at E user limit w cursor version s fresh,
  omega (
    arith,
    answer_at_bound E user limit w cursor,
    safe_limit_bound limit E.settings.get_updates_v2_max_limit,
  ),
  next_cursor-answer_at E user limit w cursor,
  le_scan (page_after E user limit w cursor) cursor [],
)

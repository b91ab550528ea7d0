-- ===== src/Sync/Pull/Told.antt =====
-- What a client of app/websockets.py is told by asking again.
use omnimap_sync.Prelude.{
  ℕ, zero, suc, ◌<◌, ℤ, String, Bool, true, false, ◌&&◌, Option, none, some, List, map, take, drop,
  take-append-drop, length, contains, ◌≡◌, inr, refl, sym, ap, ◌∙◌, arith,
}
use omnimap_sync.Models.{BlockUpdatesV2Response}
use omnimap_sync.Redis.{subscriber}
use omnimap_sync.World.{World, ok}
use omnimap_sync.Env.{Env}
use omnimap_sync.Consumer.Access.{deleted_block}
use omnimap_sync.Consumer.Changelog.{Op, upsert, delete}
use omnimap_sync.Sync.Page.{safe_limit, entries_after, is_stale, ids_of}
use omnimap_sync.Sync.Progress.{is_ascending-entries_after}
use omnimap_sync.Sync.Latest.{last_event, or_else}
use omnimap_sync.Sync.Answers.{is_of_kind, contains-ids_of}
use omnimap_sync.Sync.Rows.{row_of, fields_of}
use omnimap_sync.Sync.Reference.{IsSynced, log_of, page_after, events_of, cursor_after, answer_at}
use omnimap_sync.Sync.Pull.{pull, Occurs, Tells, told_row}
use omnimap_sync.Sync.Pull.Lists.{
  Occurs-append_left, Occurs-append_right, Occurs-map, last_event-append, is_ascending-take,
  some_event,
}
use omnimap_sync.Sync.Pull.Pages.{
  rest_after-next_of, fewer_left, pages_from, pull-pages_from, pages_from_more, head-Tells,
}

module _ (E : Env) (user : String) (version : ℕ) (limit : ℤ) (w : World E.redis.State)
    (s : IsSynced E user version w) where
  abbrev rest : ℕ → List (String × ℕ)
  rest cursor = entries_after cursor (log_of E user limit w)

  abbrev next : ℕ → ℕ
  next = cursor_after E user limit w

  -- The blocks of a page's answer, of either kind.
  pub contains-events_of :
      (upserts : Bool) (cursor : ℕ) (id : String)
      → contains (ids_of upserts (events_of E user limit w cursor)) id ≡ (
          contains (E.redis.view w.redis (subscriber user)).members id
          && is_of_kind upserts (last_event (page_after E user limit w cursor) id))
  contains-events_of upserts cursor id =
      contains-ids_of upserts (E.redis.view w.redis (subscriber user)).members cursor cursor
        (page_after E user limit w cursor) id
        (is_ascending-take (safe_limit limit E.settings.get_updates_v2_max_limit) cursor
          (rest cursor) (is_ascending-entries_after 0 cursor (log_of E user limit w) s.ascending))

  told_in_page :
      (cursor seq : ℕ) (op : Op) (id : String)
      → contains (E.redis.view w.redis (subscriber user)).members id ≡ true
      → last_event (page_after E user limit w cursor) id ≡ some (seq, op)
      → Occurs (told_row E w id op) (answer_at E user limit w cursor).updates
  unfolding answer_at
  told_in_page cursor seq upsert id listed last =
      Occurs-append_left (told_row E w id upsert) (map (λ b. row_of E b (fields_of E w b)) _) _ (
        Occurs-map (λ b. row_of E b (fields_of E w b))
          (ids_of true (events_of E user limit w cursor)) id
          (contains-events_of true cursor id ∙ rw (listed, last) refl))
  told_in_page cursor seq delete id listed last =
      Occurs-append_right (told_row E w id delete) (map (λ b. row_of E b (fields_of E w b)) _) _ (
        Occurs-map deleted_block (ids_of false (events_of E user limit w cursor)) id
          (contains-events_of false cursor id ∙ rw (listed, last) refl))

  -- The last event after a cursor stands in the page, or else after it.
  last_event-page :
      (cursor : ℕ) (id : String)
      → last_event (rest cursor) id
        ≡ or_else
            (last_event (rest (next cursor)) id)
            (last_event (page_after E user limit w cursor) id)
  last_event-page cursor id =
      let n = safe_limit limit E.settings.get_updates_v2_max_limit in
      ap (λ entries. last_event entries id) (sym (take-append-drop n (rest cursor)))
      ∙ last_event-append (take n (rest cursor)) (drop n (rest cursor)) id
      ∙ ap (λ left. or_else (last_event left id) (last_event (take n (rest cursor)) id))
          (sym (rest_after-next_of E user version limit w s cursor))

  pages_from-Tells :
      (fuel cursor seq : ℕ) (op : Op) (id : String) (later : Option (ℕ × Op))
      → length (rest cursor) < fuel
      → contains (E.redis.view w.redis (subscriber user)).members id ≡ true
      → last_event (rest cursor) id ≡ some (seq, op)
      → last_event (rest (next cursor)) id ≡ later
      → Tells (told_row E w id op) (pages_from E user version limit w s fuel cursor)
  pages_from-Tells zero cursor seq op id later h listed last e = absurd (omega arith)
  pages_from-Tells (suc fuel) cursor seq op id none h listed last e =
      head-Tells E user version limit w s (told_row E w id op) fuel cursor (
        told_in_page cursor seq op id listed (
          sym (ap (λ o. or_else o (last_event (page_after E user limit w cursor) id)) e)
          ∙ sym (last_event-page cursor id)
          ∙ last))
  pages_from-Tells (suc fuel) cursor seq op id (some (seq', op')) h listed last e =
      let page_event = last_event (page_after E user limit w cursor) id in
      let same : some (seq', op') ≡ some (seq, op) =
        sym (ap (λ o. or_else o page_event) e) ∙ sym (last_event-page cursor id) ∙ last in
      let more = some_event (rest (next cursor)) id (seq, op) (e ∙ same) in
      rw (pages_from_more E user version limit w s fuel cursor more) (
        inr (
          pages_from-Tells fuel (next cursor) seq op id (last_event (rest (next (next cursor))) id)
            (fewer_left E user version limit w s cursor fuel more h) listed (e ∙ same) refl))

-- If the client is in step with the server, no request fails, no time is infinite, the changelog is
-- one that the consumer writes, its first entry is not too late for the cursor, and the client may
-- ask once more than there are entries after the cursor, then a client that asks again while there
-- is more is told of every block that the user subscribes to and that has an event after the cursor:
-- some answer has the block's row as Redis holds it, if the last of the events is an upsert, and
-- that the block is deleted, if it is a deletion.
pub pull-Tells :
    (E : Env) (user : String) (version : ℕ) (limit : ℤ) (w : World E.redis.State)
    (fuel cursor seq : ℕ) (op : Op) (id : String)
    → IsSynced E user version w
    → is_stale cursor (log_of E user limit w) ≡ false
    → length (entries_after cursor (log_of E user limit w)) < fuel
    → contains (E.redis.view w.redis (subscriber user)).members id ≡ true
    → last_event (entries_after cursor (log_of E user limit w)) id ≡ some (seq, op)
    → (pages : List BlockUpdatesV2Response) × (pull E fuel user cursor version limit w
        ≡ (ok pages, w))
      × Tells (told_row E w id op) pages
pull-Tells E user version limit w fuel cursor seq op id s fresh enough listed last = (
  pages_from E user version limit w s fuel cursor,
  pull-pages_from E user version limit w s fuel cursor fresh,
  pages_from-Tells E user version limit w s fuel cursor seq op id _ enough listed last refl,
)

-- ===== src/Sync/Reference.antt =====
-- What handle_get_updates_v2 of app/websockets.py answers to a client that is up to date with its
-- subscriptions, described by the rows that Redis holds.
use omnimap_sync.Prelude.{
  ℕ, zero, suc, ℤ, String, Bool, true, false, not, List, [], ◌∷◌, ◌++◌, map, take, is_empty, ◌≡◌,
  refl, ap, ◌∙◌, Bool-cases, inl, inr,
}
use omnimap_sync.Models.{BlockUpdatesV2Response}
use omnimap_sync.Redis.{subscriber, subscription_version, changelog, number_or_zero}
use omnimap_sync.World.{World, ok, ◌>>=◌, pure}
use omnimap_sync.World.Ensures.{IsCalm}
use omnimap_sync.Env.{Env}
use omnimap_sync.Consumer.Access.{deleted_block}
use omnimap_sync.Sync.Page.{
  safe_limit, entries_after, is_stale, scan, Event, relevant_events, sort_events, ids_of,
}
use omnimap_sync.Sync.Progress.{AllDecoded, is_ascending, AllDecoded-entries_after}
use omnimap_sync.Sync.V2.{same_version, page_response, answer_events, answer_page, get_updates_v2}
use omnimap_sync.Sync.Scans.{scan-is_empty, safe_limit_positive, take-nil}
use omnimap_sync.Sync.Rows.{read_calm, row_of, is_readable, fields_of, upsert_rows_lem}

module _ (E : Env) where
  -- The client knows the server's version of the user's subscriptions, the user has some, no request
  -- fails, no block has an infinite time, and the changelog is one that the consumer writes.
  pub record IsSynced (user : String) (version : ℕ) (w : World E.redis.State) : Type 0 where
    pub calm : IsCalm w
    pub same :
        same_version version
          (number_or_zero (E.redis.view w.redis (subscription_version user)).number)
        ≡ true
    pub subscribed : is_empty (E.redis.view w.redis (subscriber user)).members ≡ false
    pub readable : (b : String) → is_readable E (fields_of E w b) ≡ true
    pub ascending : is_ascending 0 (E.redis.view w.redis changelog).scored ≡ true
    pub decoded : AllDecoded (E.redis.view w.redis changelog).scored

  module _ (user : String) (limit : ℤ) (w : World E.redis.State) where
    abbrev pub log_of : List (String × ℕ)
    log_of = (E.redis.view w.redis changelog).scored

    -- The entries of the page after a cursor.
    abbrev pub page_after : ℕ → List (String × ℕ)
    page_after cursor =
        take (safe_limit limit E.settings.get_updates_v2_max_limit) (entries_after cursor log_of)

    abbrev pub events_of : ℕ → List Event
    events_of cursor = sort_events (
        relevant_events (E.redis.view w.redis (subscriber user)).members
          (scan (page_after cursor) (cursor, [])).1)

    abbrev pub cursor_after : ℕ → ℕ
    cursor_after cursor = (scan (page_after cursor) (cursor, [])).0

    -- The rows of the upserted blocks, then the deleted blocks, with the place to go on from.
    unfoldable pub answer_at : ℕ → BlockUpdatesV2Response
    answer_at cursor =
        page_response
          (map (λ b. row_of E b (fields_of E w b)) (ids_of true (events_of cursor))
            ++ map deleted_block (ids_of false (events_of cursor)))
          (cursor_after cursor) (not (is_empty (entries_after (cursor_after cursor) log_of)))
          (number_or_zero (E.redis.view w.redis (subscription_version user)).number)

    answer_events_lem :
        (version : ℤ) (next : ℕ) (events : List Event)
        → IsCalm w
        → ((b : String) → is_readable E (fields_of E w b) ≡ true)
        → answer_events E next version events w ≡ (
          ok (
              page_response
                (map (λ b. row_of E b (fields_of E w b)) (ids_of true events)
                  ++ map deleted_block (ids_of false events))
                next
                (not (is_empty (entries_after next log_of)))
                version),
          w,
        )
    unfolding answer_events ◌>>=◌
    answer_events_lem version next events calm h =
        rw (upsert_rows_lem E w (ids_of true events) calm h) (read_calm E.redis changelog _ w calm)

    answer_page_lem :
        (version : ℤ) (page : List (String × ℕ)) (cursor : ℕ)
        → IsCalm w
        → ((b : String) → is_readable E (fields_of E w b) ≡ true)
        → is_empty (scan page (cursor, [])).1 ≡ false
        → answer_page E user version (scan page (cursor, [])) w
          ≡ answer_events E
              (scan page (cursor, [])).0
              version
              (sort_events (
                relevant_events
                  (E.redis.view w.redis (subscriber user)).members
                  (scan page (cursor, [])).1))
              w
    unfolding answer_page
    answer_page_lem version page cursor calm h e =
        rw e (read_calm E.redis (subscriber user) _ w calm)

    -- The four reads that come first.
    get_updates_v2_reads :
        (cursor version : ℕ)
        → IsSynced user version w
        → is_stale cursor log_of ≡ false
        → get_updates_v2 E user cursor version limit w
          ≡ answer_page E user
              (number_or_zero (E.redis.view w.redis (subscription_version user)).number)
              (scan (page_after cursor) (cursor, []))
              w
    unfolding get_updates_v2
    get_updates_v2_reads cursor version s fresh =
        read_calm E.redis (subscription_version user) _ w s.calm
        ∙ rw s.same (
            read_calm E.redis (subscriber user) _ w s.calm
            ∙ rw s.subscribed (
                read_calm E.redis changelog _ w s.calm
                ∙ rw fresh (read_calm E.redis changelog _ w s.calm)))

    page_after-none :
        (cursor : ℕ) (entries : List (String × ℕ))
        → is_empty (take (safe_limit limit E.settings.get_updates_v2_max_limit) entries) ≡ true
        → entries ≡ []
    page_after-none cursor [] h = refl
    page_after-none cursor (e ∷ entries) h =
        let (k, positive) = safe_limit_positive limit E.settings.get_updates_v2_max_limit in
        let never : ◌≡◌ {A = Bool} false true = rw positive at h in cc

    -- A page without entries is answered with the same cursor, and nothing more.
    answer_at_end :
        (cursor : ℕ)
        → entries_after cursor log_of ≡ []
        → answer_page E user
            (number_or_zero (E.redis.view w.redis (subscription_version user)).number)
            (scan (page_after cursor) (cursor, []))
            w
          ≡ (ok (answer_at cursor), w)
    unfolding answer_page answer_at scan pure relevant_events sort_events ids_of
    answer_at_end cursor e =
        let none_left : page_after cursor ≡ [] =
          ap (take (safe_limit limit E.settings.get_updates_v2_max_limit)) e
          ∙ take-nil (safe_limit limit E.settings.get_updates_v2_max_limit) in
        let same_cursor : cursor_after cursor ≡ cursor =
          ap (λ page. (scan page (cursor, [])).0) none_left in
        rw none_left (rw same_cursor (rw e refl))

    pub AllDecoded-take :
        (n : ℕ) (entries : List (String × ℕ)) → AllDecoded entries → AllDecoded (take n entries)
    AllDecoded-take zero entries d = tt
    AllDecoded-take (suc n) [] d = tt
    AllDecoded-take (suc n) (e ∷ entries) d = (d.0, AllDecoded-take n entries d.1)

    -- If the client is in step with the server, no request fails, no time is infinite, the changelog
    -- is one that the consumer writes, and its first entry is not too late for the cursor, then
    -- get_updates_v2 answers with the rows of the blocks whose last event in the page is an upsert,
    -- then with the deletions, with the cursor after the page, and with whether entries are left; and
    -- it changes nothing.
    pub get_updates_v2-answer_at :
        (cursor version : ℕ)
        → IsSynced user version w
        → is_stale cursor log_of ≡ false
        → get_updates_v2 E user cursor version limit w ≡ (ok (answer_at cursor), w)
    unfolding answer_at
    get_updates_v2-answer_at cursor version s fresh =
        let number = number_or_zero (E.redis.view w.redis (subscription_version user)).number in
        let decoded =
          AllDecoded-take (safe_limit limit E.settings.get_updates_v2_max_limit)
            (entries_after cursor log_of) (AllDecoded-entries_after cursor log_of s.decoded) in
        get_updates_v2_reads cursor version s fresh
        ∙ elim (Bool-cases (is_empty (page_after cursor))) [
          | inl none_left ↦
              answer_at_end cursor (page_after-none cursor (entries_after cursor log_of) none_left)
          | inr some_left ↦
              answer_page_lem number (page_after cursor) cursor s.calm s.readable
                (scan-is_empty (page_after cursor) cursor decoded ∙ some_left)
              ∙ answer_events_lem number (cursor_after cursor) (events_of cursor) s.calm s.readable
        ]

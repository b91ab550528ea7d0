-- ===== src/Sync/Description.antt =====
-- The answer of get_updates_v2 of app/websockets.py, described by the entries of the changelog, the
-- user's blocks and their rows.
use omnimap_sync.Prelude.{
  ℕ, ℤ, pos, String, true, false, not, ◌&&◌, List, [], ◌∷◌, ◌++◌, map, drop, is_empty, contains,
  ◌≡◌, refl, ◌∙◌, ap, arith,
}
use omnimap_sync.Models.{BlockUpdatesV2Response}
use omnimap_sync.Redis.{subscriber, subscription_version, number_or_zero}
use omnimap_sync.World.{World, ok}
use omnimap_sync.Env.{Env}
use omnimap_sync.Utils.RoundTrip.{has_distinct}
use omnimap_sync.Consumer.Access.{deleted_block}
use omnimap_sync.Consumer.Changelog.{decode_changelog_member}
use omnimap_sync.Sync.Page.{safe_limit, entries_after, is_stale, scan, scan_entry, ids_of}
use omnimap_sync.Sync.Progress.{
  AllDecoded, is_ascending, scan_entry_decoded, AllDecoded-entries_after,
  is_ascending-entries_after,
}
use omnimap_sync.Sync.Latest.{last_event}
use omnimap_sync.Sync.Answers.{is_of_kind}
use omnimap_sync.Sync.Distinct.{has_distinct-ids_of}
use omnimap_sync.Sync.V2.{get_updates_v2}
use omnimap_sync.Sync.Rows.{row_of, fields_of}
use omnimap_sync.Sync.Reference.{
  IsSynced, log_of, page_after, events_of, answer_at, get_updates_v2-answer_at, AllDecoded-take,
}
use omnimap_sync.Sync.Pull.Lists.{is_ascending-take}
use omnimap_sync.Sync.Pull.Pages.{rest_after-next_of}
use omnimap_sync.Sync.Pull.Told.{contains-events_of}

-- The score of the last entry.
abbrev pub last_score : ℕ → List (String × ℕ) → ℕ
last_score cursor [] = cursor
last_score cursor ((member, score) ∷ entries) = last_score score entries

scan-last_score :
    (c : ℕ) (entries : List (String × ℕ)) (latest : _)
    → is_ascending c entries ≡ true
    → AllDecoded entries
    → (scan entries (c, latest)).0 ≡ last_score c entries
unfolding scan
scan-last_score c [] latest h d = refl
scan-last_score c ((member, score) ∷ entries) latest h d =
    let next = scan_entry (decode_changelog_member member) score (c, latest) in
    let at : next.0 ≡ score =
      scan_entry_decoded (decode_changelog_member member) score c latest d.0 (ground arith) in
    scan-last_score next.0 entries next.1 (rw at (ground arith)) d.1
    ∙ ap (λ s. last_score s entries) at

module _ (E : Env) (user : String) (limit : ℤ) (w : World E.redis.State) where
  -- What the answer to a client at a cursor says.
  pub record Describes (cursor : ℕ) (r : BlockUpdatesV2Response) : Type 0 where
    pub upserts : List String
    pub deletions : List String
    pub updates :
        r.updates ≡ map (λ b. row_of E b (fields_of E w b)) upserts ++ map deleted_block deletions
    pub upserted :
        (b : String)
        → contains upserts b ≡ (
            contains (E.redis.view w.redis (subscriber user)).members b
            && is_of_kind true (last_event (page_after E user limit w cursor) b))
    pub deleted :
        (b : String)
        → contains deletions b ≡ (
            contains (E.redis.view w.redis (subscriber user)).members b
            && is_of_kind false (last_event (page_after E user limit w cursor) b))
    pub distinct : (has_distinct upserts && has_distinct deletions) ≡ true
    pub next_cursor : r.next_cursor ≡ pos (last_score cursor (page_after E user limit w cursor))
    pub has_more :
        r.has_more
        ≡ not (
            is_empty (
              drop
                (safe_limit limit E.settings.get_updates_v2_max_limit)
                (entries_after cursor (log_of E user limit w))))
    pub version :
        r.subscription_version
        ≡ number_or_zero (E.redis.view w.redis (subscription_version user)).number
    pub complete : r.full_resync_required ≡ false

  answer_at-Describes :
      (cursor version : ℕ)
      → IsSynced E user version w
      → Describes cursor (answer_at E user limit w cursor)
  unfolding answer_at
  answer_at-Describes cursor version s =
      let members = (E.redis.view w.redis (subscriber user)).members in
      let page = page_after E user limit w cursor in
      let n = safe_limit limit E.settings.get_updates_v2_max_limit in
      record {
        upserts = ids_of true (events_of E user limit w cursor);
        deletions = ids_of false (events_of E user limit w cursor);
        updates = refl;
        upserted = contains-events_of E user version limit w s true cursor;
        deleted = contains-events_of E user version limit w s false cursor;
        distinct =
            rw
              (
                has_distinct-ids_of true members page cursor,
                has_distinct-ids_of false members page cursor,
              )
              refl;
        next_cursor = ap pos (
            scan-last_score cursor page []
              (is_ascending-take n cursor (entries_after cursor (log_of E user limit w))
                (is_ascending-entries_after 0 cursor (log_of E user limit w) s.ascending))
              (AllDecoded-take E user limit w n (entries_after cursor (log_of E user limit w))
                (AllDecoded-entries_after cursor (log_of E user limit w) s.decoded)));
        has_more =
            ap (λ entries. not (is_empty entries))
              (rest_after-next_of E user version limit w s cursor);
        version = refl;
        complete = refl;
      }

  -- If the client is in step with the server, no request fails, no time is infinite, the changelog is
  -- one that the consumer writes, and its first entry is not too late for the cursor, then
  -- get_updates_v2 changes nothing, and answers with the rows of the blocks that the user subscribes
  -- to and whose last event in the page is an upsert, then with the deletions of those whose last
  -- event is one, each block once, with the score of the page's last entry as the cursor, and with
  -- whether entries are left after the page.
  pub get_updates_v2-Describes :
      (cursor version : ℕ)
      → IsSynced E user version w
      → is_stale cursor (log_of E user limit w) ≡ false
      → (r : BlockUpdatesV2Response) × (get_updates_v2 E user cursor version limit w ≡ (ok r, w))
        × Describes cursor r
  get_updates_v2-Describes cursor version s fresh = (
    answer_at E user limit w cursor,
    get_updates_v2-answer_at E user limit w cursor version s fresh,
    answer_at-Describes cursor version s,
  )

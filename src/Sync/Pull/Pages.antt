-- ===== src/Sync/Pull/Pages.antt =====
-- The answers that a client of app/websockets.py gets by asking again, and that they end.
use omnimap_sync.Prelude.{
  ℕ, zero, suc, ◌<◌, ◌≤◌, ℤ, String, true, false, not, List, [], ◌∷◌, drop, length, length-drop,
  ◌-◌, is_empty, Dict, ◌≡◌, inl, inr, refl, ap, ◌∙◌, arith, Bool-cases, if◌then◌else◌,
}
use omnimap_sync.Value.{Value}
use omnimap_sync.Models.{BlockUpdatesV2Response}
use omnimap_sync.World.{World, ok, ◌>>=◌, pure}
use omnimap_sync.Env.{Env}
use omnimap_sync.Sync.Page.{safe_limit, entries_after, is_stale}
use omnimap_sync.Sync.Progress.{entries_after-scan, le_scan}
use omnimap_sync.Sync.Scans.{safe_limit_positive}
use omnimap_sync.Sync.Reference.{
  IsSynced, log_of, page_after, cursor_after, answer_at, get_updates_v2-answer_at,
}
use omnimap_sync.Sync.Pull.{pull, is_complete, Occurs, Tells}
use omnimap_sync.Sync.Pull.Lists.{not_empty, is_stale_above, cons_complete}

module _ (E : Env) (user : String) (version : ℕ) (limit : ℤ) (w : World E.redis.State)
    (s : IsSynced E user version w) where
  abbrev pub rest_after : ℕ → List (String × ℕ)
  rest_after cursor = entries_after cursor (log_of E user limit w)

  abbrev pub next_of : ℕ → ℕ
  next_of = cursor_after E user limit w

  -- What the next page starts from is what this one leaves.
  pub rest_after-next_of :
      (cursor : ℕ)
      → rest_after (next_of cursor)
        ≡ drop (safe_limit limit E.settings.get_updates_v2_max_limit) (rest_after cursor)
  rest_after-next_of cursor =
      entries_after-scan 0 (safe_limit limit E.settings.get_updates_v2_max_limit) cursor
        (log_of E user limit w) s.ascending s.decoded

  pub is_stale-next_of :
      (cursor : ℕ)
      → is_stale cursor (log_of E user limit w) ≡ false
      → is_stale (next_of cursor) (log_of E user limit w) ≡ false
  is_stale-next_of cursor fresh =
      is_stale_above cursor (next_of cursor) (log_of E user limit w)
        (le_scan (page_after E user limit w cursor) cursor []) fresh

  pub fewer_left :
      (cursor fuel : ℕ)
      → is_empty (rest_after (next_of cursor)) ≡ false
      → length (rest_after cursor) < suc fuel
      → length (rest_after (next_of cursor)) < fuel
  fewer_left cursor fuel more h =
      let (k, positive) = safe_limit_positive limit E.settings.get_updates_v2_max_limit in
      let n = safe_limit limit E.settings.get_updates_v2_max_limit in
      let left : length (rest_after (next_of cursor)) ≡ length (rest_after cursor) - n =
        ap length (rest_after-next_of cursor) ∙ length-drop n (rest_after cursor) in
      omega (arith, not_empty (rest_after (next_of cursor)) more)

  -- The answers, while there is fuel.
  pub pages_from : ℕ → ℕ → List BlockUpdatesV2Response
  pages_from zero cursor = []
  pages_from (suc fuel) cursor =
      let rest = pages_from fuel (next_of cursor) in
      answer_at E user limit w cursor
      ∷ (if not (is_empty (rest_after (next_of cursor))) then rest else [])

  pub pull-pages_from :
      (fuel cursor : ℕ)
      → is_stale cursor (log_of E user limit w) ≡ false
      → pull E fuel user cursor version limit w ≡ (ok (pages_from fuel cursor), w)
  unfolding pull pages_from pure ◌>>=◌ answer_at
  pull-pages_from zero cursor fresh = refl
  pull-pages_from (suc fuel) cursor fresh =
      rw (get_updates_v2-answer_at E user limit w cursor version s fresh)
        elim (Bool-cases (is_empty (rest_after (next_of cursor)))) [
          | inl done ↦ rw done refl
          | inr more ↦
              rw (more, pull-pages_from fuel (next_of cursor) (is_stale-next_of cursor fresh)) refl
        ]

  pub has_more-answer_at :
      (cursor : ℕ)
      → (answer_at E user limit w cursor).has_more ≡ not (is_empty (rest_after (next_of cursor)))
  unfolding answer_at
  has_more-answer_at cursor = refl

  pub pages_from_last :
      (fuel cursor : ℕ)
      → is_empty (rest_after (next_of cursor)) ≡ true
      → pages_from (suc fuel) cursor ≡ answer_at E user limit w cursor ∷ []
  unfolding pages_from
  pages_from_last fuel cursor done = rw done refl

  pub pages_from_more :
      (fuel cursor : ℕ)
      → is_empty (rest_after (next_of cursor)) ≡ false
      → pages_from (suc fuel) cursor
        ≡ answer_at E user limit w cursor ∷ pages_from fuel (next_of cursor)
  unfolding pages_from
  pages_from_more fuel cursor more = rw more refl

  pub pages_from-is_complete :
      (fuel cursor : ℕ)
      → length (rest_after cursor) < fuel
      → (is_complete (pages_from fuel cursor) ≡ true)
        × (length (pages_from fuel cursor) ≤ suc (length (rest_after cursor)))
  pages_from-is_complete zero cursor h = absurd (omega arith)
  pages_from-is_complete (suc fuel) cursor h =
      elim (Bool-cases (is_empty (rest_after (next_of cursor)))) [
        | inl done ↦
            rw (pages_from_last fuel cursor done)
              (rw (has_more-answer_at cursor, done) refl, omega arith)
        | inr more ↦
            let ih = pages_from-is_complete fuel (next_of cursor) (fewer_left cursor fuel more h) in
            let fewer = fewer_left cursor (length (rest_after cursor)) more (omega arith) in
            rw (pages_from_more fuel cursor more) (
              cons_complete (answer_at E user limit w cursor) (pages_from fuel (next_of cursor))
                  (rw (has_more-answer_at cursor, more) refl) ih.0,
              omega (arith, ih.1, fewer),
            )
      ]

  -- The first answer is to the cursor.
  pub head-Tells :
      (row : Dict Value) (fuel cursor : ℕ)
      → Occurs row (answer_at E user limit w cursor).updates
      → Tells row (pages_from (suc fuel) cursor)
  unfolding pages_from
  head-Tells row fuel cursor h = inl h

-- If the client is in step with the server, no request fails, no time is infinite, the changelog is
-- one that the consumer writes, and its first entry is not too late for the cursor, then a client
-- that asks again while there is more ends: after one request more than there are entries after the
-- cursor at most, its last answer says that there is no more, and the ones before that there is.
pub pull-is_complete :
    (E : Env) (user : String) (version : ℕ) (limit : ℤ) (w : World E.redis.State) (fuel cursor : ℕ)
    → IsSynced E user version w
    → is_stale cursor (log_of E user limit w) ≡ false
    → length (entries_after cursor (log_of E user limit w)) < fuel
    → (pages : List BlockUpdatesV2Response) × (pull E fuel user cursor version limit w
        ≡ (ok pages, w))
      × (is_complete pages ≡ true)
      × (length pages ≤ suc (length (entries_after cursor (log_of E user limit w))))
pull-is_complete E user version limit w fuel cursor s fresh enough =
    let complete = pages_from-is_complete E user version limit w s fuel cursor enough in
    (
      pages_from E user version limit w s fuel cursor,
      pull-pages_from E user version limit w s fuel cursor fresh,
      complete.0,
      complete.1,
    )

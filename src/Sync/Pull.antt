-- ===== src/Sync/Pull.antt =====
-- A client that asks get_updates_v2 of app/websockets.py again, with the cursor of the last answer,
-- for as long as the answer says that there is more.
pub mod Lists
pub mod Pages
pub mod Told
use omnimap_sync.Prelude.{
  ℕ, zero, suc, ◌<◌, ◌≤◌, ℤ, pos, negsuc, String, Bool, true, false, not, ◌&&◌, Option, none, some,
  List, [], ◌∷◌, ◌++◌, map, take, drop, take-append-drop, length, length-drop, ◌-◌, is_empty,
  contains, Dict, ◌≡◌, ◌⊎◌, inl, inr, refl, sym, ap, ◌∙◌, arith, eq_iff, ◌==◌, Bool-cases,
  if◌then◌else◌, ltb,
}
use omnimap_sync.Value.{Value}
use omnimap_sync.Models.{BlockUpdatesV2Response}
use omnimap_sync.Redis.{subscriber}
use omnimap_sync.World.{World, ok, Exec, ◌>>=◌, pure}
use omnimap_sync.Env.{Env}
use omnimap_sync.Consumer.Access.{deleted_block}
use omnimap_sync.Consumer.Changelog.{Op, upsert, delete, decode_changelog_member}
use omnimap_sync.Sync.Page.{safe_limit, entries_after, is_stale, scan, is_upsert, ids_of, Event}
use omnimap_sync.Sync.Progress.{
  is_ascending, entries_after-scan, le_scan, is_ascending-entries_after,
}
use omnimap_sync.Sync.Latest.{last_event, or_else, own_event, or_else_assoc, or_none}
use omnimap_sync.Sync.Answers.{is_of_kind, contains-ids_of}
use omnimap_sync.Sync.V2.{get_updates_v2}
use omnimap_sync.Sync.Rows.{row_of, fields_of}
use omnimap_sync.Sync.Scans.{safe_limit_positive}
use omnimap_sync.Sync.Reference.{
  IsSynced, log_of, page_after, events_of, cursor_after, answer_at, get_updates_v2-answer_at,
}

abbrev pub cursor_of : ℤ → ℕ
cursor_of (pos n) = n
cursor_of (negsuc n) = 0

module _ (E : Env) where
  -- At most `fuel` requests; the answers, the first one first.
  pub pull : ℕ → String → ℕ → ℕ → ℤ → Exec E.redis.State (List BlockUpdatesV2Response)
  pull zero user cursor version limit = pure []
  pull (suc fuel) user cursor version limit = do
    page ← get_updates_v2 E user cursor version limit
    pages ← elim page.has_more [
      | true ↦ pull fuel user (cursor_of page.next_cursor) version limit
      | false ↦ pure []
    ]
    pure (page ∷ pages)

-- There are pages, each but the last says that there is more, and the last that there is not.
abbrev pub is_complete : List BlockUpdatesV2Response → Bool
is_complete [] = false
is_complete (page ∷ []) = not page.has_more
is_complete (page ∷ pages) = page.has_more && is_complete pages

abbrev pub Occurs : {A : Type 0} → A → List A → Type 0
Occurs x [] = ⊥
Occurs x (y ∷ ys) = (y ≡ x) ⊎ Occurs x ys

-- The row is among the updates of a page.
abbrev pub Tells : Dict Value → List BlockUpdatesV2Response → Type 0
Tells row [] = ⊥
Tells row (page ∷ pages) = Occurs row page.updates ⊎ Tells row pages

module _ (E : Env) (w : World E.redis.State) where
  -- What a client is to be told of a block after its last event.
  abbrev pub told_row : String → Op → Dict Value
  told_row id upsert = row_of E id (fields_of E w id)
  told_row id delete = deleted_block id

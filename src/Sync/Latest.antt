-- ===== src/Sync/Latest.antt =====
-- What a page of the changelog tells of each block, in handle_get_updates_v2 of app/websockets.py.
use omnimap_sync.Prelude.{
  ℕ, String, Bool, true, ◌==◌, Option, none, some, List, [], ◌∷◌, Dict, ltb, leb, ◌≡◌, refl, ◌∙◌,
  ap, arith, if◌then◌else◌,
}
use omnimap_sync.Prelude.Assoc
use omnimap_sync.Consumer.Changelog.{Op, decode_changelog_member}
use omnimap_sync.Sync.Page.{scan, scan_entry, is_newer}
use omnimap_sync.Sync.Progress.{is_ascending}

-- What an entry says of a block.
abbrev pub own_event : Option (Op × String) → ℕ → String → Option (ℕ × Op)
own_event none score block_id = none
own_event (some (op, id)) score block_id = if id == block_id then some (score, op) else none

abbrev pub or_else : {A : Type 0} → Option A → Option A → Option A
or_else none b = b
or_else (some a) b = some a

-- The last event of a block in a list of entries.
abbrev pub last_event : List (String × ℕ) → String → Option (ℕ × Op)
last_event [] block_id = none
last_event ((member, score) ∷ entries) block_id =
    or_else (last_event entries block_id)
      (own_event (decode_changelog_member member) score block_id)

pub or_else_assoc :
    {A : Type 0} (a b c : Option A) → or_else a (or_else b c) ≡ or_else (or_else a b) c
or_else_assoc none b c = refl
or_else_assoc (some a) b c = refl

-- No event that is kept is later than `low`.
abbrev is_within : ℕ → Option (ℕ × Op) → Bool
is_within low none = true
is_within low (some (seq, op)) = leb seq low

abbrev IsWithin : ℕ → Dict (ℕ × Op) → Type 0
IsWithin low latest = (id : String) → is_within low (Assoc.get latest id) ≡ true

is_newer_above :
    (low score : ℕ) (o : Option (ℕ × Op))
    → ltb low score ≡ true
    → is_within low o ≡ true
    → is_newer o score ≡ true
is_newer_above low score none h w = refl
is_newer_above low score (some e) h w = ground arith

module _ (low score : ℕ) (m : ℕ) (latest : Dict (ℕ × Op)) where
  get-scan_entry :
      (o : Option (Op × String)) (id : String)
      → ltb low score ≡ true
      → IsWithin low latest
      → Assoc.get (scan_entry o score (m, latest)).1 id
        ≡ or_else (own_event o score id) (Assoc.get latest id)
  get-scan_entry none id h w = refl
  get-scan_entry (some (op, b)) id h w =
      rw
        (
          is_newer_above low score (Assoc.get latest b) h (w b),
          Assoc.get-put latest b (score, op) id,
        )
        (ground arith)

  within_above :
      (o : Option (ℕ × Op))
      → ltb low score ≡ true
      → is_within low o ≡ true
      → is_within score o ≡ true
  within_above none h w = refl
  within_above (some e) h w = ground arith

  within_own :
      (o : Option (Op × String)) (id : String) (p : Option (ℕ × Op))
      → is_within score p ≡ true
      → is_within score (or_else (own_event o score id) p) ≡ true
  within_own none id p h = h
  within_own (some (op, b)) id p h = ground arith

  scan_entry-IsWithin :
      (o : Option (Op × String))
      → ltb low score ≡ true
      → IsWithin low latest
      → IsWithin score (scan_entry o score (m, latest)).1
  scan_entry-IsWithin o h w id =
      rw (get-scan_entry o id h w)
        (within_own o id (Assoc.get latest id) (within_above (Assoc.get latest id) h (w id)))

pub or_none : {A : Type 0} (o : Option A) → or_else o none ≡ o
or_none none = refl
or_none (some a) = refl

get-scan_from :
    (low m : ℕ) (entries : List (String × ℕ)) (latest : Dict (ℕ × Op)) (id : String)
    → is_ascending low entries ≡ true
    → IsWithin low latest
    → Assoc.get (scan entries (m, latest)).1 id
      ≡ or_else (last_event entries id) (Assoc.get latest id)
unfolding scan
get-scan_from low m [] latest id h w = refl
get-scan_from low m ((member, score) ∷ entries) latest id h w =
    let o = decode_changelog_member member in
    let next = scan_entry o score (m, latest) in
    get-scan_from score next.0 entries next.1 id (ground arith)
      (scan_entry-IsWithin low score m latest o (ground arith) w)
    ∙ ap (or_else (last_event entries id)) (get-scan_entry low score m latest o id (ground arith) w)
    ∙ or_else_assoc (last_event entries id) (own_event o score id) (Assoc.get latest id)

-- If the scores of a page increase, then for each block the scan of the page keeps the block's
-- last event.
pub get-scan :
    (low cursor : ℕ) (page : List (String × ℕ)) (id : String)
    → is_ascending low page ≡ true
    → Assoc.get (scan page (cursor, [])).1 id ≡ last_event page id
get-scan low cursor page id h =
    get-scan_from low cursor page [] id h (λ b. refl) ∙ or_none (last_event page id)

-- ===== src/Sync/Progress.antt =====
-- How pages of the changelog follow each other, in app/websockets.py.
use omnimap_sync.Prelude.{
  ℕ, zero, suc, ◌≤◌, String, Bool, true, false, ◌&&◌, Option, none, some, List, [], ◌∷◌, Dict, All,
  take, drop, ltb, ◌≡◌, refl, sym, ◌∙◌, arith, Bool-cases, inl, inr,
}
use omnimap_sync.Consumer.Changelog.{Op, decode_changelog_member}
use omnimap_sync.Sync.Page.{entries_after, scan, scan_entry}

-- The scores of a changelog increase, from above `low` on.
abbrev pub is_ascending : ℕ → List (String × ℕ) → Bool
is_ascending low [] = true
is_ascending low ((member, score) ∷ entries) = ltb low score && is_ascending score entries

abbrev pub is_decoded : Option (Op × String) → Bool
is_decoded none = false
is_decoded (some e) = true

abbrev pub AllDecoded : List (String × ℕ) → Type 0
AllDecoded = All (λ e. is_decoded (decode_changelog_member e.0) ≡ true)

le_scan_entry :
    (o : Option (Op × String)) (score m : ℕ) (latest : Dict (ℕ × Op))
    → m ≤ (scan_entry o score (m, latest)).0
le_scan_entry none score m latest = omega arith
le_scan_entry (some e) score m latest = omega arith

pub scan_entry_decoded :
    (o : Option (Op × String)) (score m : ℕ) (latest : Dict (ℕ × Op))
    → is_decoded o ≡ true
    → ltb m score ≡ true
    → (scan_entry o score (m, latest)).0 ≡ score
scan_entry_decoded none score m latest h l = cc
scan_entry_decoded (some e) score m latest h l = ground arith

-- The cursor of a page is not below the one that the page was read from.
pub le_scan :
    (entries : List (String × ℕ)) (m : ℕ) (latest : Dict (ℕ × Op))
    → m ≤ (scan entries (m, latest)).0
unfolding scan
le_scan [] m latest = omega arith
le_scan ((member, score) ∷ entries) m latest =
    let next = scan_entry (decode_changelog_member member) score (m, latest) in
    omega (
      arith,
      le_scan_entry (decode_changelog_member member) score m latest,
      le_scan entries next.0 next.1,
    )

pub is_ascending_below :
    (low high : ℕ) (entries : List (String × ℕ))
    → low ≤ high
    → is_ascending high entries ≡ true
    → is_ascending low entries ≡ true
is_ascending_below low high [] l h = refl
is_ascending_below low high ((member, score) ∷ entries) l h = ground arith

entries_after_ascending :
    (low : ℕ) (entries : List (String × ℕ))
    → is_ascending low entries ≡ true
    → entries_after low entries ≡ entries
unfolding entries_after
entries_after_ascending low [] h = refl
entries_after_ascending low ((member, score) ∷ entries) h = ground (
  arith,
  entries_after_ascending low entries,
  is_ascending_below low score entries (ground arith) (ground arith),
)

entries_after-entries_after :
    (c m : ℕ) (entries : List (String × ℕ))
    → c ≤ m
    → entries_after m (entries_after c entries) ≡ entries_after m entries
unfolding entries_after
entries_after-entries_after c m [] h = refl
entries_after-entries_after c m ((member, score) ∷ entries) h =
    ground (arith, entries_after-entries_after c m entries h)

pub is_ascending-entries_after :
    (low c : ℕ) (entries : List (String × ℕ))
    → is_ascending low entries ≡ true
    → is_ascending c (entries_after c entries) ≡ true
unfolding entries_after
is_ascending-entries_after low c [] h = refl
is_ascending-entries_after low c ((member, score) ∷ entries) h = elim (Bool-cases (ltb c score)) [
  | inl above ↦
      rw
        (
          above,
          entries_after_ascending c entries
              (is_ascending_below c score entries (ground arith) (ground arith)),
        )
        (ground arith)
  | inr below ↦ rw below (is_ascending-entries_after score c entries (ground arith))
]

entries_after_skip :
    (m score : ℕ) (member : String) (entries : List (String × ℕ))
    → score ≤ m
    → entries_after m ((member, score) ∷ entries) ≡ entries_after m entries
unfolding entries_after
entries_after_skip m score member entries h = ground arith

-- After a page of `n` entries, what is left is what stands after the page.
entries_after-scan_from :
    (n c : ℕ) (entries : List (String × ℕ)) (latest : Dict (ℕ × Op))
    → is_ascending c entries ≡ true
    → AllDecoded entries
    → entries_after (scan (take n entries) (c, latest)).0 entries ≡ drop n entries
unfolding scan
entries_after-scan_from zero c entries latest h d = entries_after_ascending c entries h
entries_after-scan_from (suc n) c [] latest h d = unfold entries_after in refl
entries_after-scan_from (suc n) c ((member, score) ∷ entries) latest h d =
    let next = scan_entry (decode_changelog_member member) score (c, latest) in
    let at : next.0 ≡ score =
      scan_entry_decoded (decode_changelog_member member) score c latest d.0 (ground arith) in
    entries_after_skip (scan (take n entries) next).0 score member entries
      (omega (arith, at, le_scan (take n entries) next.0 next.1))
    ∙ entries_after-scan_from n next.0 entries next.1 (rw at (ground arith)) d.1

pub AllDecoded-entries_after :
    (c : ℕ) (entries : List (String × ℕ))
    → AllDecoded entries
    → AllDecoded (entries_after c entries)
unfolding entries_after
AllDecoded-entries_after c [] d = tt
AllDecoded-entries_after c ((member, score) ∷ entries) d = elim (Bool-cases (ltb c score)) [
  | inl above ↦ rw above (d.0, AllDecoded-entries_after c entries d.1)
  | inr below ↦ rw below (AllDecoded-entries_after c entries d.1)
]

-- If the scores of the changelog increase and all its members can be decoded, then the entries
-- after the cursor that a page of `n` entries returns are exactly those that were not in the page:
-- a client that asks with it misses no entry and gets none twice.
pub entries_after-scan :
    (low n cursor : ℕ) (log : List (String × ℕ))
    → is_ascending low log ≡ true
    → AllDecoded log
    → entries_after (scan (take n (entries_after cursor log)) (cursor, [])).0 log
      ≡ drop n (entries_after cursor log)
entries_after-scan low n cursor log h d =
    let page = take n (entries_after cursor log) in
    sym (entries_after-entries_after cursor (scan page (cursor, [])).0 log (le_scan page cursor []))
    ∙ entries_after-scan_from n cursor (entries_after cursor log) []
        (is_ascending-entries_after low cursor log h) (AllDecoded-entries_after cursor log d)

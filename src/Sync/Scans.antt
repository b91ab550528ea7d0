-- ===== src/Sync/Scans.antt =====
-- Which pages of the changelog tell of a block at all, in app/websockets.py.
use omnimap_sync.Prelude.{
  ℕ, zero, suc, ℤ, pos, negsuc, String, true, false, Option, none, some, List, [], ◌∷◌, take,
  is_empty, Dict, ◌≡◌, refl, arith, ◌-◌, min, max,
}
use omnimap_sync.Prelude.Assoc
use omnimap_sync.Consumer.Changelog.{Op, decode_changelog_member}
use omnimap_sync.Sync.Page.{safe_limit, scan, scan_entry}
use omnimap_sync.Sync.Progress.{is_decoded, AllDecoded}

pub put-not_empty :
    {A : Type 0} (d : Dict A) (k : String) (v : A) → is_empty (Assoc.put d k v) ≡ false
put-not_empty [] k v = refl
put-not_empty ((j, u) ∷ d) k v = ground arith

pub scan_entry-not_empty :
    (o : Option (Op × String)) (score m : ℕ) (latest : Dict (ℕ × Op))
    → is_decoded o ≡ true
    → is_empty latest ≡ true
    → is_empty (scan_entry o score (m, latest)).1 ≡ false
scan_entry-not_empty none score m latest h e = cc
scan_entry-not_empty (some (op, b)) score m [] h e = refl
scan_entry-not_empty (some (op, b)) score m (x ∷ latest) h e = cc

pub scan_entry-kept :
    (o : Option (Op × String)) (score m : ℕ) (latest : Dict (ℕ × Op))
    → is_empty latest ≡ false
    → is_empty (scan_entry o score (m, latest)).1 ≡ false
scan_entry-kept none score m latest h = h
scan_entry-kept (some (op, b)) score m latest h = ground (arith, put-not_empty latest b (score, op))

pub scan-kept :
    (page : List (String × ℕ)) (m : ℕ) (latest : Dict (ℕ × Op))
    → is_empty latest ≡ false
    → is_empty (scan page (m, latest)).1 ≡ false
unfolding scan
scan-kept [] m latest h = h
scan-kept ((member, score) ∷ page) m latest h =
    let next = scan_entry (decode_changelog_member member) score (m, latest) in
    scan-kept page next.0 next.1 (scan_entry-kept (decode_changelog_member member) score m latest h)

-- A page of entries that can be decoded tells of some block.
pub scan-is_empty :
    (page : List (String × ℕ)) (cursor : ℕ)
    → AllDecoded page
    → is_empty (scan page (cursor, [])).1 ≡ is_empty page
unfolding scan
scan-is_empty [] cursor d = refl
scan-is_empty ((member, score) ∷ page) cursor d =
    let next = scan_entry (decode_changelog_member member) score (cursor, []) in
    scan-kept page next.0 next.1
      (scan_entry-not_empty (decode_changelog_member member) score cursor [] d.0 refl)

pub safe_limit_positive : (limit : ℤ) (bound : ℕ) → (k : ℕ) × (safe_limit limit bound ≡ suc k)
safe_limit_positive (pos n) bound = (max 1 (min n bound) - 1, omega arith)
safe_limit_positive (negsuc n) bound = (0, refl)

pub take-nil : {A : Type 0} (n : ℕ) → take {A = A} n [] ≡ []
take-nil zero = refl
take-nil (suc n) = refl

-- ===== src/Sync/Pull/Lists.antt =====
-- Lists, for the answers of get_updates_v2 of app/websockets.py.
use omnimap_sync.Prelude.{
  ℕ, zero, suc, ◌<◌, ◌≤◌, String, true, false, some, List, [], ◌∷◌, ◌++◌, map, take, length,
  is_empty, contains, ◌≡◌, inl, inr, refl, sym, ap, ◌∙◌, arith, eq_iff, ◌==◌, Bool-cases,
}
use omnimap_sync.Models.{BlockUpdatesV2Response}
use omnimap_sync.Consumer.Changelog.{Op, decode_changelog_member}
use omnimap_sync.Sync.Page.{is_stale}
use omnimap_sync.Sync.Progress.{is_ascending}
use omnimap_sync.Sync.Latest.{last_event, or_else, own_event, or_else_assoc, or_none}
use omnimap_sync.Sync.Pull.{is_complete, Occurs}

pub Occurs-append_left : {A : Type 0} (x : A) (xs ys : List A) → Occurs x xs → Occurs x (xs ++ ys)
Occurs-append_left x [] ys h = absurd h
Occurs-append_left x (z ∷ xs) ys (inl e) = inl e
Occurs-append_left x (z ∷ xs) ys (inr h) = inr (Occurs-append_left x xs ys h)

pub Occurs-append_right : {A : Type 0} (x : A) (xs ys : List A) → Occurs x ys → Occurs x (xs ++ ys)
Occurs-append_right x [] ys h = h
Occurs-append_right x (z ∷ xs) ys h = inr (Occurs-append_right x xs ys h)

pub Occurs-map :
    {A : Type 0} (f : String → A) (ids : List String) (id : String)
    → contains ids id ≡ true
    → Occurs (f id) (map f ids)
Occurs-map f [] id h = absurd (ground arith)
Occurs-map f (i ∷ ids) id h = elim (Bool-cases (i == id)) [
  | inl same ↦ inl (ap f ((eq_iff i id).0 same))
  | inr other ↦ inr (Occurs-map f ids id (ground arith))
]

pub last_event-append :
    (xs ys : List (String × ℕ)) (id : String)
    → last_event (xs ++ ys) id ≡ or_else (last_event ys id) (last_event xs id)
last_event-append [] ys id = sym (or_none (last_event ys id))
last_event-append ((member, score) ∷ xs) ys id =
    ap (λ o. or_else o (own_event (decode_changelog_member member) score id))
      (last_event-append xs ys id)
    ∙ sym (
        or_else_assoc (last_event ys id) (last_event xs id)
          (own_event (decode_changelog_member member) score id))

pub not_empty : {A : Type 0} (xs : List A) → is_empty xs ≡ false → 0 < length xs
not_empty [] h = cc
not_empty (x ∷ xs) h = omega arith

pub is_ascending-take :
    (n low : ℕ) (entries : List (String × ℕ))
    → is_ascending low entries ≡ true
    → is_ascending low (take n entries) ≡ true
is_ascending-take zero low entries h = refl
is_ascending-take (suc n) low [] h = refl
is_ascending-take (suc n) low ((member, score) ∷ entries) h =
    ground (arith, is_ascending-take n score entries)

pub some_event :
    (entries : List (String × ℕ)) (id : String) (e : ℕ × Op)
    → last_event entries id ≡ some e
    → is_empty entries ≡ false
some_event [] id e h = cc
some_event (x ∷ entries) id e h = refl

pub is_stale_above :
    (cursor next : ℕ) (log : List (String × ℕ))
    → cursor ≤ next
    → is_stale cursor log ≡ false
    → is_stale next log ≡ false
is_stale_above cursor next [] h k = refl
is_stale_above cursor next ((member, score) ∷ log) h k = ground arith

pub cons_complete :
    (page : BlockUpdatesV2Response) (pages : List BlockUpdatesV2Response)
    → page.has_more ≡ true
    → is_complete pages ≡ true
    → is_complete (page ∷ pages) ≡ true
cons_complete page [] more h = cc
cons_complete page (p ∷ pages) more h = ground arith

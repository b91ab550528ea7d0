-- ===== src/Log/Entries.antt =====
-- The entries of the changelog under the commands that write it.
use omnimap_sync.Prelude.{
  ℕ, zero, suc, ◌≤◌, ◌<◌, String, true, List, [], ◌∷◌, ◌≡◌, refl, drop, arith,
}
use omnimap_sync.Redis.{zinsert, zremove}
use omnimap_sync.Sync.Progress.{is_ascending, is_ascending_below}
use omnimap_sync.Log.{is_bounded}

is_ascending-zremove :
    (m : String) (low : ℕ) (entries : List (String × ℕ))
    → is_ascending low entries ≡ true
    → is_ascending low (zremove m entries) ≡ true
is_ascending-zremove m low [] h = refl
is_ascending-zremove m low ((m', n) ∷ entries) h = ground (
  arith,
  is_ascending-zremove m n entries,
  is_ascending-zremove m low entries,
  is_ascending_below low n entries,
)

is_bounded-zremove :
    (m : String) (high : ℕ) (entries : List (String × ℕ))
    → is_bounded high entries ≡ true
    → is_bounded high (zremove m entries) ≡ true
is_bounded-zremove m high [] h = refl
is_bounded-zremove m high ((m', n) ∷ entries) h = ground (arith, is_bounded-zremove m high entries)

-- A score above all others comes last.
is_ascending-zinsert :
    (m : String) (low high score : ℕ) (entries : List (String × ℕ))
    → is_ascending low entries ≡ true
    → is_bounded high entries ≡ true
    → high < score
    → low < score
    → is_ascending low (zinsert m score entries) ≡ true
is_ascending-zinsert m low high score [] h b l k = ground arith
is_ascending-zinsert m low high score ((m', n) ∷ entries) h b l k =
    ground (arith, is_ascending-zinsert m n high score entries)

is_bounded-zinsert :
    (m : String) (high score : ℕ) (entries : List (String × ℕ))
    → is_bounded high entries ≡ true
    → high < score
    → is_bounded score (zinsert m score entries) ≡ true
is_bounded-zinsert m high score [] b l = ground arith
is_bounded-zinsert m high score ((m', n) ∷ entries) b l =
    ground (arith, is_bounded-zinsert m high score entries)

pub is_bounded_above :
    (high higher : ℕ) (entries : List (String × ℕ))
    → high ≤ higher
    → is_bounded high entries ≡ true
    → is_bounded higher entries ≡ true
is_bounded_above high higher [] l b = refl
is_bounded_above high higher ((m, n) ∷ entries) l b =
    ground (arith, is_bounded_above high higher entries)

pub is_ascending-drop :
    (k low : ℕ) (entries : List (String × ℕ))
    → is_ascending low entries ≡ true
    → is_ascending low (drop k entries) ≡ true
is_ascending-drop zero low entries h = h
is_ascending-drop (suc k) low [] h = refl
is_ascending-drop (suc k) low ((m, n) ∷ entries) h =
    ground (arith, is_ascending-drop k n entries, is_ascending_below low n (drop k entries))

pub is_bounded-drop :
    (k high : ℕ) (entries : List (String × ℕ))
    → is_bounded high entries ≡ true
    → is_bounded high (drop k entries) ≡ true
is_bounded-drop zero high entries h = h
is_bounded-drop (suc k) high [] h = refl
is_bounded-drop (suc k) high ((m, n) ∷ entries) h = ground (arith, is_bounded-drop k high entries)

-- ZADD of a member with a new highest score, which moves the member if it is there.
pub is_ascending-zadd :
    (m : String) (high score : ℕ) (entries : List (String × ℕ))
    → is_ascending 0 entries ≡ true
    → is_bounded high entries ≡ true
    → high < score
    → is_ascending 0 (zinsert m score (zremove m entries)) ≡ true
is_ascending-zadd m high score entries h b l =
    is_ascending-zinsert m 0 high score (zremove m entries) (is_ascending-zremove m 0 entries h)
      (is_bounded-zremove m high entries b) l (omega arith)

pub is_bounded-zadd :
    (m : String) (high score : ℕ) (entries : List (String × ℕ))
    → is_bounded high entries ≡ true
    → high < score
    → is_bounded score (zinsert m score (zremove m entries)) ≡ true
is_bounded-zadd m high score entries b l =
    is_bounded-zinsert m high score (zremove m entries) (is_bounded-zremove m high entries b) l

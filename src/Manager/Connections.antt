-- ===== src/Manager/Connections.antt =====
-- The books of `ConnectionManager`: its gauges and locks against the connections that it holds.
use omnimap_sync.Prelude.{
  ℕ, pos, ◌+◌, String, true, false, ◌==◌, eq_iff, none, some, List, [], ◌∷◌, ◌++◌, Dict, contains,
  insert, remove, contains-insert, contains-remove, length, length-append, is_empty, ◌≡◌, refl,
  arith, Bool-cases, inl, inr, sym, ◌≢◌,
}
use omnimap_sync.Prelude.Assoc
use omnimap_sync.World.{Socket, Manager}
use omnimap_sync.Manager.{
  has_socket, remove_socket, connections_of, get_user_lock, add_connection, drop_connection,
  cleanup_lock,
}

-- How many connections all users have together.
abbrev pub count_connections : Dict (List Socket) → ℕ
count_connections [] = 0
count_connections ((u, xs) ∷ d) = length xs + count_connections d

-- Every user with an entry has a connection and a lock, and has one entry.
abbrev pub AllListed : List String → Dict (List Socket) → Type 0
AllListed locks [] = Unit
AllListed locks ((u, xs) ∷ d) =
    (is_empty xs ≡ false)
    × (contains locks u ≡ true)
    × (contains (Assoc.keys d) u ≡ false)
    × AllListed locks d

pub record IsConsistent (m : Manager) : Type 0 where
  pub listed : AllListed m.locks m.active
  pub active : m.connections_active ≡ pos (count_connections m.active)
  pub total : m.connections_total ≡ count_connections m.active + m.disconnections_total
  pub users : m.users_active ≡ length m.active

abbrev connections_in : Dict (List Socket) → String → List Socket
connections_in d user = elim (Assoc.get d user) [ none ↦ [] | some xs ↦ xs ]

keys-put :
    (d : Dict (List Socket)) (u v : String) (xs : List Socket)
    → u ≢ v
    → contains (Assoc.keys d) v ≡ false
    → contains (Assoc.keys (Assoc.put d u xs)) v ≡ false
keys-put [] u v xs n h = ground (arith, eq_iff u v)
keys-put ((w, ys) ∷ d) u v xs n h = ground (arith, eq_iff w u, eq_iff w v, keys-put d u v xs n)

AllListed-insert :
    (locks : List String) (d : Dict (List Socket)) (u : String)
    → AllListed locks d
    → AllListed (insert u locks) d
AllListed-insert locks [] u h = tt
AllListed-insert locks ((v, xs) ∷ d) u h =
    (h.0, rw contains-insert (ground arith), h.2, AllListed-insert locks d u h.3)

AllListed-put :
    (locks : List String) (d : Dict (List Socket)) (u : String) (xs : List Socket)
    → AllListed locks d
    → contains locks u ≡ true
    → is_empty xs ≡ false
    → AllListed locks (Assoc.put d u xs)
AllListed-put locks [] u xs h l e = (e, l, refl, tt)
AllListed-put locks ((v, ys) ∷ d) u xs h l e = elim (Bool-cases (v == u)) [
  | inl s ↦ rw s (e, h.1, h.2, h.3)
  | inr n ↦ rw n (
    h.0,
    h.1,
    keys-put d u v xs (λ p. cc (n, (eq_iff v u).1 (sym p))) h.2,
    AllListed-put locks d u xs h.3 l e,
  )
]

count-put :
    (d : Dict (List Socket)) (u : String) (xs : List Socket)
    → count_connections (Assoc.put d u xs) + length (connections_in d u)
      ≡ count_connections d + length xs
count-put [] u xs = omega arith
count-put ((v, ys) ∷ d) u xs = ground (arith, count-put d u xs)

delete_absent :
    (d : Dict (List Socket)) (u : String) → contains (Assoc.keys d) u ≡ false → Assoc.delete d u ≡ d
delete_absent [] u h = refl
delete_absent ((v, ys) ∷ d) u h = ground (arith, delete_absent d u)

count-delete :
    (locks : List String) (d : Dict (List Socket)) (u : String)
    → AllListed locks d
    → count_connections (Assoc.delete d u) + length (connections_in d u) ≡ count_connections d
count-delete locks [] u h = refl
count-delete locks ((v, ys) ∷ d) u h =
    ground (arith, eq_iff v u, delete_absent d u, count-delete locks d u h.3)

keys-delete :
    (d : Dict (List Socket)) (u v : String)
    → contains (Assoc.keys d) v ≡ false
    → contains (Assoc.keys (Assoc.delete d u)) v ≡ false
keys-delete [] u v h = refl
keys-delete ((w, ys) ∷ d) u v h = ground (arith, keys-delete d u v)

AllListed-delete :
    (locks : List String) (d : Dict (List Socket)) (u : String)
    → AllListed locks d
    → AllListed locks (Assoc.delete d u)
AllListed-delete locks [] u h = tt
AllListed-delete locks ((v, ys) ∷ d) u h = elim (Bool-cases (v == u)) [
  | inl s ↦ rw s (AllListed-delete locks d u h.3)
  | inr n ↦ rw n (h.0, h.1, keys-delete d u v h.2, AllListed-delete locks d u h.3)
]

AllListed-remove :
    (locks : List String) (d : Dict (List Socket)) (u : String)
    → AllListed locks d
    → contains (Assoc.keys d) u ≡ false
    → AllListed (remove u locks) d
AllListed-remove locks [] u h n = tt
AllListed-remove locks ((v, xs) ∷ d) u h n = (
  h.0,
  rw contains-remove (ground (arith, eq_iff u v, eq_iff v u, h.1)),
  h.2,
  AllListed-remove locks d u h.3 (ground arith),
)

length-remove_socket :
    (xs : List Socket) (ws : Socket)
    → has_socket xs ws ≡ true
    → length (remove_socket xs ws) + 1 ≡ length xs
length-remove_socket [] ws h = cc
length-remove_socket (x ∷ xs) ws h = ground (arith, length-remove_socket xs ws)

length_of_is_empty : (xs : List Socket) → is_empty xs ≡ true → length xs ≡ 0
length_of_is_empty [] h = refl
length_of_is_empty (x ∷ xs) h = cc

is_empty-append : (xs : List Socket) (ws : Socket) → is_empty (xs ++ ws ∷ []) ≡ false
is_empty-append [] ws = refl
is_empty-append (x ∷ xs) ws = refl

-- Taking a lock keeps the books.
pub get_user_lock-IsConsistent :
    (u : String) (m : Manager) → IsConsistent m → IsConsistent (get_user_lock u m)
unfolding get_user_lock
get_user_lock-IsConsistent u m c = record {
  listed = AllListed-insert m.locks m.active u c.listed;
  active = c.active;
  total = c.total;
  users = c.users;
}

-- A new connection of a user who has a lock keeps the books.
pub add_connection-IsConsistent :
    (u : String) (ws : Socket) (m : Manager)
    → IsConsistent m
    → contains m.locks u ≡ true
    → IsConsistent (add_connection u ws m)
unfolding add_connection
add_connection-IsConsistent u ws m c l =
    let xs = connections_of m u in
    let n : count_connections (Assoc.put m.active u (xs ++ ws ∷ []))
        ≡ count_connections m.active + 1 =
      omega (arith, count-put m.active u (xs ++ ws ∷ []), length-append {0} xs (ws ∷ [])) in
    record {
      listed = AllListed-put m.locks m.active u (xs ++ ws ∷ []) c.listed l (is_empty-append xs ws);
      active = rw (c.active, n) (ground arith);
      total = omega (arith, c.total);
      users = refl;
    }

-- Dropping a connection that is there keeps the books.
pub drop_connection-IsConsistent :
    (u : String) (ws : Socket) (m : Manager)
    → IsConsistent m
    → has_socket (connections_of m u) ws ≡ true
    → contains m.locks u ≡ true
    → IsConsistent (drop_connection u ws m)
unfolding drop_connection
drop_connection-IsConsistent u ws m c h l =
    let rest = remove_socket (connections_of m u) ws in
    let fewer : length rest + 1 ≡ length (connections_of m u) =
      length-remove_socket (connections_of m u) ws h in
    elim (Bool-cases (is_empty rest)) [
      | inl e ↦
          let n : count_connections (Assoc.delete m.active u) + 1 ≡ count_connections m.active =
            omega
              (arith, fewer, length_of_is_empty rest e, count-delete m.locks m.active u c.listed) in
          rw e (record {
            listed = AllListed-delete m.locks m.active u c.listed;
            active = rw (c.active, ← n) (ground arith);
            total = omega (arith, c.total);
            users = refl;
          })
      | inr e ↦
          let n : count_connections (Assoc.put m.active u rest) + 1 ≡ count_connections m.active =
            omega (arith, fewer, count-put m.active u rest) in
          rw e (record {
            listed = AllListed-put m.locks m.active u rest c.listed l e;
            active = rw (c.active, ← n) (ground arith);
            total = omega (arith, c.total);
            users = refl;
          })
    ]

-- So does the removal of a lock at the end of `disconnect`.
pub cleanup_lock-IsConsistent :
    (u : String) (m : Manager) → IsConsistent m → IsConsistent (cleanup_lock u m)
unfolding cleanup_lock
cleanup_lock-IsConsistent u m c = elim (Bool-cases (contains (Assoc.keys m.active) u)) [
  | inl e ↦ rw e c
  | inr e ↦ rw e (record {
    listed = AllListed-remove m.locks m.active u c.listed e;
    active = c.active;
    total = c.total;
    users = c.users;
  })
]

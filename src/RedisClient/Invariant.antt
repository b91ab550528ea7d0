-- ===== src/RedisClient/Invariant.antt =====
-- What holds in every state that calls of app/redis_client.py can reach.
use omnimap_sync.Prelude.{
  ℕ, suc, ◌+◌, ◌<◌, Bool, true, false, Option, none, some, ◌≡◌, refl, arith, Bool-cases, inl, inr,
}
use omnimap_sync.RedisClient.{Client, Pool, Task, get_connecting, close_closing, got, Reply, resume}
use omnimap_sync.RedisClient.Tasks.{
  System, pick, Run, start, later, init, set_task, count_steps, opens, closes_well, closes_badly,
}

-- The task holds the lock.
abbrev pub holds : Task → Bool
holds get_connecting = true
holds (close_closing c) = true
holds _ = false

abbrev pub open_clients : Option Client → ℕ
open_clients none = 0
open_clients (some c) = 1

abbrev client_number : Option Client → ℕ
client_number none = 0
client_number (some c) = c

-- What a task knows of the client.
abbrev pub IsFresh : Pool → Task → Type 0
IsFresh p get_connecting = p.client ≡ none
IsFresh p (close_closing c) = p.client ≡ some c
IsFresh p (got c) = c < p.opened
IsFresh p _ = Unit

pub record Inv (n : ℕ) (s : System) : Type 0 where
  -- every client that was opened and is not the current one has been closed, or given up
  pub balance : s.pool.opened ≡ s.pool.closed + s.pool.abandoned + open_clients s.pool.client
  pub current : (c : Client) → s.pool.client ≡ some c → suc c ≡ s.pool.opened
  pub guarded : (i : ℕ) → holds (s.tasks i) ≡ true → (s.pool.locked ≡ true) × (i < n)
  pub unique : (i j : ℕ) → holds (s.tasks i) ≡ true → holds (s.tasks j) ≡ true → i ≡ j
  pub held : s.pool.locked ≡ true → (i : ℕ) × (holds (s.tasks i) ≡ true)
  pub fresh : (i : ℕ) → IsFresh s.pool (s.tasks i)

module _ {n : ℕ} {s : System} (inv : Inv n s) (i : ℕ) (lt : i < n) {task : Task} (reply : Reply)
    {p : Pool} {t : Task} (here : s.tasks i ≡ task)
    (move : resume task reply s.pool ≡ some (p, t)) where
  open inv use {balance, current, guarded, unique, held, fresh}

  move-balance : p.opened ≡ p.closed + p.abandoned + open_clients p.client
  unfolding resume
  move-balance = ground (arith, fresh i, guarded i)

  move-current : (c : Client) → p.client ≡ some c → suc c ≡ p.opened
  unfolding resume
  move-current c h = ground (arith, fresh i, current c)

  move-guarded : (j : ℕ) → holds (set_task s.tasks i t j) ≡ true → (p.locked ≡ true) × (j < n)
  unfolding resume
  move-guarded j h = ground (arith, guarded i, guarded j, unique i j)

  move_unique :
      (j k : ℕ)
      → holds (set_task s.tasks i t j) ≡ true
      → holds (set_task s.tasks i t k) ≡ true
      → j ≡ k
  unfolding resume
  move_unique j k hj hk =
      ground (arith, guarded i, guarded j, guarded k, unique j k, unique i j, unique i k)

  released_by_other : p.locked ≡ true → holds t ≡ false → s.pool.locked ≡ true
  unfolding resume
  released_by_other h e = ground (arith, guarded i)

  kept_by_other : p.locked ≡ true → holds t ≡ false → holds task ≡ false
  unfolding resume
  kept_by_other h e = ground (arith, guarded i)

  move-held : p.locked ≡ true → (j : ℕ) × (holds (set_task s.tasks i t j) ≡ true)
  move-held h = elim (Bool-cases (holds t)) [
    | inl mine ↦ (i, ground arith)
    | inr other ↦
        let (j, held_by) = held (released_by_other h other) in
        (j, ground (arith, kept_by_other h other))
  ]

  move-IsFresh : (j : ℕ) → IsFresh p (set_task s.tasks i t j)
  unfolding resume
  move-IsFresh j =
      ground
        (arith, fresh j, guarded j, guarded i, unique i j, current (client_number s.pool.client))

  move-Inv : Inv n (record { pool = p; tasks = set_task s.tasks i t })
  move-Inv = record {
    balance = move-balance;
    current = move-current;
    guarded = move-guarded;
    unique = move_unique;
    held = move-held;
    fresh = move-IsFresh;
  }

Inv-init : (n : ℕ) (closes : ℕ → Bool) → Inv n (init closes)
Inv-init n closes = record {
  balance = refl;
  current = λ c h. cc;
  guarded = λ i h. ground arith;
  unique = λ i j h k. ground arith;
  held = λ h. cc;
  fresh = λ i. ground arith;
}

pub Run-Inv : {n : ℕ} {closes : ℕ → Bool} {k : ℕ} {s : System} → Run n closes k s → Inv n s
Run-Inv {n} {closes} start = Inv-init n closes
Run-Inv (later r (pick i reply lt move)) = move-Inv (Run-Inv r) i lt reply refl move

-- The counts of the pool are those of the run.
counts_move :
    (task : Task) (reply : Reply) (q : Pool) {p : Pool} {t : Task}
    → resume task reply q ≡ some (p, t)
    → (p.opened ≡ q.opened + opens task reply)
      × (p.closed ≡ q.closed + closes_well task reply)
      × (p.abandoned ≡ q.abandoned + closes_badly task reply)
unfolding resume
counts_move task reply q move = (ground arith, ground arith, ground arith)

Run-counts :
    {n : ℕ} {closes : ℕ → Bool} {k : ℕ} {s : System} (r : Run n closes k s)
    → (s.pool.opened ≡ count_steps opens r)
      × (s.pool.closed ≡ count_steps closes_well r)
      × (s.pool.abandoned ≡ count_steps closes_badly r)
unfolding count_steps
Run-counts start = (refl, refl, refl)
Run-counts (later {s} r (pick i reply lt move)) =
    let before = Run-counts r in
    let next = counts_move (s.tasks i) reply s.pool move in
    (
      omega (arith, before.0, next.0),
      omega (arith, before.1, next.1),
      omega (arith, before.2, next.2),
    )

-- However calls of get_redis_pool and close_redis_pool interleave, fail and are cancelled, the
-- clients that from_url has returned are as many as the calls of close() that returned, those that
-- raised or were cancelled, and at most one more, the one that the module holds; and no two calls
-- are at from_url or at close() at the same time.
pub Run-single :
    (n : ℕ) (closes : ℕ → Bool) (k : ℕ) (s : System) (r : Run n closes k s)
    → (count_steps opens r
        ≡ count_steps closes_well r + count_steps closes_badly r + open_clients s.pool.client)
      × ((i j : ℕ) → holds (s.tasks i) ≡ true → holds (s.tasks j) ≡ true → i ≡ j)
Run-single n closes k s r = (omega (arith, (Run-Inv r).balance, Run-counts r), (Run-Inv r).unique)

-- Until a call of close_redis_pool has been at close() of a client and gone on, all calls of
-- get_redis_pool that return give the same client, which the module still holds.
pub Run-got :
    (n : ℕ) (closes : ℕ → Bool) (k : ℕ) (s : System) (i j : ℕ) (c d : Client)
    → Run n closes k s
    → s.pool.closed + s.pool.abandoned ≡ 0
    → s.tasks i ≡ got c
    → s.tasks j ≡ got d
    → (c ≡ d) × (s.pool.client ≡ some c)
Run-got n closes k s i j c d r none_closed at_i at_j =
    ground (arith, inv.balance, inv.fresh i, inv.fresh j, inv.current (client_number s.pool.client))
  where
    inv : Inv n s
    inv = Run-Inv r

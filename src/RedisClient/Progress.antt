-- ===== src/RedisClient/Progress.antt =====
-- That the calls of app/redis_client.py end.
use omnimap_sync.Prelude.{
  ℕ, zero, suc, ◌+◌, ◌*◌, ◌≤◌, ◌<◌, Bool, true, false, some, ◌≡◌, ◌⊎◌, inl, inr, refl, arith,
  Bool-cases,
}
use native.Mathlib.Decide.{dec_lt}
use omnimap_sync.RedisClient.{
  Pool, Task, get_called, get_waiting, get_connecting, close_waiting, close_closing, Reply, replied,
  resume, second_check, start_close,
}
use omnimap_sync.RedisClient.Tasks.{
  System, pick, Run, start, later, rank, total_rank, total_rank-set_task, total_rank_bound,
}
use omnimap_sync.RedisClient.Invariant.{holds, Run-Inv}

resume-rank :
    (task : Task) (reply : Reply) (p : Pool) {q : Pool} {t : Task}
    → resume task reply p ≡ some (q, t)
    → rank t < rank task
unfolding resume
resume-rank task reply p move = ground arith

pub Run-bound :
    {n : ℕ} {closes : ℕ → Bool} {k : ℕ} {s : System}
    → Run n closes k s
    → k + total_rank n s.tasks ≤ 3 * n
Run-bound {n} {closes} start = omega (arith, total_rank_bound n closes)
Run-bound {n} (later {s} r (pick i reply {p} {t} lt move)) = omega (
  arith,
  Run-bound r,
  resume-rank (s.tasks i) reply s.pool move,
  total_rank-set_task n s.tasks i t lt,
)

-- Every call of the first `n` is over, or one is not.
unfinished :
    (n : ℕ) (tasks : ℕ → Task)
    → ((i : ℕ) → i < n → rank (tasks i) ≡ 0) ⊎ ((i : ℕ) × (i < n) × (0 < rank (tasks i)))
unfinished zero tasks = inl (λ i h. absurd (omega arith))
unfinished (suc n) tasks = elim (unfinished n tasks) [
  | inr (i, lt, h) ↦ inr (i, omega arith, h)
  | inl below ↦ elim (dec_lt 0 (rank (tasks n))) [
    | yes h ↦ inr (n, omega arith, h)
    | no h ↦ inl (λ i lt. elim (dec_lt i n) [
      | yes l ↦ below i l
      | no l ↦ let e : i ≡ n = omega arith in rw e (omega arith)
    ])
  ]
]

-- The task goes on when what it awaits has replied.
abbrev pub GoesOn : Task → Pool → Type 0
GoesOn task p = (q : Pool) × (t : Task) × (resume task replied p ≡ some (q, t))

-- A task that holds the lock, or finds it free, goes on whatever the reply; the others wait for it.
resume_free : (task : Task) (p : Pool) → 0 < rank task → p.locked ≡ false → GoesOn task p
unfolding resume
resume_free get_called p h e = (_, _, refl)
resume_free get_waiting p h e =
    ((second_check p.client p).0, (second_check p.client p).1, rw e refl)
resume_free get_connecting p h e = (_, _, refl)
resume_free close_waiting p h e =
    ((start_close p.client p).0, (start_close p.client p).1, rw e refl)
resume_free (close_closing c) p h e = (_, _, refl)
resume_free _ p h e = absurd (omega arith)

resume_holder : (task : Task) (p : Pool) → holds task ≡ true → GoesOn task p
unfolding resume
resume_holder get_connecting p h = (_, _, refl)
resume_holder (close_closing c) p h = (_, _, refl)
resume_holder _ p h = absurd (ground arith)

module _ {n : ℕ} {closes : ℕ → Bool} {k : ℕ} {s : System} (r : Run n closes k s) where
  some_task : (i : ℕ) → i < n → 0 < rank (s.tasks i) → (j : ℕ) × (j < n) × GoesOn (s.tasks j) s.pool
  some_task i lt h = elim (Bool-cases s.pool.locked) [
    | inl locked ↦
        let (j, held_by) = (Run-Inv r).held locked in
        (j, ((Run-Inv r).guarded j held_by).1, resume_holder (s.tasks j) s.pool held_by)
    | inr free ↦ (i, lt, resume_free (s.tasks i) s.pool h free)
  ]

-- Calls of get_redis_pool and close_redis_pool always end: with `n` of them at most 3 * n steps are
-- made, in any order and with any replies, and while a call is not over, one of them goes on when
-- what it awaits replies.
pub Run-ends :
    (n : ℕ) (closes : ℕ → Bool) (k : ℕ) (s : System)
    → Run n closes k s
    → (k ≤ 3 * n)
      × (((i : ℕ) → i < n → rank (s.tasks i) ≡ 0) ⊎ ((j : ℕ) × (j < n) × GoesOn (s.tasks j) s.pool))
Run-ends n closes k s r = (omega (arith, Run-bound r), ends)
  where
    ends :
        ((i : ℕ) → i < n → rank (s.tasks i) ≡ 0) ⊎ ((j : ℕ) × (j < n) × GoesOn (s.tasks j) s.pool)
    ends = elim (unfinished n s.tasks) [
      | inl over ↦ inl over
      | inr (i, lt, h) ↦ inr (some_task r i lt h)
    ]

-- ===== src/RedisClient/Tasks.antt =====
-- Calls of app/redis_client.py that run at the same time: the first `n` tasks, in any order.
use mathlib.Core.Logic.{ite}
use native.Mathlib.Decide.{dec_lt, ℕ_discrete}
use omnimap_sync.Prelude.{
  ℕ, zero, suc, ◌+◌, ◌*◌, ◌≤◌, ◌<◌, Bool, true, false, none, some, ◌≡◌, refl, arith,
}
use omnimap_sync.RedisClient.{Pool, Task, Reply, resume}

abbrev pub set_task : (ℕ → Task) → ℕ → Task → ℕ → Task
set_task tasks i t j = ite (ℕ_discrete i j) t (tasks j)

pub record System : Type 0 where
  pub pool : Pool
  pub tasks : ℕ → Task

-- The loop resumes the task `i` with the reply that it waits for.
pub data Step (n : ℕ) (s : System) : System → Type 0 where
  pick :
      (i : ℕ) (reply : Reply) {p : Pool} {t : Task}
      → i < n
      → resume (s.tasks i) reply s.pool ≡ some (p, t)
      → Step n s (record { pool = p; tasks = set_task s.tasks i t })

-- No client yet, and no call has started.
abbrev pub new_pool : Pool
new_pool = record { client = none; locked = false; opened = 0; closed = 0; abandoned = 0 }

abbrev pub entry : Bool → Task
entry true = Task.close_waiting
entry false = Task.get_called

-- `closes i` says which function the task `i` runs.
abbrev pub init : (ℕ → Bool) → System
init closes = record { pool = new_pool; tasks = λ i. entry (closes i) }

-- A run, with the count of its steps.
pub data Run (n : ℕ) (closes : ℕ → Bool) : ℕ → System → Type 0 where
  start : Run n closes 0 (init closes)
  later : {k : ℕ} {s t : System} → Run n closes k s → Step n s t → Run n closes (suc k) t

-- What a step is, by the await that ends and how: a client comes back from `from_url`, and `close()`
-- of a client returns, or does not.
abbrev pub opens : Task → Reply → ℕ
opens Task.get_connecting Reply.replied = 1
opens _ _ = 0

abbrev pub closes_well : Task → Reply → ℕ
closes_well (Task.close_closing c) Reply.replied = 1
closes_well _ _ = 0

abbrev pub closes_badly : Task → Reply → ℕ
closes_badly (Task.close_closing c) Reply.replied = 0
closes_badly (Task.close_closing c) _ = 1
closes_badly _ _ = 0

abbrev pub count_step : (Task → Reply → ℕ) → {n : ℕ} {s t : System} → Step n s t → ℕ
count_step f {s = s} (pick i reply lt move) = f (s.tasks i) reply

-- How many steps of a run are of a kind.
unfoldable pub count_steps :
    (Task → Reply → ℕ) → {n : ℕ} {closes : ℕ → Bool} {k : ℕ} {s : System} → Run n closes k s → ℕ
count_steps f start = 0
count_steps f (later r step) = count_steps f r + count_step f step

-- The awaits that a call has left at most.
abbrev pub rank : Task → ℕ
rank Task.get_called = 3
rank Task.get_waiting = 2
rank Task.get_connecting = 1
rank Task.close_waiting = 2
rank (Task.close_closing c) = 1
rank _ = 0

pub total_rank : ℕ → (ℕ → Task) → ℕ
total_rank zero tasks = 0
total_rank (suc n) tasks = rank (tasks n) + total_rank n tasks

total_rank_beyond :
    (n : ℕ) (tasks : ℕ → Task) (i : ℕ) (t : Task)
    → n ≤ i
    → total_rank n (set_task tasks i t) ≡ total_rank n tasks
unfolding total_rank
total_rank_beyond zero tasks i t h = refl
total_rank_beyond (suc n) tasks i t h = ground (arith, total_rank_beyond n tasks i t)

pub total_rank-set_task :
    (n : ℕ) (tasks : ℕ → Task) (i : ℕ) (t : Task)
    → i < n
    → total_rank n (set_task tasks i t) + rank (tasks i) ≡ total_rank n tasks + rank t
unfolding total_rank
total_rank-set_task zero tasks i t h = absurd (omega arith)
total_rank-set_task (suc n) tasks i t h = elim (dec_lt i n) [
  | yes below ↦ ground (arith, total_rank-set_task n tasks i t below)
  | no last ↦ ground (arith, total_rank_beyond n tasks i t)
]

pub total_rank_bound : (n : ℕ) (closes : ℕ → Bool) → total_rank n (λ i. entry (closes i)) ≤ 3 * n
unfolding total_rank
total_rank_bound zero closes = omega arith
total_rank_bound (suc n) closes = ground (arith, total_rank_bound n closes)

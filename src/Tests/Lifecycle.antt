-- ===== src/Tests/Lifecycle.antt =====
-- The theorems on app/redis_client.py, on the consumer loop and on app/main.py, at concrete inputs.
use native.Mathlib.Decide.{ℕ_discrete}
use omnimap_sync.Prelude.{
  ℕ, suc, ◌+◌, ◌-◌, ◌*◌, ◌≤◌, ◌<◌, Bool, true, false, eqb, none, some, List, [], ◌∷◌, ◌++◌, ◌≡◌,
  ◌⊎◌, refl, arith,
}
use omnimap_sync.RedisClient.{Pool, replied, error, resume}
use omnimap_sync.RedisClient.Tasks.{
  System, count_steps, opens, closes_well, closes_badly, pick, Run, start, later, rank,
}
use omnimap_sync.RedisClient.Invariant.{holds, open_clients, Run-single, Run-got}
use omnimap_sync.RedisClient.Progress.{GoesOn, Run-ends}
use omnimap_sync.Broker.{
  Outcome, connection_error, cancelled, Consumer, Connection, BrokerCall, new_consumer, run,
  listening, resume_at, get_exchange_type, topic,
}
use omnimap_sync.Broker.Setup.{setup_calls, run-setup_calls}
use omnimap_sync.Broker.Loop.{
  replies, is_over, run-recovers, run-leaks, Failure, at_queue, at_exchange, set_ups,
}
use omnimap_sync.App.{App, shutdown_event, check_services, logged}
use omnimap_sync.App.Shutdown.{shutdown_event-is_over}
use omnimap_sync.Tests.Inputs.{settings}

-- Two calls of get_redis_pool, and of close_redis_pool after them.
abbrev closes : ℕ → Bool
closes i = eqb i 2

-- Both calls find no client, the second creates it, and the first gets it.
abbrev both_got : (s : System) × Run 3 closes 5 s
unfolding resume ℕ_discrete
both_got = (
  _,
  later
      (later
        (later
          (later (later start (pick 0 replied (omega arith) refl))
            (pick 1 replied (omega arith) refl))
          (pick 1 replied (omega arith) refl))
        (pick 1 replied (omega arith) refl))
      (pick 0 replied (omega arith) refl),
)

Run-single_example :
    (count_steps opens both_got.1
      ≡ count_steps closes_well both_got.1
        + count_steps closes_badly both_got.1
        + open_clients both_got.0.pool.client)
    × ((i j : ℕ) → holds (both_got.0.tasks i) ≡ true → holds (both_got.0.tasks j) ≡ true → i ≡ j)
Run-single_example = Run-single 3 closes 5 both_got.0 both_got.1

Run-got_example : ◌≡◌ {A = ℕ} 0 0 × (both_got.0.pool.client ≡ some 0)
unfolding resume ℕ_discrete
Run-got_example = Run-got 3 closes 5 both_got.0 0 1 0 0 both_got.1 refl refl refl

Run-ends_example :
    (5 ≤ 3 * 3)
    × (((i : ℕ) → i < 3 → rank (both_got.0.tasks i) ≡ 0)
        ⊎ ((j : ℕ) × (j < 3) × GoesOn (both_got.0.tasks j) both_got.0.pool))
Run-ends_example = Run-ends 3 closes 5 both_got.0 both_got.1

-- The broker refuses the exchange at first.
abbrev outcomes : List Outcome
outcomes = Outcome.replied ∷ Outcome.replied ∷ Outcome.replied ∷ connection_error ∷ []

abbrev set_up : Consumer
set_up = run settings (outcomes ++ replies 7) new_consumer

run-setup_calls_example :
    (c : Connection) × (earlier : List BrokerCall) × (set_up.connection ≡ some c)
    × (suc c ≡ set_up.opened)
    × (set_up.calls ≡ earlier ++ setup_calls settings c)
unfolding run resume_at
run-setup_calls_example = run-setup_calls settings (outcomes ++ replies 7) refl

run-recovers_example : set_up.point ≡ listening
run-recovers_example = run-recovers settings outcomes (refl, (refl, (refl, (refl, tt))))

-- The queue is refused, then the exchange.
abbrev failures : List Failure
failures =
    record { stage = at_queue; reason = connection_error }
    ∷ record { stage = at_exchange; reason = connection_error }
    ∷ []

run-leaks_example :
    ((run settings (Outcome.replied ∷ set_ups failures) new_consumer).opened ≡ 2)
    × ((run settings (Outcome.replied ∷ set_ups failures) new_consumer).closed ≡ [])
run-leaks_example = run-leaks settings failures (refl, (refl, tt))

abbrev pool : Pool
pool = record { client = some 0; locked = false; opened = 1; closed = 0; abandoned = 0 }

-- The ping fails.
check_services_lem : (check_services (error ∷ []) pool).0 ≡ logged "Failed to connect to Redis"
unfolding check_services resume
check_services_lem = refl

abbrev app : App
app = record { consumer_task = some set_up; pool = pool }

abbrev stopped : App
stopped = shutdown_event settings (cancelled false ∷ connection_error ∷ []) (error ∷ []) app

shutdown_event-is_over_example :
    (stopped.consumer_task ≡ some (run settings (cancelled false ∷ connection_error ∷ []) set_up))
    × (is_over (run settings (cancelled false ∷ connection_error ∷ []) set_up).point ≡ true)
    × (stopped.pool.client ≡ none)
    × (stopped.pool.locked ≡ false)
    × (stopped.pool.opened ≡ 1)
    × (stopped.pool.closed ≡ 0 + 0)
    × (stopped.pool.abandoned ≡ 0 + (1 - 0))
shutdown_event-is_over_example =
    shutdown_event-is_over settings false connection_error (error ∷ []) app set_up refl refl

get_exchange_type-topic : get_exchange_type settings.exchange_type ≡ topic
unfolding get_exchange_type
get_exchange_type-topic = refl

-- ===== src/Broker/Loop.antt =====
-- How the loop of start_consumer of app/rabbitmq_consumer.py goes on and ends.
use omnimap_sync.Prelude.{
  ℕ, suc, Bool, true, false, some, List, [], ◌∷◌, ◌++◌, ◌+◌, All, ◌≡◌, refl, arith, zero, length,
}
use omnimap_sync.Config.{Settings}
use omnimap_sync.Broker.{
  Connection, returned, Point, created, connecting, listening, closing, ended, Outcome, replied,
  connection_error, other_error, cancelled, Consumer, new_consumer, resume_at, run,
}

abbrev pub is_cancelled : Outcome → Bool
is_cancelled (cancelled is_closed) = true
is_cancelled _ = false

-- The loop goes on.
abbrev is_running : Point → Bool
is_running (closing c) = false
is_running (ended e) = false
is_running _ = true

abbrev pub is_over : Point → Bool
is_over (ended e) = true
is_over _ = false

-- `n` awaits that end well.
abbrev pub replies : ℕ → List Outcome
replies zero = []
replies (suc n) = replied ∷ replies n

-- A set-up that fails: at which of the calls of `consume` after `connect_robust`, and how.
pub data Stage : Type 0 where
  at_channel at_exchange at_queue at_bind at_consume : Stage

pub record Failure : Type 0 where
  pub stage : Stage
  pub reason : Outcome

-- The calls that end well before it.
abbrev calls_before : Stage → ℕ
calls_before at_channel = 0
calls_before at_exchange = 1
calls_before at_queue = 2
calls_before at_bind = 3
calls_before at_consume = 4

abbrev pub fails : Outcome → Bool
fails connection_error = true
fails other_error = true
fails _ = false

-- The awaits of a set-up that fails: the connection, the calls, the failure, and the pause.
unfoldable pub set_up : Failure → List Outcome
set_up f = replied ∷ replies (calls_before f.stage) ++ f.reason ∷ replied ∷ []

unfoldable pub set_ups : List Failure → List Outcome
set_ups [] = []
set_ups (f ∷ failures) = set_up f ++ set_ups failures

module _ (st : Settings) where
  resume_at-is_running :
      (point : Point) (outcome : Outcome) (s : Consumer)
      → s.point ≡ point
      → is_running point ≡ true
      → is_cancelled outcome ≡ false
      → is_running (resume_at st point outcome s).point ≡ true
  unfolding resume_at
  resume_at-is_running point outcome s e h k = ground arith

  run-listening :
      (point : Point) (s : Consumer)
      → s.point ≡ point
      → is_running point ≡ true
      → (run st (replies 7) s).point ≡ listening
  unfolding run resume_at
  run-listening point s e h = ground arith

  run-recovers_from :
      (outcomes : List Outcome) (s : Consumer)
      → All (λ o. is_cancelled o ≡ false) outcomes
      → is_running s.point ≡ true
      → (run st (outcomes ++ replies 7) s).point ≡ listening
  unfolding run
  run-recovers_from [] s a h = run-listening s.point s refl h
  run-recovers_from (outcome ∷ outcomes) s a h =
      run-recovers_from outcomes (resume_at st s.point outcome s) a.1
        (resume_at-is_running s.point outcome s refl h a.0)

  -- However often its connection or its set-up has failed, as long as start_consumer is not
  -- cancelled, seven awaits in a row that end well make it wait for messages again.
  pub run-recovers :
      (outcomes : List Outcome)
      → All (λ o. is_cancelled o ≡ false) outcomes
      → (run st (outcomes ++ replies 7) new_consumer).point ≡ listening
  run-recovers outcomes a = run-recovers_from outcomes new_consumer a refl

  -- A cancellation, and one await more, end the loop wherever it stands.
  pub cancelled-is_over :
      (point : Point) (is_closed : Bool) (outcome : Outcome) (s : Consumer)
      → s.point ≡ point
      → is_over (run st (cancelled is_closed ∷ outcome ∷ []) s).point ≡ true
  unfolding run resume_at
  cancelled-is_over point is_closed outcome s e = ground arith

  -- The connection on which it waits is closed.
  pub cancelled-closed :
      (c : Connection) (s : Consumer)
      → s.point ≡ listening
      → s.connection ≡ some c
      → ((run st (cancelled false ∷ replied ∷ []) s).point ≡ ended returned)
        × ((run st (cancelled false ∷ replied ∷ []) s).closed ≡ c ∷ s.closed)
  unfolding run resume_at
  cancelled-closed c s e h = ground arith

  -- The loop is at its head, and none of its connections has been closed.
  pub record IsRetrying (n : ℕ) (s : Consumer) : Type 0 where
    pub point : s.point ≡ connecting
    pub opened : s.opened ≡ n
    pub closed : s.closed ≡ []

  set_up-IsRetrying :
      (f : Failure) (n : ℕ) (s : Consumer)
      → fails f.reason ≡ true
      → IsRetrying n s
      → IsRetrying (suc n) (run st (set_up f) s)
  unfolding run resume_at set_up
  set_up-IsRetrying f n s h r = record {
    point = ground (arith, r.point);
    opened = ground (arith, r.point, r.opened);
    closed = ground (arith, r.point, r.closed);
  }

  shifted :
      (failures : List Failure) (n : ℕ) (s : Consumer)
      → IsRetrying (length failures + suc n) s
      → IsRetrying (suc (length failures) + n) s
  shifted failures n s r = record {
    point = r.point;
    opened = omega (arith, r.opened);
    closed = r.closed;
  }

  run-append :
      (before after : List Outcome) (s : Consumer)
      → run st (before ++ after) s ≡ run st after (run st before s)
  unfolding run
  run-append [] after s = refl
  run-append (outcome ∷ before) after s = run-append before after (resume_at st s.point outcome s)

  run-IsRetrying :
      (failures : List Failure) (n : ℕ) (s : Consumer)
      → All (λ f. fails f.reason ≡ true) failures
      → IsRetrying n s
      → IsRetrying (length failures + n) (run st (set_ups failures) s)
  unfolding run set_ups
  run-IsRetrying [] n s a r = record {
    point = r.point;
    opened = omega (arith, r.opened);
    closed = r.closed;
  }
  run-IsRetrying (f ∷ failures) n s a r = rw (run-append (set_up f) (set_ups failures) s) (
      shifted failures n _
        (run-IsRetrying failures (suc n) (run st (set_up f) s) a.1 (set_up-IsRetrying f n s a.0 r)))

  -- Each set-up that fails once start_consumer has connected leaves its connection open: after any
  -- number of them, each at any of the five calls that follow and with any error, as many connections
  -- have been opened, and none has been closed.
  pub run-leaks :
      (failures : List Failure)
      → All (λ f. fails f.reason ≡ true) failures
      → ((run st (replied ∷ set_ups failures) new_consumer).opened ≡ length failures)
        × ((run st (replied ∷ set_ups failures) new_consumer).closed ≡ [])
  unfolding run resume_at
  run-leaks failures a =
      let r =
        run-IsRetrying failures 0 (resume_at st created replied new_consumer) a
          (record { point = refl; opened = refl; closed = refl }) in
      (omega (arith, r.opened), r.closed)

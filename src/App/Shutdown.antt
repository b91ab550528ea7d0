-- ===== src/App/Shutdown.antt =====
-- What shutdown leaves behind, in app/main.py.
use omnimap_sync.Prelude.{
  ℕ, ◌+◌, ◌-◌, Bool, true, false, if◌then◌else◌, Option, none, some, List, [], ◌∷◌, ◌≡◌, refl,
  arith,
}
use omnimap_sync.Config.{Settings}
use omnimap_sync.RedisClient.{Pool, Client, close_waiting, Reply}
use omnimap_sync.RedisClient.Invariant.{open_clients}
use omnimap_sync.Broker.{Consumer, Outcome, cancelled, run}
use omnimap_sync.Broker.Loop.{is_over, cancelled-is_over}
use omnimap_sync.App.{App, call_alone, is_replied, next_reply, shutdown_event}

-- How the call of `close()` ends, if there is a client.
abbrev pub closes_well : Option Client → List Reply → ℕ
closes_well none rs = 0
closes_well (some c) rs = if is_replied (next_reply rs) then 1 else 0

call_alone-closed :
    (rs : List Reply) (p : Pool) (o : Option Client)
    → p.client ≡ o
    → p.locked ≡ false
    → ((call_alone 2 close_waiting rs p).2.client ≡ none)
      × ((call_alone 2 close_waiting rs p).2.locked ≡ false)
      × ((call_alone 2 close_waiting rs p).2.opened ≡ p.opened)
      × ((call_alone 2 close_waiting rs p).2.closed ≡ p.closed + closes_well o rs)
      × ((call_alone 2 close_waiting rs p).2.abandoned
          ≡ p.abandoned + (open_clients o - closes_well o rs))
unfolding call_alone
call_alone-closed rs p o e free = ground arith

-- If no other call holds the lock of the client, then after shutdown_event, wherever the consumer
-- task stands, and however the awaits of its end and of the client's end do, the task is over, and
-- the module holds no client: if there was one, its close() was called, and it has been closed if
-- that call returned, and given up unclosed if it raised or was cancelled.
pub shutdown_event-is_over :
    (st : Settings) (is_closed : Bool) (outcome : Outcome) (rs : List Reply) (app : App)
    (s : Consumer)
    → app.consumer_task ≡ some s
    → app.pool.locked ≡ false
    → let app' = shutdown_event st (cancelled is_closed ∷ outcome ∷ []) rs app in
      let s' = run st (cancelled is_closed ∷ outcome ∷ []) s in
      (app'.consumer_task ≡ some s')
      × (is_over s'.point ≡ true)
      × (app'.pool.client ≡ none)
      × (app'.pool.locked ≡ false)
      × (app'.pool.opened ≡ app.pool.opened)
      × (app'.pool.closed ≡ app.pool.closed + closes_well app.pool.client rs)
      × (app'.pool.abandoned
          ≡ app.pool.abandoned + (open_clients app.pool.client - closes_well app.pool.client rs))
unfolding shutdown_event
shutdown_event-is_over st is_closed outcome rs app s running free =
    let closed = call_alone-closed rs app.pool app.pool.client refl free in
    (
      rw running refl,
      cancelled-is_over st s.point is_closed outcome s refl,
      closed.0,
      closed.1,
      closed.2,
      closed.3,
      closed.4,
    )

-- ===== src/World.antt =====
-- What the coroutines of app/ act on, and how they run: the connection manager's state, Redis, the
-- sockets, and exceptions. A coroutine runs from one state to the next. Whether a request to Redis
-- gets its reply, and whether a socket takes a message, is the environment's choice.
pub mod Keeps
pub mod Replies
pub mod Total
pub mod Ensures
use omnimap_sync.Prelude.{
  ℕ, ℤ, pos, negsuc, ◌+ℤ◌, ◌+◌, String, Bool, true, false, Option, none, some, List, [], ◌∷◌, ◌++◌,
  Dict, map,
}
use omnimap_sync.Models.{Outgoing}
use omnimap_sync.Redis.{Key, Command, Entry, Redis}

-- A WebSocket object, by its identity.
abbrev pub Socket : Type 0
Socket = ℕ

-- The fields of `ConnectionManager`, and the gauges and counters that it keeps.
pub record Manager : Type 0 where
  -- active_connections
  pub active : Dict (List Socket)
  -- the users that have an entry in `user_locks`
  pub locks : List String
  pub connections_active : ℤ
  pub connections_total : ℕ
  pub disconnections_total : ℕ
  pub users_active : ℕ
  pub messages_sent : ℕ
  pub send_errors : ℕ

pub record World (S : Type 0) : Type 0 where
  pub redis : S
  -- for each request to come whether it fails; beyond the list they succeed
  pub faults : List Bool
  pub manager : Manager
  -- the sockets whose `send_json` raises
  pub dead : List Socket
  -- what was sent, the oldest first
  pub frames : List (Socket × Outgoing)
  -- the tasks that `send_message_to_subscribers` has created
  pub spawned : List (Outgoing × List String)

pub data Exn : Type 0 where
  redis_error data_error value_error type_error overflow_error attribute_error disconnected
        broker_error cancelled :
      Exn

pub data Result (A : Type 0) : Type 0 where
  ok : A → Result A
  raised : Exn → Result A

abbrev pub Exec : Type 0 → Type 0 → Type 0
Exec S A = World S → Result A × World S

module _ {S A : Type 0} where
  unfoldable pub pure : A → Exec S A
  pure a w = (ok a, w)

  unfoldable pub raise : Exn → Exec S A
  raise e w = (raised e, w)

  unfoldable pub gets : (World S → A) → Exec S A
  gets f w = (ok (f w), w)

  abbrev pub catch : (Exn → Exec S A) → Result A → Exec S A
  catch h (ok a) w = (ok a, w)
  catch h (raised e) w = h e w

  -- `try: m except Exception: h`
  unfoldable pub try_except : Exec S A → (Exn → Exec S A) → Exec S A
  try_except m h w = catch h (m w).0 (m w).1

  -- `try: m finally: f`, for an `f` that does not raise
  unfoldable pub try_finally : Exec S A → Exec S (Unit {0}) → Exec S A
  try_finally m f w = ((m w).0, (f (m w).1).1)

module _ {S : Type 0} where
  unfoldable pub modify : (World S → World S) → Exec S (Unit {0})
  modify f w = (ok tt, f w)

module _ {S A B : Type 0} where
  abbrev pub continue : (A → Exec S B) → Result A → Exec S B
  continue f (ok a) w = f a w
  continue f (raised e) w = (raised e, w)

  infixl 5 ◌>>=◌ ◌>>◌
  -- Opening this opens the other ways to build a coroutine too.
  unfoldable pub ◌>>=◌ : Exec S A → (A → Exec S B) → Exec S B
  unfolding pure raise gets modify try_except try_finally
  ◌>>=◌ m f w = continue f (m w).0 (m w).1

  abbrev pub ◌>>◌ : Exec S A → Exec S B → Exec S B
  m >> n = m >>= λ _. n

module _ {S A : Type 0} where
  -- `for x in xs: body x`
  unfoldable pub for_each : List A → (A → Exec S (Unit {0})) → Exec S (Unit {0})
  for_each [] body = pure tt
  for_each (x ∷ xs) body = body x >> for_each xs body

module _ {S : Type 0} where
  -- The manager's fields are written between two awaits, so without interruption.
  unfoldable pub update_manager : (Manager → Manager) → Exec S (Unit {0})
  update_manager f w = (ok tt, record w { manager = f w.manager })

  abbrev pub request_with : List Bool → Exec S (Unit {0})
  request_with [] w = (ok tt, w)
  request_with (true ∷ rest) w = (raised redis_error, record w { faults = rest })
  request_with (false ∷ rest) w = (ok tt, record w { faults = rest })

  -- The next request to Redis: its reply arrives, or the client raises.
  unfoldable pub request : Exec S (Unit {0})
  request w = request_with w.faults w

  -- `asyncio.create_task` of a broadcast
  unfoldable pub spawn : Outgoing → List String → Exec S (Unit {0})
  spawn message users w = (ok tt, record w { spawned = w.spawned ++ (message, users) ∷ [] })

module _ (R : Redis) where
  -- The commands of one pipeline or of one call, in their order.
  unfoldable pub apply_all : R.State → List (Key × Command) → R.State
  apply_all s [] = s
  apply_all s ((k, c) ∷ cs) = apply_all (R.write s k c) cs

  unfoldable pub write_all : List (Key × Command) → Exec R.State (Unit {0})
  write_all cs = do request; modify (λ w. record w { redis = apply_all w.redis cs })

  unfoldable pub read : Key → Exec R.State Entry
  read k = do request; gets (λ w. R.view w.redis k)

  -- A pipeline of reads.
  unfoldable pub read_all : List Key → Exec R.State (List Entry)
  read_all ks = do request; gets (λ w. map (R.view w.redis) ks)

  -- A write whose reply is what the key then holds: INCRBY, DECR.
  unfoldable pub write_read : Key → Command → Exec R.State Entry
  write_read k c = do
    request
    modify (λ w. record w { redis = R.write w.redis k c })
    gets (λ w. R.view w.redis k)

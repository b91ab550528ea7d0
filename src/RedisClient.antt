-- ===== src/RedisClient.antt =====
-- app/redis_client.py: the client that all coroutines share, created under a lock on the first call.
-- A call is a task that runs from one await to the next; the event loop picks which task goes on.
pub mod Tasks
pub mod Invariant
pub mod Progress
use omnimap_sync.Prelude.{ℕ, zero, suc, ◌+◌, Bool, true, false, Option, none, some}

-- A Redis client, by the number of clients that were created before it.
abbrev pub Client : Type 0
Client = ℕ

-- The globals `_redis_client` and `_redis_lock`, with counts of what the calls did.
pub record Pool : Type 0 where
  pub client : Option Client
  pub locked : Bool
  -- the clients that `redis.from_url` returned
  pub opened : ℕ
  -- those of them whose `close()` returned, and those whose `close()` raised or was cancelled
  pub closed : ℕ
  pub abandoned : ℕ

-- Where a call stands.
pub data Task : Type 0 where
  -- `get_redis_pool`: called, at the lock, and at `redis.from_url`, where it holds the lock
  get_called get_waiting get_connecting : Task
  -- `close_redis_pool`: at the lock, and at `close()` of a client, where it holds the lock
  close_waiting : Task
  close_closing : Client → Task
  -- returned, with a client or without, and ended by an exception
  got : Client → Task
  finished failed : Task

-- How the call that a task awaits ends. A task can be cancelled wherever it awaits.
pub data Reply : Type 0 where
  replied error cancelled : Reply

-- `if _redis_client is not None: return _redis_client`
unfoldable pub first_check : Option Client → Task
first_check none = get_waiting
first_check (some c) = got c

-- The lock is taken, and the second check made without an await between.
unfoldable pub second_check : Option Client → Pool → Pool × Task
second_check none p = (record p { locked = true }, get_connecting)
second_check (some c) p = (p, got c)

-- `_redis_client = await redis.from_url(...)`, and the lock is released.
unfoldable pub connected : Reply → Pool → Pool × Task
connected replied p =
    (record p { client = some p.opened; locked = false; opened = suc p.opened }, got p.opened)
connected _ p = (record p { locked = false }, failed)

unfoldable pub start_close : Option Client → Pool → Pool × Task
start_close none p = (p, finished)
start_close (some c) p = (record p { locked = true }, close_closing c)

-- `except Exception` logs an error, but not a cancellation.
abbrev pub after_close : Reply → Task
after_close cancelled = failed
after_close _ = finished

abbrev pub count_close : Reply → Pool → Pool
count_close replied p = record p { closed = suc p.closed }
count_close _ p = record p { abandoned = suc p.abandoned }

-- `close()` has ended. `finally: _redis_client = None`, and the lock is released.
unfoldable pub closed_client : Reply → Pool → Pool × Task
closed_client reply p =
    (record (count_close reply p) { client = none; locked = false }, after_close reply)

-- At the lock: `none` while another task holds it.
unfoldable pub at_lock : Reply → Bool → Pool × Task → Pool → Option (Pool × Task)
at_lock cancelled locked next p = some (p, failed)
at_lock _ true next p = none
at_lock _ false next p = some next

-- A task goes on to its next await: `none` if it cannot.
unfoldable pub resume : Task → Reply → Pool → Option (Pool × Task)
unfolding first_check second_check connected start_close closed_client at_lock
resume get_called cancelled p = some (p, failed)
resume get_called reply p = some (p, first_check p.client)
resume get_waiting reply p = at_lock reply p.locked (second_check p.client p) p
resume get_connecting reply p = some (connected reply p)
resume close_waiting reply p = at_lock reply p.locked (start_close p.client p) p
resume (close_closing c) reply p = some (closed_client reply p)
resume _ reply p = none

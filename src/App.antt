-- ===== src/App.antt =====
-- app/main.py: what happens when the application starts and stops.
pub mod Shutdown
use omnimap_sync.Prelude.{
  ℕ, zero, suc, String, Bool, true, false, ◌&&◌, Option, none, some, List, [], ◌∷◌, Dict,
}
use omnimap_sync.Value.{Value, str}
use omnimap_sync.Config.{Settings}
use omnimap_sync.RedisClient.{
  Pool, Task, get_called, get_connecting, close_waiting, close_closing, got, Reply, resume,
}
use omnimap_sync.Broker.{Consumer, Outcome, new_consumer, run}

-- The globals of the process that its start and its end change.
pub record App : Type 0 where
  -- rabbitmq_consumer_task
  pub consumer_task : Option Consumer
  -- _redis_client
  pub pool : Pool

unfoldable pub startup_event : App → App
startup_event app = record app { consumer_task = some new_consumer }

-- The replies to the awaits to come; beyond the list all end well.
abbrev pub next_reply : List Reply → Reply
next_reply [] = Reply.replied
next_reply (r ∷ rs) = r

abbrev pub later_replies : List Reply → List Reply
later_replies [] = []
later_replies (r ∷ rs) = rs

-- Only these awaits of a call that runs alone leave the process.
abbrev pub reply_to : Task → List Reply → Reply × List Reply
reply_to get_connecting rs = (next_reply rs, later_replies rs)
reply_to (close_closing c) rs = (next_reply rs, later_replies rs)
reply_to _ rs = (Reply.replied, rs)

-- A call of app/redis_client.py while no other is under way: where it ends, the replies that are
-- left, and the pool. It takes three steps at most.
unfoldable pub call_alone : ℕ → Task → List Reply → Pool → Task × List Reply × Pool
unfolding resume
call_alone zero task rs p = (task, rs, p)
call_alone (suc n) task rs p = elim (resume task (reply_to task rs).0 p) [
  | none ↦ (task, rs, p)
  | some (p', task') ↦ call_alone n task' (reply_to task rs).1 p'
]

abbrev pub is_replied : Reply → Bool
is_replied Reply.replied = true
is_replied _ = false

-- How `check_services` ends: it returns, or with the exception that the `except` clause raises
-- again, after an error was logged for an exception, and not for a cancellation.
pub data Check : Type 0 where
  passed cancelled : Check
  logged : String → Check

-- An await inside of a `try`, with the message of its `except` clause, and what comes after it.
abbrev pub checked : String → Reply → Check → Check
checked message Reply.replied next = next
checked message Reply.error next = logged message
checked message Reply.cancelled next = Check.cancelled

-- `connect_robust` and `connection.close()`
unfoldable pub check_rabbitmq : List Reply → Check
check_rabbitmq rs =
    checked "Failed to connect to RabbitMQ" (next_reply rs)
      (checked "Failed to connect to RabbitMQ" (next_reply (later_replies rs)) passed)

-- From the client on: `redis.ping()`, and the check of RabbitMQ. A call for the client that ends
-- without one has raised what the creation of the client raised.
unfoldable pub check_from : Task → Reply → List Reply → Check
unfolding check_rabbitmq
check_from (got c) creation rs =
    checked "Failed to connect to Redis" (next_reply rs) (check_rabbitmq (later_replies rs))
check_from _ creation rs = checked "Failed to connect to Redis" creation passed

-- How it ends, and the pool that it leaves.
unfoldable pub check_services : List Reply → Pool → Check × Pool
unfolding call_alone check_from
check_services rs p =
    let (task, rest, p') = call_alone 3 get_called rs p in
    (check_from task (next_reply rs) rest, p')

-- `rabbitmq_consumer_task.cancel()`, and the task is awaited: the outcomes are those of its awaits.
-- Both `except` clauses go on.
unfoldable pub stop_consumer : Settings → List Outcome → Option Consumer → Option Consumer
stop_consumer st outcomes none = none
stop_consumer st outcomes (some s) = some (run st outcomes s)

unfoldable pub shutdown_event : Settings → List Outcome → List Reply → App → App
unfolding stop_consumer call_alone
shutdown_event st outcomes rs app = record {
  consumer_task = stop_consumer st outcomes app.consumer_task;
  pool = (call_alone 2 close_waiting rs app.pool).2;
}

-- The content and the headers of the answer.
pub record JsonResponse : Type 0 where
  pub content : Dict Value
  pub headers : Dict String

unfoldable pub health_check : JsonResponse
health_check = record {
  content = ("status", str "healthy") ∷ [];
  headers = ("Access-Control-Allow-Origin", "*") ∷ [];
}

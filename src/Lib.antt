-- ===== src/Lib.antt =====
-- omnimap-sync: the realtime service of OmniMap.
--
-- RabbitMQ messages from the backend reach app/rabbitmq_consumer.py, which stores blocks and
-- subscriptions in Redis and tells the users that are connected; app/connection_manager.py keeps
-- their WebSockets. The parts, and the files that model them:
--
--   Value, Utils       Python values, and app/utils.py: block data as the strings of a Redis hash.
--                      json.dumps, json.loads and repr are the parameter Runtime.
--   Redis              Redis as an interface (Redis, IsLawful): a state, what a key holds, and the
--                      effect of a command. Redis/Memory.antt meets it. Redis/Keys.antt renders the
--                      keys as the program spells them under its settings.
--   Config, Models     app/config.py and app/models.py. The models are taken after validation;
--                      pydantic is the parameter Validation of Env.antt.
--   World              What coroutines act on and how they run: an action takes a World to a result
--                      or an exception and a World. World.faults says which requests to Redis fail,
--                      World.dead which sockets. World/Keeps.antt and World/Replies.antt have the
--                      rules for invariants, World/Total.antt those for actions that never raise,
--                      World/Ensures.antt those for what an action does when no request fails.
--   Manager            app/connection_manager.py: connect, disconnect and the sends in
--                      Manager.antt, the sandbox cache and the private filter in
--                      Manager/Sandbox.antt; the books and their invariant in
--                      Manager/Connections.antt and Manager/Coroutines.antt; coroutines
--                      that interleave at their awaits in Manager/Interleaving.antt.
--   Consumer           app/rabbitmq_consumer.py: Consumer/Changelog.antt (changelog, versions),
--                      Consumer/Blocks.antt (action_update_block, action_update_blocks),
--                      Consumer/Access.antt (action_update_access, action_subscribe,
--                      action_unsubscribe, action_sandbox_mode_changed), Consumer/Events.antt
--                      (action_chat_event, action_notification_event, action_access_request),
--                      Consumer/Handle.antt (handle_message); which keys the pipelines write
--                      is in Consumer/Pipelines.antt; proofs in the other children.
--   Mirror             The two indexes of subscriptions, block:{uuid} and subscriber:{user}:blocks;
--                      Mirror/Refinement.antt has the relation that they stand for,
--                      Mirror/Versions.antt the versions of subscriptions beside them.
--   Log                The changelog as the consumer writes it, and its sequence numbers.
--   Sync               app/websockets.py and app/auth.py: Sync/Endpoint.antt (websocket_endpoint,
--                      verify_jwt), Sync/V1.antt (handle_get_updates), Sync/Page.antt (a page of the
--                      changelog) and Sync/V2.antt (handle_get_updates_v2); Sync/Description.antt
--                      describes its answer by the rows of Redis, Sync/Fresh.antt the new blocks
--                      of the first protocol, and Sync/Pull.antt has a client that asks again
--                      while there is more; proofs in the other children.
--                      jwt.decode and the auth service are the parameter Identity.
--   RedisClient        app/redis_client.py: each call of get_redis_pool and close_redis_pool is a
--                      task that goes from await to await. RedisClient/Tasks.antt has the runs of
--                      many tasks in any order, with any replies and cancellations.
--   Broker             consume and start_consumer of app/rabbitmq_consumer.py, as one task that goes
--                      from await to await of aio_pika; proofs in Broker/Setup.antt and
--                      Broker/Loop.antt.
--   App                app/main.py: startup_event, check_services, shutdown_event and health_check,
--                      over the state of RedisClient and Broker.
--   Tests              The theorems at concrete inputs.
--
-- The handlers keep the names of the source without action_. A handler that validates its message
-- first is the function of the validated message; Consumer/Handle.antt applies it to what
-- validation returns. Except in RedisClient, Broker and Manager/Interleaving.antt,
-- coroutines run to their end one after the other; asyncio.create_task is recorded in World.spawned,
-- and its body is send_message_to_subscribers_impl. A Redis pipeline is one request, applied as a
-- whole or not at all. Sets are lists without duplicates in some order.
--
-- Loops over lists are structural. The loop over chunks has the length of the list as fuel, which
-- is enough since each chunk takes at least one element. The client of Sync/Pull.antt takes the
-- number of its requests as fuel; one more than there are entries after its cursor is enough.
--
-- Not modelled: logging, and metrics other than the manager's gauges and the count of reconnects;
-- app/metrics.py, which declares metrics; the routes of app/main.py that only call the prometheus
-- client or websocket_endpoint. asyncio.sleep(5) returns or is cancelled, asyncio.sleep of infinity
-- is only cancelled. Elsewhere than in RedisClient, Broker and App, and at the await of connect and
-- the end of a connection (Ending in Sync/Endpoint.antt), coroutines are not cancelled. json.loads
-- may raise other exceptions than JSONDecodeError on the body of a message (Body in
-- Consumer/Handle.antt) and on the text of a client (Ending); for the strings that Redis holds it
-- is total.
pub mod Prelude
pub mod Value
pub mod Utils
pub mod Redis
pub mod RedisClient
pub mod Config
pub mod Models
pub mod World
pub mod Manager
pub mod Env
pub mod Consumer
pub mod Mirror
pub mod Log
pub mod Sync
pub mod Broker
pub mod App
pub mod Tests

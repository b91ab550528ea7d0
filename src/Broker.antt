-- ===== src/Broker.antt =====
-- consume and start_consumer of app/rabbitmq_consumer.py: the connection to RabbitMQ, and the loop
-- that sets it up again. The calls of aio_pika are answered by the environment, one after the other.
pub mod Setup
pub mod Loop
use Prim.Native.Char.{code}
use Prim.Native.Nat.{ℕ, suc, ◌+◌}
use omnimap_sync.Prelude.{
  String, Bool, true, false, ◌&&◌, Option, none, some, List, [], ◌∷◌, ◌++◌, eqb, leb, if◌then◌else◌,
}
use omnimap_sync.Config.{Settings}

-- aio_pika's enumeration.
pub data ExchangeType : Type 0 where
  direct fanout topic headers : ExchangeType

-- `str.lower` of an ASCII character. No character beyond ASCII becomes a letter of a key below.
abbrev pub lower : ℕ → ℕ
lower c = if leb b'A' c && leb c b'Z' then c + 32 else c

abbrev pub lower_is : String → String → Bool
lower_is String.[] String.[] = true
lower_is (String.◌∷◌ c s) (String.◌∷◌ d t) = eqb (lower (code c)) (code d) && lower_is s t
lower_is _ _ = false

-- `_get_exchange_type`
unfoldable pub get_exchange_type : String → ExchangeType
get_exchange_type s =
    if lower_is s "direct"
    then direct
    else if lower_is s "fanout"
    then fanout
    else if lower_is s "topic"
    then topic
    else if lower_is s "headers"
    then headers
    else direct

-- A connection, by the number of connections that were opened before it.
abbrev pub Connection : Type 0
Connection = ℕ

-- What the broker was asked for and has done.
pub data BrokerCall : Type 0 where
  channel_opened : Connection → BrokerCall
  -- the name, the type, and whether it is durable
  exchange_declared : Connection → String → ExchangeType → Bool → BrokerCall
  queue_declared : Connection → String → Bool → BrokerCall
  -- the queue, the exchange and the routing key
  queue_bound : Connection → String → String → String → BrokerCall
  -- the queue that `handle_message` consumes, and `no_ack`
  handler_attached : Connection → String → Bool → BrokerCall

-- How `start_consumer` ended.
pub data Ending : Type 0 where
  returned raised cancelled_again : Ending

-- The await at which the task stands.
pub data Point : Type 0 where
  created connecting : Point
  opening_channel declaring_exchange declaring_queue binding consuming : Connection → Point
  -- `asyncio.sleep(float('inf'))`, `connection.close()` and `asyncio.sleep(5)`
  listening : Point
  closing : Connection → Point
  retrying : Point
  ended : Ending → Point

-- How an await ends. A cancellation comes with what `connection.is_closed` says then.
pub data Outcome : Type 0 where
  replied connection_error other_error : Outcome
  cancelled : Bool → Outcome

pub record Consumer : Type 0 where
  pub point : Point
  -- the local of `start_consumer`
  pub connection : Option Connection
  pub opened : ℕ
  -- the connections that the loop has closed
  pub closed : List Connection
  -- rabbitmq_reconnects_total
  pub reconnects : ℕ
  pub calls : List BrokerCall

abbrev pub new_consumer : Consumer
new_consumer = record {
  point = created;
  connection = none;
  opened = 0;
  closed = [];
  reconnects = 0;
  calls = [];
}

-- `if connection and not connection.is_closed: await connection.close()`, then `break`
unfoldable pub on_cancelled : Option Connection → Bool → Point
on_cancelled none is_closed = ended returned
on_cancelled (some c) true = ended returned
on_cancelled (some c) false = closing c

-- The `except` clauses of the loop.
unfoldable pub except_clauses : Outcome → Consumer → Consumer
except_clauses (cancelled is_closed) s = record s { point = on_cancelled s.connection is_closed }
except_clauses _ s = record s { point = retrying; reconnects = suc s.reconnects }

-- One call of `consume`: what it leaves if it has succeeded.
unfoldable pub try_call : Outcome → Point → BrokerCall → Consumer → Consumer
try_call replied next call s = record s { point = next; calls = s.calls ++ call ∷ [] }
try_call outcome next call s = except_clauses outcome s

unfoldable pub on_closed : Outcome → Connection → Consumer → Consumer
on_closed replied c s = record s { point = ended returned; closed = c ∷ s.closed }
on_closed (cancelled _) c s = record s { point = ended cancelled_again }
on_closed _ c s = record s { point = ended raised }

-- `connection = None` at the head of the loop, and the first call of `consume`.
abbrev pub enter_loop : Consumer → Consumer
enter_loop s = record s { point = connecting; connection = none }

-- The await at the point ends.
unfoldable pub resume_at : Settings → Point → Outcome → Consumer → Consumer
unfolding on_cancelled except_clauses try_call on_closed
resume_at st created (cancelled _) s = record s { point = ended cancelled_again }
resume_at st created _ s = enter_loop s
resume_at st connecting replied s = record s {
  point = opening_channel s.opened;
  opened = suc s.opened;
}
resume_at st connecting outcome s = except_clauses outcome s
resume_at st (opening_channel c) outcome s =
    try_call outcome (declaring_exchange c) (channel_opened c) s
resume_at st (declaring_exchange c) outcome s =
    try_call outcome (declaring_queue c)
      (exchange_declared c st.exchange_name (get_exchange_type st.exchange_type) true) s
resume_at st (declaring_queue c) outcome s =
    try_call outcome (binding c) (queue_declared c st.queue_name true) s
resume_at st (binding c) outcome s =
    try_call outcome (consuming c) (queue_bound c st.queue_name st.exchange_name st.routing_key) s
resume_at st (consuming c) replied s = record s {
  point = listening;
  connection = some c;
  calls = s.calls ++ handler_attached c st.queue_name false ∷ [];
}
resume_at st (consuming c) outcome s = except_clauses outcome s
resume_at st listening replied s = s
resume_at st listening outcome s = except_clauses outcome s
resume_at st (closing c) outcome s = on_closed outcome c s
resume_at st retrying (cancelled _) s = record s { point = ended cancelled_again }
resume_at st retrying _ s = enter_loop s
resume_at st (ended e) outcome s = s

unfoldable pub run : Settings → List Outcome → Consumer → Consumer
run st [] s = s
run st (outcome ∷ outcomes) s = run st outcomes (resume_at st s.point outcome s)

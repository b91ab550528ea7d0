-- ===== src/Broker/Setup.antt =====
-- What start_consumer of app/rabbitmq_consumer.py has asked the broker for when it listens.
use omnimap_sync.Prelude.{
  suc, Bool, true, false, Option, none, some, List, [], ◌∷◌, ◌++◌, ◌≡◌, refl, arith, append_assoc,
  append-nil, sym,
}
use mathlib.Core.Path.{subst}
use omnimap_sync.Config.{Settings}
use omnimap_sync.Broker.{
  get_exchange_type, Connection, BrokerCall, channel_opened, exchange_declared, queue_declared,
  queue_bound, handler_attached, Point, created, connecting, opening_channel, declaring_exchange,
  declaring_queue, binding, consuming, listening, closing, retrying, ended, Outcome, replied,
  cancelled, Consumer, new_consumer, resume_at, run, on_cancelled, except_clauses,
}

module _ (st : Settings) where
  abbrev pub channel_calls : Connection → List BrokerCall
  channel_calls c = channel_opened c ∷ []

  abbrev pub exchange_calls : Connection → List BrokerCall
  exchange_calls c =
      channel_opened c
      ∷ exchange_declared c st.exchange_name (get_exchange_type st.exchange_type) true
      ∷ []

  abbrev pub queue_calls : Connection → List BrokerCall
  queue_calls c = exchange_calls c ++ queue_declared c st.queue_name true ∷ []

  abbrev pub binding_calls : Connection → List BrokerCall
  binding_calls c =
      queue_calls c ++ queue_bound c st.queue_name st.exchange_name st.routing_key ∷ []

  -- The set-up of a connection, in its order.
  abbrev pub setup_calls : Connection → List BrokerCall
  setup_calls c = binding_calls c ++ handler_attached c st.queue_name false ∷ []

  -- The last calls are these, on the newest connection.
  record EndsWith (s : Consumer) (c : Connection) (calls : List BrokerCall) : Type 0 where
    newest : suc c ≡ s.opened
    earlier : List BrokerCall
    last : s.calls ≡ earlier ++ calls

  abbrev IsSetUp : Point → Consumer → Type 0
  IsSetUp (opening_channel c) s = EndsWith s c []
  IsSetUp (declaring_exchange c) s = EndsWith s c (channel_calls c)
  IsSetUp (declaring_queue c) s = EndsWith s c (exchange_calls c)
  IsSetUp (binding c) s = EndsWith s c (queue_calls c)
  IsSetUp (consuming c) s = EndsWith s c (binding_calls c)
  IsSetUp listening s = (c : Connection) × (s.connection ≡ some c) × EndsWith s c (setup_calls c)
  IsSetUp _ s = Unit

  extend :
      {s s' : Consumer} {c : Connection} {calls : List BrokerCall} (call : BrokerCall)
      → EndsWith s c calls
      → s'.opened ≡ s.opened
      → s'.calls ≡ s.calls ++ call ∷ []
      → EndsWith s' c (calls ++ call ∷ [])
  extend {calls} call e o k = record {
    newest = ground (arith, e.newest);
    earlier = e.earlier;
    last = rw (k, e.last) (append_assoc e.earlier calls (call ∷ []));
  }

  on_cancelled-IsSetUp :
      (o : Option Connection) (is_closed : Bool) (s : Consumer)
      → IsSetUp (on_cancelled o is_closed) s
  unfolding on_cancelled
  on_cancelled-IsSetUp none is_closed s = tt
  on_cancelled-IsSetUp (some c) true s = tt
  on_cancelled-IsSetUp (some c) false s = tt

  except_clauses-IsSetUp :
      (outcome : Outcome) (s : Consumer)
      → IsSetUp (except_clauses outcome s).point (except_clauses outcome s)
  unfolding except_clauses
  except_clauses-IsSetUp (cancelled is_closed) s =
      on_cancelled-IsSetUp s.connection is_closed
        (record s { point = on_cancelled s.connection is_closed })
  except_clauses-IsSetUp _ s = tt

  resume_at-IsSetUp :
      (point : Point) (outcome : Outcome) (s : Consumer)
      → s.point ≡ point
      → IsSetUp point s
      → IsSetUp (resume_at st point outcome s).point (resume_at st point outcome s)
  unfolding resume_at
  resume_at-IsSetUp connecting replied s e h = record {
    newest = refl;
    earlier = s.calls;
    last = sym (append-nil s.calls);
  }
  resume_at-IsSetUp (opening_channel c) replied s e h = extend (channel_opened c) h refl refl
  resume_at-IsSetUp (declaring_exchange c) replied s e h =
      extend (exchange_declared c st.exchange_name (get_exchange_type st.exchange_type) true) h refl
        refl
  resume_at-IsSetUp (declaring_queue c) replied s e h =
      extend (queue_declared c st.queue_name true) h refl refl
  resume_at-IsSetUp (binding c) replied s e h =
      extend (queue_bound c st.queue_name st.exchange_name st.routing_key) h refl refl
  resume_at-IsSetUp (consuming c) replied s e h =
      (c, refl, extend (handler_attached c st.queue_name false) h refl refl)
  resume_at-IsSetUp listening replied s e h = subst (λ p. IsSetUp p s) (sym e) h
  resume_at-IsSetUp created (cancelled b) s e h = tt
  resume_at-IsSetUp created _ s e h = tt
  resume_at-IsSetUp retrying (cancelled b) s e h = tt
  resume_at-IsSetUp retrying _ s e h = tt
  resume_at-IsSetUp (closing c) replied s e h = tt
  resume_at-IsSetUp (closing c) (cancelled b) s e h = tt
  resume_at-IsSetUp (closing c) _ s e h = tt
  resume_at-IsSetUp (ended r) outcome s e h = subst (λ p. IsSetUp p s) (sym e) h
  resume_at-IsSetUp point outcome s e h = except_clauses-IsSetUp outcome s

  run-IsSetUp :
      (outcomes : List Outcome) (s : Consumer)
      → IsSetUp s.point s
      → IsSetUp (run st outcomes s).point (run st outcomes s)
  unfolding run
  run-IsSetUp [] s h = h
  run-IsSetUp (outcome ∷ outcomes) s h =
      run-IsSetUp outcomes (resume_at st s.point outcome s)
        (resume_at-IsSetUp s.point outcome s refl h)

  -- However its calls have ended before, when start_consumer waits for messages, it holds the
  -- newest connection, and the last that the broker was asked for on it is the whole set-up, in this
  -- order: the durable exchange of the type in the settings, the durable queue, the queue bound to
  -- the exchange under the routing key, and handle_message attached to the queue.
  pub run-setup_calls :
      (outcomes : List Outcome)
      → (run st outcomes new_consumer).point ≡ listening
      → (c : Connection) × (earlier : List BrokerCall) × ((run st outcomes new_consumer).connection
          ≡ some c)
        × (suc c ≡ (run st outcomes new_consumer).opened)
        × ((run st outcomes new_consumer).calls ≡ earlier ++ setup_calls c)
  run-setup_calls outcomes e =
      let (c, held, ends) =
        subst (λ p. IsSetUp p (run st outcomes new_consumer)) e
          (run-IsSetUp outcomes new_consumer tt) in
      (c, ends.earlier, held, ends.newest, ends.last)

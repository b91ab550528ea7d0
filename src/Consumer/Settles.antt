-- ===== src/Consumer/Settles.antt =====
-- Which messages are settled, and how.
use mathlib.Core.Path.{subst}
use omnimap_sync.Prelude.{
  sym, String, Bool, true, false, ◌==◌, Option, none, some, List, Dict, contains, ◌≡◌, arith, ap,
  if◌then◌else◌, eq_iff, Bool-cases, inl, inr,
}
use omnimap_sync.Value.{Value, Fields, null, str, list, dict, truthy}
use omnimap_sync.World.{World, Result, ok, raised, Exec, ◌>>=◌, pure, raise, try_except}
use omnimap_sync.World.Total.{Total, is_ok}
use omnimap_sync.Env.{Env}
use omnimap_sync.Consumer.Totality.{is_hashable, known_handlers, contains_value, dispatch-Total}
use omnimap_sync.Manager.Sandbox.{get_value}
use omnimap_sync.Consumer.Handle.{
  Handled, Settlement, acked, rejected, known_actions, fields_dict, in_set, raw_label, dispatch,
  settle, handle_fields, handle_decoded, handle_message, label_text, Body, Message, answer_broker,
  handle_body, readable, unreadable,
}

module _ (E : Env) where
  -- What settles: a text that is no JSON, or an object whose label can be hashed.
  abbrev pub settles : Option Value → Bool
  settles none = true
  settles (some (dict fs)) =
      is_hashable
        (raw_label (get_value (fields_dict fs) "action") (get_value (fields_dict fs) "type"))
  settles (some v) = false

  -- What a body settles: bytes that json.loads cannot take raise.
  abbrev pub settles_body : Body → Bool
  settles_body (readable body) = settles (E.runtime.loads body)
  settles_body unreadable = false

  abbrev pub settled_as : Result Handled → Option Settlement
  settled_as (ok h) = some h.settlement
  settled_as (raised e) = none

  -- How a message is settled once its handler has returned.
  abbrev pub settled_after : Message → Option Settlement
  settled_after message =
      if message.takes_ack then some acked else if message.takes_reject then some rejected else none

  settle_result :
      (message : Message) (label : String) (r : Result Unit) (w v : World E.redis.State)
      → is_ok r ≡ true
      → settled_as (settle E message label (λ _. (r, w)) v).0 ≡ settled_after message
  unfolding settle answer_broker ◌>>=◌ pure raise try_except
  settle_result message label (ok tt) w v h = ground arith
  settle_result message label (raised e) w v h = cc

  settle-acks :
      (message : Message) (label : String) (m : Exec E.redis.State Unit) (w : World E.redis.State)
      → Total m
      → settled_as (settle E message label m w).0 ≡ settled_after message
  unfolding settle ◌>>=◌
  settle-acks message label m w t = settle_result message label (m w).0 (m w).1 w (t.returns w)

  in_set-settle-acks :
      (message : Message) (label : Bool → String) (texts : List String) (v : Value)
      (m : Exec E.redis.State Unit) (w : World E.redis.State)
      → is_hashable v ≡ true
      → Total m
      → settled_as ((do known ← in_set texts v; settle E message (label known) m) w).0
        ≡ settled_after message
  unfolding in_set ◌>>=◌
  in_set-settle-acks message label texts (list vs) m w h t = cc
  in_set-settle-acks message label texts (dict fs) m w h t = cc
  in_set-settle-acks message label texts (str s) m w h t =
      settle-acks message (label (contains texts s)) m w t
  in_set-settle-acks message label texts _ m w h t = settle-acks message (label false) m w t

  truthy_of_handled :
      (s : String) → contains_value known_handlers (str s) ≡ true → truthy (str s) ≡ true
  unfolding truthy
  truthy_of_handled s h = elim (Bool-cases (s == "")) [
    | inl e ↦ cc (h, ap (λ t. contains_value known_handlers (str t)) ((eq_iff s "").0 e))
    | inr n ↦ rw n
  ]

  hashable_of_handled :
      (action event_type : Value)
      → contains_value known_handlers action ≡ true
      → is_hashable (raw_label action event_type) ≡ true
  hashable_of_handled (str s) event_type h = rw (truthy_of_handled s h)
  hashable_of_handled null event_type h = cc
  hashable_of_handled _ event_type h = cc

  handle_fields-acks :
      (message : Message) (d : Dict Value) (w : World E.redis.State)
      → contains_value known_handlers (get_value d "action") ≡ true
      → settled_as (handle_fields E message d w).0 ≡ settled_after message
  unfolding handle_fields
  handle_fields-acks message d w h =
      let label = raw_label (get_value d "action") (get_value d "type") in
      in_set-settle-acks message (λ known. label_text known label) known_actions label
        (dispatch E (get_value d "action") (get_value d "type") d) w
        (hashable_of_handled (get_value d "action") (get_value d "type") h)
        (dispatch-Total E (get_value d "action") (get_value d "type") d (ground arith))

  -- A JSON object with one of the eight known actions is acknowledged, also if its content is
  -- invalid, and also if any of the requests to Redis that it takes fail; unless the broker does not
  -- take the acknowledgement: then it is rejected, if the broker takes that.
  pub handle_message-acks :
      (message : Message) (body : String) (fs : Fields) (w : World E.redis.State)
      → message.body ≡ readable body
      → E.runtime.loads body ≡ some (dict fs)
      → contains_value known_handlers (get_value (fields_dict fs) "action") ≡ true
      → settled_as (handle_message E message w).0 ≡ settled_after message
  unfolding handle_message handle_decoded
  handle_message-acks message body fs w b l h =
      subst (λ x. settled_as (handle_body E message x w).0 ≡ settled_after message) (sym b)
        (rw l (handle_fields-acks message (fields_dict fs) w h))

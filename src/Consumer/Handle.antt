-- ===== src/Consumer/Handle.antt =====
-- handle_message of app/rabbitmq_consumer.py: decoding, dispatch, and how a message is settled.
use omnimap_sync.Prelude.{
  String, Bool, true, false, not, ◌==◌, Option, none, some, List, [], ◌∷◌, contains, Dict,
  if◌then◌else◌,
}
use omnimap_sync.Value.{Value, str, list, dict, Fields, end, field, truthy}
use omnimap_sync.World.{
  type_error, value_error, broker_error, attribute_error, Exec, ◌>>=◌, ◌>>◌, pure, raise,
  try_except,
}
use omnimap_sync.Env.{Env}
use omnimap_sync.Manager.Sandbox.{get_value}
use omnimap_sync.Consumer.Blocks.{update_block, update_blocks}
use omnimap_sync.Consumer.Access.{update_access, subscribe, unsubscribe, change_sandbox_mode}
use omnimap_sync.Consumer.Events.{
  notification_event_types, handle_chat_event, handle_notification_event, handle_access_request,
}

-- The body of a message: a text that `json.loads` reads or refuses with a JSONDecodeError, or bytes
-- for which it raises something else, a UnicodeDecodeError, a ValueError for an integer of too many
-- digits, or a RecursionError.
pub data Body : Type 0 where
  readable : String → Body
  unreadable : Body

-- A message, with whether the broker takes `ack()` and `reject()`, which raise if it does not.
pub record Message : Type 0 where
  pub body : Body
  pub takes_ack : Bool
  pub takes_reject : Bool

pub data Settlement : Type 0 where
  acked rejected : Settlement

-- How a message ends if `handle_message` returns, with the metrics: the label, and whether an error was counted.
pub record Handled : Type 0 where
  pub settlement : Settlement
  pub metric_label : String
  pub counted : Bool
  pub failed : Bool

-- _KNOWN_RABBITMQ_ACTIONS
abbrev pub known_actions : List String
known_actions =
    "update_block" ∷ "update_blocks" ∷ "update_access" ∷ "subscribe" ∷ "unsubscribe"
    ∷ "sandbox_mode_changed" ∷ "chat_event" ∷ "access_request" ∷ notification_event_types

unfoldable pub fields_dict : Fields → Dict Value
fields_dict end = []
fields_dict (field k v fs) = (k, v) ∷ fields_dict fs

-- `v == text`
abbrev pub equals : Value → String → Bool
equals (str s) t = s == t
equals _ t = false

-- `v in texts`, for a set of texts: a list or a dict cannot be hashed.
unfoldable pub in_set : {S : Type 0} → List String → Value → Exec S Bool
in_set texts (str s) = pure (contains texts s)
in_set texts (list vs) = raise type_error
in_set texts (dict fs) = raise type_error
in_set texts _ = pure false

-- `action or event_type or "unknown"`
abbrev pub raw_label : Value → Value → Value
raw_label action event_type =
    if truthy action then action else if truthy event_type then event_type else str "unknown"

abbrev pub label_text : Bool → Value → String
label_text known (str s) = if known then s else "unknown"
label_text known _ = "unknown"

-- `await message.ack()` or `await message.reject(requeue=False)`
unfoldable pub answer_broker : {S : Type 0} → Bool → Exec S Unit
answer_broker taken = if taken then pure tt else raise broker_error

module _ (E : Env) where
  -- `try: msg = Model(**message_data) except ValidationError: return`
  unfoldable pub validated :
      {M : Type 0} → (M → Exec E.redis.State Unit) → Option M → Exec E.redis.State Unit
  validated run none = pure tt
  validated run (some msg) = run msg

  unfoldable pub dispatch : Value → Value → Dict Value → Exec E.redis.State Unit
  dispatch action event_type message_data =
      if equals action "update_block"
      then validated (update_block E) (E.validation.update_block message_data)
      else if equals action "update_blocks"
      then validated (update_blocks E) (E.validation.update_blocks message_data)
      else if equals action "update_access"
      then validated (update_access E) (E.validation.update_access message_data)
      else if equals action "subscribe"
      then validated (subscribe E) (E.validation.subscribe message_data)
      else if equals action "unsubscribe"
      then validated (unsubscribe E) (E.validation.unsubscribe message_data)
      else if equals action "sandbox_mode_changed"
      then validated (change_sandbox_mode E) (E.validation.sandbox_mode_changed message_data)
      else if equals action "chat_event"
      then validated (handle_chat_event E) (E.validation.chat_event message_data)
      else if equals action "access_request"
      then validated (handle_access_request E) (E.validation.access_request message_data)
      else do
        known ← in_set notification_event_types event_type
        if known
            then validated (handle_notification_event E)
                (E.validation.notification_event message_data)
            else pure tt

  -- The `try` around the dispatch, with its `finally`.
  unfoldable pub settle : Message → String → Exec E.redis.State Unit → Exec E.redis.State Handled
  settle message label action = do
    done ←
        try_except (do action; answer_broker message.takes_ack; pure true)
          (λ _. do answer_broker message.takes_reject; pure false)
    pure (record {
      settlement = if done then acked else rejected;
      metric_label = label;
      counted = true;
      failed = not done;
    })

  unfoldable pub handle_fields : Message → Dict Value → Exec E.redis.State Handled
  handle_fields message message_data = do
    known ←
        in_set known_actions
          (raw_label (get_value message_data "action") (get_value message_data "type"))
    settle message
        (label_text known
          (raw_label (get_value message_data "action") (get_value message_data "type")))
        (dispatch (get_value message_data "action") (get_value message_data "type") message_data)

  -- What follows `json.loads`: `.get` of a value that is no dict raises, outside every `try`.
  unfoldable pub handle_decoded : Message → Option Value → Exec E.redis.State Handled
  handle_decoded message none = do
    answer_broker message.takes_reject
    pure (record { settlement = rejected; metric_label = ""; counted = false; failed = false })
  handle_decoded message (some (dict fs)) = handle_fields message (fields_dict fs)
  handle_decoded message (some v) = raise attribute_error

  abbrev pub handle_body : Message → Body → Exec E.redis.State Handled
  handle_body message (readable body) = handle_decoded message (E.runtime.loads body)
  handle_body message unreadable = raise value_error

  -- Only a JSONDecodeError is caught.
  unfoldable pub handle_message : Message → Exec E.redis.State Handled
  handle_message message = handle_body message message.body

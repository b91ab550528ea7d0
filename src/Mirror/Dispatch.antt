-- ===== src/Mirror/Dispatch.antt =====
-- What every message keeps that handle_message of app/rabbitmq_consumer.py takes, if the changelog and
-- the handlers of access keep it.
use omnimap_sync.Prelude.{String, Bool, true, false, List, Dict, Option, none, some, if◌then◌else◌}
use omnimap_sync.Value.{Value, str, list, dict}
use omnimap_sync.Models.{
  UserId, Outgoing, NotificationEventMessage, ChatKind, dm, group_message, group_update,
  ChatEventMessage, AccessRequestMessage,
}
use omnimap_sync.World.{Exec}
use omnimap_sync.World.Keeps.{keeps_rules, Keeps-pure, Keeps-raise, Keeps-bind, Keeps-try_except}
use omnimap_sync.Env.{Env}
use omnimap_sync.Manager.{send_to_user}
use omnimap_sync.Consumer.Events.{
  notification_event_types, send_dm, echo_to, send_group, chat_by_kind, handle_chat_event, send_if,
  handle_notification_event, answer, handle_access_request, notification_response, request_target,
  access_response,
}
use omnimap_sync.Consumer.Handle.{
  validated, in_set, equals, dispatch, settle, handle_fields, fields_dict, handle_decoded,
  handle_message, handle_body, answer_broker, Message, Body, readable, unreadable,
}
use omnimap_sync.Mirror.Sends.{
  send_to_user-Keeps, send_personal_message-Keeps, send_to_users_from-Keeps,
}
use omnimap_sync.Models.{
  UpdateAccessMessage, SubscribeMessage, UnsubscribeMessage, SandboxModeChangedMessage,
}
use omnimap_sync.Consumer.Access.{update_access, subscribe, unsubscribe, change_sandbox_mode}
use omnimap_sync.Mirror.Steps.{Kept, KeepsLog, IgnoresPlain}
use omnimap_sync.Mirror.Updates.{update_block-Keeps, update_blocks-Keeps}

-- The handlers that write the indexes keep `P`.
pub record KeepsAccess (E : Env) (P : E.redis.State → Type 0) : Type 0 where
  pub access : (msg : UpdateAccessMessage) → Kept E P (update_access E msg)
  pub subscription : (msg : SubscribeMessage) → Kept E P (subscribe E msg)
  pub removal : (msg : UnsubscribeMessage) → Kept E P (unsubscribe E msg)
  pub mode : (msg : SandboxModeChangedMessage) → Kept E P (change_sandbox_mode E msg)

module _ (E : Env) (P : E.redis.State → Type 0) (N : IgnoresPlain E.redis P) (A : KeepsLog E P)
    (H : KeepsAccess E P) where
  sends : (u : String) (m : Outgoing) → Kept E P (send_to_user E.redis E.settings u m)
  sends u m = send_to_user-Keeps E.redis P N E.settings u m

  echo_to-Keeps :
      (sender : Option String) (recipient : String) (m : Outgoing)
      → Kept E P (echo_to E sender recipient m)
  unfolding echo_to
  echo_to-Keeps none recipient m = search keeps_rules
  echo_to-Keeps (some sender) recipient m = search (keeps_rules, sends)

  send_dm-Keeps : (msg : ChatEventMessage) (to : Option UserId) → Kept E P (send_dm E msg to)
  unfolding send_dm
  send_dm-Keeps msg none = search keeps_rules
  send_dm-Keeps msg (some id) = search (keeps_rules, sends, echo_to-Keeps)

  send_group-Keeps :
      (msg : ChatEventMessage) (m : Outgoing) (excluded : Option String)
      → Kept E P (send_group E msg m excluded)
  unfolding send_group
  send_group-Keeps msg m excluded =
      search (keeps_rules, send_to_users_from-Keeps E.redis P N E.settings)

  chat_by_kind-Keeps :
      (kind : ChatKind) (msg : ChatEventMessage) → Kept E P (chat_by_kind E kind msg)
  unfolding chat_by_kind
  chat_by_kind-Keeps dm msg = send_dm-Keeps msg msg.recipient_id
  chat_by_kind-Keeps group_message msg = send_group-Keeps msg _ _
  chat_by_kind-Keeps group_update msg = send_group-Keeps msg _ _

  handle_chat_event-Keeps : (msg : ChatEventMessage) → Kept E P (handle_chat_event E msg)
  unfolding handle_chat_event
  handle_chat_event-Keeps msg = chat_by_kind-Keeps msg.type msg

  send_if-Keeps : (m : Option Outgoing) (user : String) → Kept E P (send_if E m user)
  unfolding send_if
  send_if-Keeps none user = search keeps_rules
  send_if-Keeps (some m) user = send_personal_message-Keeps E.redis P N E.settings m user

  handle_notification_event-Keeps :
      (msg : NotificationEventMessage) → Kept E P (handle_notification_event E msg)
  unfolding handle_notification_event
  handle_notification_event-Keeps msg = send_if-Keeps (notification_response msg) _

  answer-Keeps : (to : Option UserId) (m : Outgoing) → Kept E P (answer E to m)
  unfolding answer
  answer-Keeps none m = search keeps_rules
  answer-Keeps (some user) m = search (keeps_rules, sends)

  handle_access_request-Keeps :
      (msg : AccessRequestMessage) → Kept E P (handle_access_request E msg)
  unfolding handle_access_request
  handle_access_request-Keeps msg = answer-Keeps (request_target msg) (access_response msg)

  validated-Keeps :
      {M : Type 0} (run : M → Exec E.redis.State Unit) (o : Option M)
      → ((msg : M) → Kept E P (run msg))
      → Kept E P (validated E run o)
  unfolding validated
  validated-Keeps run none k = Keeps-pure tt
  validated-Keeps run (some msg) k = k msg

  in_set-Keeps : (texts : List String) (v : Value) → Kept E P (in_set texts v)
  unfolding in_set
  in_set-Keeps texts (str s) = Keeps-pure _
  in_set-Keeps texts (list vs) = Keeps-raise _
  in_set-Keeps texts (dict fs) = Keeps-raise _
  in_set-Keeps texts _ = Keeps-pure _

  case_keeps :
      {M : Type 0} (b : Bool) (run : M → Exec E.redis.State Unit) (o : Option M)
      (rest : Exec E.redis.State Unit)
      → ((msg : M) → Kept E P (run msg))
      → Kept E P rest
      → Kept E P (if b then validated E run o else rest)
  case_keeps true run o rest k r = validated-Keeps run o k
  case_keeps false run o rest k r = r

  dispatch-Keeps :
      (action event_type : Value) (d : Dict Value) → Kept E P (dispatch E action event_type d)
  unfolding dispatch
  dispatch-Keeps action event_type d =
      case_keeps (equals action "update_block") _ _ _ (update_block-Keeps E P N A) (
        case_keeps (equals action "update_blocks") _ _ _ (update_blocks-Keeps E P N A) (
          case_keeps (equals action "update_access") _ _ _ H.access (
            case_keeps (equals action "subscribe") _ _ _ H.subscription (
              case_keeps (equals action "unsubscribe") _ _ _ H.removal (
                case_keeps (equals action "sandbox_mode_changed") _ _ _ H.mode (
                  case_keeps (equals action "chat_event") _ _ _ handle_chat_event-Keeps (
                    case_keeps (equals action "access_request") _ _ _ handle_access_request-Keeps (
                      Keeps-bind _ _ (in_set-Keeps notification_event_types event_type) (λ known.
                        case_keeps known _ _ _ handle_notification_event-Keeps
                          (Keeps-pure tt))))))))))

  answer_broker-Keeps : (taken : Bool) → Kept E P (answer_broker taken)
  unfolding answer_broker
  answer_broker-Keeps taken = search keeps_rules

  settle-Keeps :
      (message : Message) (label : String) (m : Exec E.redis.State Unit)
      → Kept E P m
      → Kept E P (settle E message label m)
  unfolding settle
  settle-Keeps message label m k =
      Keeps-bind _ _
        (Keeps-try_except _ _
          (Keeps-bind _ _ k
            (λ _. Keeps-bind _ _ (answer_broker-Keeps message.takes_ack) (λ _. Keeps-pure true)))
          (λ _. Keeps-bind _ _ (answer_broker-Keeps message.takes_reject) (λ _. Keeps-pure false)))
        (λ done. Keeps-pure _)

  handle_fields-Keeps : (message : Message) (d : Dict Value) → Kept E P (handle_fields E message d)
  unfolding handle_fields
  handle_fields-Keeps message d =
      Keeps-bind _ _ (in_set-Keeps _ _) (λ known. settle-Keeps message _ _ (dispatch-Keeps _ _ d))

  handle_decoded-Keeps :
      (message : Message) (o : Option Value) → Kept E P (handle_decoded E message o)
  unfolding handle_decoded
  handle_decoded-Keeps message none =
      Keeps-bind _ _ (answer_broker-Keeps message.takes_reject) (λ _. Keeps-pure _)
  handle_decoded-Keeps message (some (dict fs)) = handle_fields-Keeps message (fields_dict fs)
  handle_decoded-Keeps message (some _) = Keeps-raise _

  handle_body-Keeps : (message : Message) (body : Body) → Kept E P (handle_body E message body)
  handle_body-Keeps message (readable body) = handle_decoded-Keeps message (E.runtime.loads body)
  handle_body-Keeps message unreadable = Keeps-raise _

  pub handle_message-Keeps : (message : Message) → Kept E P (handle_message E message)
  unfolding handle_message
  handle_message-Keeps message = handle_body-Keeps message message.body

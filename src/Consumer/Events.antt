-- ===== src/Consumer/Events.antt =====
-- Events that are routed to users and not stored: action_chat_event, action_notification_event and
-- action_access_request of app/rabbitmq_consumer.py.
use omnimap_sync.Prelude.{
  String, not, ◌==◌, Option, none, some, List, [], ◌∷◌, ◌++◌, map, is_empty, contains, Dict,
  if◌then◌else◌,
}
use omnimap_sync.Prelude.Assoc
use omnimap_sync.Value.{Value}
use omnimap_sync.Models.{
  UserId, id_text, id_truthy, id_value, ChatKind, dm, group_message, group_update, ChatEventMessage,
  dm_data, group_message_data, group_update_data, new_request, response, AccessRequestMessage,
  NotificationEventMessage, Outgoing, chat_event, reminder_event, subscription_event,
  access_request,
}
use omnimap_sync.World.{Exec, ◌>>◌, pure}
use omnimap_sync.Env.{Env}
use omnimap_sync.Manager.{send_personal_message, send_to_user, send_to_users}

abbrev pub reminder_event_types : List String
reminder_event_types =
    "reminder_created" ∷ "reminder_updated" ∷ "reminder_deleted" ∷ "reminder_triggered"
    ∷ "reminder_snoozed" ∷ []

abbrev pub subscription_event_types : List String
subscription_event_types =
    "subscription_created" ∷ "subscription_updated" ∷ "subscription_deleted" ∷ []

abbrev pub notification_event_types : List String
notification_event_types = reminder_event_types ++ subscription_event_types

-- `str(id) if id else None`
unfoldable pub id_or_none : Option UserId → Option String
id_or_none none = none
id_or_none (some id) = if id_truthy (some id) then some (id_text id) else none

abbrev message_or_empty : Option (Dict Value) → Dict Value
message_or_empty none = []
message_or_empty (some d) = d

-- The response of a direct message: the recipient is put into the message.
unfoldable pub dm_response : ChatEventMessage → Outgoing
dm_response msg = chat_event (
    dm_data msg.sender_id msg.recipient_id
      (Assoc.put (message_or_empty msg.message) "recipient_id" (id_value msg.recipient_id)))

-- The response of a new request has no answer in it, that of an answer no requester.
unfoldable pub access_response : AccessRequestMessage → Outgoing
access_response msg = elim msg.type [
  | new_request ↦ access_request (record {
    type = new_request;
    request_id = msg.request_id;
    requester = msg.requester;
    about_block = msg.about_block;
    owner_id = msg.owner_id;
    approved = none;
    permission = none;
    user_id = none;
  })
  | response ↦ access_request (record {
    type = response;
    request_id = msg.request_id;
    requester = none;
    about_block = msg.about_block;
    owner_id = none;
    approved = msg.approved;
    permission = msg.permission;
    user_id = msg.user_id;
  })
]

-- The user whom a request concerns.
abbrev pub request_target : AccessRequestMessage → Option UserId
request_target msg = elim msg.type [ new_request ↦ msg.owner_id | response ↦ msg.user_id ]

-- The response to a notification event, none for an unknown type.
unfoldable pub notification_response : NotificationEventMessage → Option Outgoing
notification_response msg =
    if contains reminder_event_types msg.type
    then some (reminder_event msg.type msg.content)
    else if contains subscription_event_types msg.type
    then some (subscription_event msg.type msg.content)
    else none

module _ (E : Env) where
  unfoldable pub echo_to : Option String → String → Outgoing → Exec E.redis.State Unit
  echo_to none recipient message = pure tt
  echo_to (some sender) recipient message =
      if sender == recipient
      then pure tt
      else do send_to_user E.redis E.settings sender message; pure tt

  -- To the recipient, and to the sender's other devices.
  unfoldable pub send_dm : ChatEventMessage → Option UserId → Exec E.redis.State Unit
  send_dm msg none = pure tt
  send_dm msg (some recipient) = if not (id_truthy (some recipient)) then pure tt else do
    send_to_user E.redis E.settings (id_text recipient) (dm_response msg)
    echo_to (id_or_none msg.sender_id) (id_text recipient) (dm_response msg)

  unfoldable pub send_group : ChatEventMessage → Outgoing → Option String → Exec E.redis.State Unit
  send_group msg message excluded = if is_empty msg.member_ids then pure tt else do
    send_to_users E.redis E.settings (map id_text msg.member_ids) message excluded
    pure tt

  -- The branches of `action_chat_event`.
  unfoldable pub chat_by_kind : ChatKind → ChatEventMessage → Exec E.redis.State Unit
  chat_by_kind dm msg = send_dm msg msg.recipient_id
  chat_by_kind group_message msg =
      send_group msg (chat_event (group_message_data msg.group_id msg.sender_id msg.message))
        (id_or_none msg.sender_id)
  chat_by_kind group_update msg =
      send_group msg (chat_event (group_update_data msg.group_id msg.group_action msg.content)) none

  unfoldable pub handle_chat_event : ChatEventMessage → Exec E.redis.State Unit
  handle_chat_event msg = chat_by_kind msg.type msg

  unfoldable pub send_if : Option Outgoing → String → Exec E.redis.State Unit
  send_if none user = pure tt
  send_if (some message) user = send_personal_message E.redis E.settings message user

  unfoldable pub handle_notification_event : NotificationEventMessage → Exec E.redis.State Unit
  handle_notification_event msg = send_if (notification_response msg) (id_text msg.user_id)

  unfoldable pub answer : Option UserId → Outgoing → Exec E.redis.State Unit
  answer none message = pure tt
  answer (some user) message =
      if not (id_truthy (some user))
      then pure tt
      else do send_to_user E.redis E.settings (id_text user) message; pure tt

  unfoldable pub handle_access_request : AccessRequestMessage → Exec E.redis.State Unit
  handle_access_request msg = answer (request_target msg) (access_response msg)

-- ===== src/Models.antt =====
-- app/models.py: the messages from RabbitMQ as pydantic hands them over, and those to clients.
-- Pydantic's validation, from the fields of a JSON object to these records, is a parameter.
use omnimap_sync.Prelude.{
  ℤ, pos, zero, suc, negsuc, String, Bool, true, false, not, ◌==◌, Option, none, some, List, Dict,
  integer_text,
}
use omnimap_sync.Value.{Value, null, int, str}

-- `int | str`, mostly of users
pub data UserId : Type 0 where
  num : ℤ → UserId
  text : String → UserId

-- The id as a JSON value, null for None.
abbrev pub id_value : Option UserId → Value
id_value none = null
id_value (some (num z)) = int z
id_value (some (text s)) = str s

-- str(id)
unfoldable pub id_text : UserId → String
id_text (num z) = integer_text z
id_text (text s) = s

-- bool(id) of `int | str | None`
unfoldable pub id_truthy : Option UserId → Bool
id_truthy none = false
id_truthy (some (num (pos zero))) = false
id_truthy (some (num (pos (suc n)))) = true
id_truthy (some (num (negsuc n))) = true
id_truthy (some (text s)) = not (s == "")

pub data SandboxMode : Type 0 where
  none_mode open_mode private_mode : SandboxMode

-- SandboxContextItem.mode is one of "open" and "private".
pub record SandboxContextItem : Type 0 where
  pub is_private : Bool
  pub creator_id : Option UserId

pub record UpdateBlockMessage : Type 0 where
  pub block_uuid : String
  pub block_data : Dict Value
  pub sandbox_context : Option (Dict SandboxContextItem)

pub record UpdateBlocksMessage : Type 0 where
  pub blocks : Dict (Dict Value)
  pub sandbox_context : Option (Dict SandboxContextItem)

pub data Permission : Type 0 where
  deny view edit edit_ac delete : Permission

pub record UpdateAccessMessage : Type 0 where
  pub user_id : UserId
  pub permission : Permission
  pub start_block_ids : List String
  pub block_uuids : List String
  pub block_data : Option (List (Dict Value))

pub record SubscribeMessage : Type 0 where
  pub user_id : UserId
  pub block_uuids : List String

pub record UnsubscribeMessage : Type 0 where
  pub block_uuids : List String

pub record SandboxModeChangedMessage : Type 0 where
  pub block_uuid : String
  pub sandbox_mode : SandboxMode
  pub creator_id : Option UserId

pub record NotificationEventMessage : Type 0 where
  pub type : String
  pub user_id : UserId
  pub content : Dict Value

pub data ChatKind : Type 0 where
  dm group_message group_update : ChatKind

pub record ChatEventMessage : Type 0 where
  pub type : ChatKind
  pub sender_id : Option UserId
  pub recipient_id : Option UserId
  pub group_id : Option String
  pub group_action : Option String
  pub message : Option (Dict Value)
  pub content : Option (Dict Value)
  pub member_ids : List UserId

pub data RequestKind : Type 0 where
  new_request response : RequestKind

pub record AccessRequestMessage : Type 0 where
  pub type : RequestKind
  pub request_id : String
  pub requester : Option (Dict Value)
  pub about_block : Option (Dict Value)
  pub owner_id : Option UserId
  pub approved : Option Bool
  pub permission : Option String
  pub user_id : Option UserId

pub record BlockUpdateResponse : Type 0 where
  pub block_uuid : String
  pub content : Dict Value

pub record BlockUpdatesResponse : Type 0 where
  pub updates : List (Dict Value)
  pub new_blocks : List (Dict Value)
  pub full_resync_required : Bool
  pub reason : Option String

pub record BlockUpdatesV2Response : Type 0 where
  pub updates : List (Dict Value)
  pub next_cursor : ℤ
  pub has_more : Bool
  pub subscription_version : ℤ
  pub full_resync_required : Bool
  pub reason : Option String

pub record BlockUpdateAccessResponse : Type 0 where
  pub start_block_ids : List (Dict Value)
  pub block_uuids : List String
  pub permission : Permission

pub record AccessRequestResponse : Type 0 where
  pub type : RequestKind
  pub request_id : String
  pub requester : Option (Dict Value)
  pub about_block : Option (Dict Value)
  pub owner_id : Option UserId
  pub approved : Option Bool
  pub permission : Option String
  pub user_id : Option UserId

-- The `data` of a ChatEventResponse, by its event_type.
pub data ChatData : Type 0 where
  -- sender_id, recipient_id, message, with its own recipient_id put in
  dm_data : Option UserId → Option UserId → Dict Value → ChatData
  -- group_id, sender_id, message
  group_message_data : Option String → Option UserId → Option (Dict Value) → ChatData
  -- group_id, group_action, data
  group_update_data : Option String → Option String → Option (Dict Value) → ChatData

-- What a WebSocket is sent: the dumps of the response models, and the pong.
pub data Outgoing : Type 0 where
  error : String → Outgoing
  pong : Outgoing
  block_update : BlockUpdateResponse → Outgoing
  block_updates_batch : List BlockUpdateResponse → Outgoing
  block_updates : BlockUpdatesResponse → Outgoing
  block_updates_v2 : BlockUpdatesV2Response → Outgoing
  block_update_access : BlockUpdateAccessResponse → Outgoing
  reminder_event : String → Dict Value → Outgoing
  subscription_event : String → Dict Value → Outgoing
  chat_event : ChatData → Outgoing
  sandbox_mode_changed : String → SandboxMode → Outgoing
  access_request : AccessRequestResponse → Outgoing

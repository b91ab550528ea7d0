-- ===== src/Env.antt =====
-- What app/ runs against: its settings, Redis, the language's runtime, pydantic, and the backend
-- that is asked over HTTP about a sandbox. All but the settings are not code of the repository.
use omnimap_sync.Prelude.{ℕ, String, Bool, Option, Dict}
use omnimap_sync.Value.{Value, Runtime}
use omnimap_sync.Config.{Settings}
use omnimap_sync.Models.{
  UpdateBlockMessage, UpdateBlocksMessage, UpdateAccessMessage, SubscribeMessage,
  UnsubscribeMessage, SandboxModeChangedMessage, NotificationEventMessage, ChatEventMessage,
  AccessRequestMessage,
}
use omnimap_sync.Redis.{Redis}

-- `Model(**message_data)`: `none` is a ValidationError.
pub record Validation : Type 0 where
  pub update_block : Dict Value → Option UpdateBlockMessage
  pub update_blocks : Dict Value → Option UpdateBlocksMessage
  pub update_access : Dict Value → Option UpdateAccessMessage
  pub subscribe : Dict Value → Option SubscribeMessage
  pub unsubscribe : Dict Value → Option UnsubscribeMessage
  pub sandbox_mode_changed : Dict Value → Option SandboxModeChangedMessage
  pub notification_event : Dict Value → Option NotificationEventMessage
  pub chat_event : Dict Value → Option ChatEventMessage
  pub access_request : Dict Value → Option AccessRequestMessage

pub record Env : Type 1 where
  pub redis : Redis
  pub settings : Settings
  pub runtime : Runtime
  pub validation : Validation
  -- HTTPX_AVAILABLE
  pub httpx_available : Bool
  -- GET {backend_url}/api/v1/blocks/{parent_id}/sandbox/: the status and the JSON object, or
  -- `none` if the request or its decoding raises
  pub fetch_sandbox : String → Option (ℕ × Dict Value)

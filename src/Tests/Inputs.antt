-- ===== src/Tests/Inputs.antt =====
-- Inputs for the tests: Redis is a function from keys, JSON is a table of four texts.
use omnimap_sync.Prelude.{
  String, true, false, none, some, List, [], ◌∷◌, refl, pos, if◌then◌else◌, ◌==◌,
}
use omnimap_sync.Value.{
  Fields, null, bool, int, float, str, list, dict, nil, end, field, Runtime, value_error,
}
use omnimap_sync.Config.{Settings, forbidden_block}
use omnimap_sync.Models.{text}
use omnimap_sync.Redis.{block, Entry, missing}
use omnimap_sync.Redis.Memory.{memory, empty}
use omnimap_sync.World.{World, Manager}
use omnimap_sync.Env.{Env, Validation}
use omnimap_sync.Utils.RoundTrip.{IsJson}
use omnimap_sync.Manager.Sandbox.{SandboxInfo}
use omnimap_sync.Prelude.{ℕ}
use omnimap_sync.Models.{UpdateBlockMessage, SandboxContextItem}
use omnimap_sync.Sync.Endpoint.{Identity, status, claims}
use omnimap_sync.Redis.{sadd}
use omnimap_sync.Consumer.Handle.{Body, Message}

-- {"action": "subscribe"}
abbrev pub subscribe_fields : Fields
subscribe_fields = field "action" (str "subscribe") end

abbrev pub runtime : Runtime
runtime = record {
  dumps = λ v. elim v [
    | null ↦ "null"
    | bool b ↦ if b then "true" else "false"
    | int z ↦ "0"
    | float s ↦ s
    | str s ↦ s
    | list vs ↦ "[]"
    | dict fs ↦ "{}"
  ];
  loads = λ s.
      if s == "[]"
      then some (list nil)
      else if s == "{}"
      then some (dict end)
      else if s == "subscribe"
      then some (dict subscribe_fields)
      else none;
  repr = λ v. "";
  int_float = λ v. value_error;
  int_of = λ v. value_error;
}

abbrev pub runtime-IsJson : IsJson runtime
runtime-IsJson = record {
  dumps_true = refl;
  dumps_false = refl;
  dumps_dict = λ fs. refl;
  dumps_list = λ vs. refl;
}

abbrev pub settings : Settings
settings = record {
  block_portion = 2;
  max_concurrent_sends = 10;
  sync_v2_enabled = true;
  get_updates_v2_default_limit = 2000;
  get_updates_v2_max_limit = 10000;
  changelog_max_len = 1000;
  ws_idle_timeout_seconds = 300;
  online_status_ttl = 300;
  anonim_user = pos 2;
  forbidden_block = forbidden_block;
  backend_url = "";
  service_token = "";
  exchange_type = "Topic";
  queue_name = "block_update";
  exchange_name = "block_update";
  routing_key = "block_update";
  changelog_key = "sync:changelog";
  changelog_seq_key = "sync:seq";
  subscription_version_key_prefix = "sync:subver:";
}

abbrev pub validation : Validation
validation = record {
  update_block = λ d. none;
  update_blocks = λ d. none;
  update_access = λ d. none;
  subscribe = λ d. some (record { user_id = text "7"; block_uuids = "a" ∷ "b" ∷ "c" ∷ [] });
  unsubscribe = λ d. none;
  sandbox_mode_changed = λ d. none;
  notification_event = λ d. none;
  chat_event = λ d. none;
  access_request = λ d. none;
}

abbrev pub env : Env
env = record {
  redis = memory;
  settings = settings;
  runtime = runtime;
  validation = validation;
  httpx_available = false;
  fetch_sandbox = λ p. none;
}

abbrev pub manager : Manager
manager = record {
  active = [];
  locks = [];
  connections_active = pos 0;
  connections_total = 0;
  disconnections_total = 0;
  users_active = 0;
  messages_sent = 0;
  send_errors = 0;
}

-- The third request to Redis fails, and socket 1 is dead.
abbrev pub world : World memory.State
world = record {
  redis = empty;
  faults = false ∷ false ∷ true ∷ [];
  manager = manager;
  dead = 1 ∷ [];
  frames = [];
  spawned = [];
}

abbrev pub private_sandbox : SandboxInfo
private_sandbox = record { mode = "private"; creator_id = "9" }

abbrev pub reply : List String → Entry
reply users = record missing { members = users }

abbrev pub calm : World memory.State
calm = record world { faults = [] }

abbrev pub private_context : SandboxContextItem
private_context = record { is_private = true; creator_id = some (text "9") }

abbrev pub private_update : UpdateBlockMessage
private_update = record {
  block_uuid = "a";
  block_data = ("parent_id", str "p") ∷ ("creator_id", str "7") ∷ [];
  sandbox_context = some (("p", private_context) ∷ []);
}

abbrev pub log : List (String × ℕ)
log = ("1:upsert:a", 1) ∷ ("2:upsert:b", 2) ∷ ("3:delete:a", 3) ∷ []

-- Every token is of user 7.
abbrev pub identity : Identity
identity = record {
  post = λ token. status 200;
  decode = λ token. claims (("user_id", str "7") ∷ []);
}

-- Users 7 and 8 are subscribed to block a.
abbrev pub subscribed : World memory.State
subscribed = record calm {
  redis = memory.write (memory.write empty (block "a") (sadd "7")) (block "a") (sadd "8");
}

abbrev pub message : Body → Message
message body = record { body = body; takes_ack = true; takes_reject = true }

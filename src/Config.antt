-- ===== src/Config.antt =====
-- app/config.py: the settings that the handlers read, and the check of the JWT key.
use Prim.Native.String.{count}
use omnimap_sync.Prelude.{
  ℕ, ℤ, pos, String, Bool, Option, none, some, ◌==◌, ◌||◌, ltb, if◌then◌else◌, Dict, [], ◌∷◌,
}
use omnimap_sync.Value.{Value, int, str}

pub record Settings : Type 0 where
  -- chunk size for Redis pipelines
  pub block_portion : ℕ
  pub max_concurrent_sends : ℕ
  pub sync_v2_enabled : Bool
  pub get_updates_v2_default_limit : ℕ
  pub get_updates_v2_max_limit : ℕ
  pub changelog_max_len : ℕ
  pub ws_idle_timeout_seconds : ℕ
  pub online_status_ttl : ℕ
  pub anonim_user : ℤ
  pub forbidden_block : Dict Value
  pub backend_url : String
  pub service_token : String
  pub exchange_type : String
  pub queue_name : String
  pub exchange_name : String
  pub routing_key : String
  pub changelog_key : String
  pub changelog_seq_key : String
  pub subscription_version_key_prefix : String

-- The defaults of the class.
abbrev pub forbidden_block : Dict Value
forbidden_block =
    ("id", str "")
    ∷ ("title", str "block 403 forbidden")
    ∷ ("children", str "[]")
    ∷ ("updated_at", int (pos 946684801))
    ∷ ("data", str "{\"color\": [0, 100, 100, 0], \"childOrder\": []}")
    ∷ []

-- What an unset key becomes in tests.
abbrev test_secret_key : String
test_secret_key = "test_secret_key_for_testing_only_32ch"

-- `validate_jwt_secret_key`: `none` is the ValueError; `testing` is whether the environment variable
-- TESTING says so.
unfoldable pub validate_jwt_secret_key : Bool → String → Option String
validate_jwt_secret_key testing v =
    if v == "" || ltb (count v) 32
    then if testing then some (if v == "" then test_secret_key else v) else none
    else some v

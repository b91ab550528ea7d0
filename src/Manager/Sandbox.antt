-- ===== src/Manager/Sandbox.antt =====
-- The sandbox cache of app/connection_manager.py, and the filter for private sandboxes.
use omnimap_sync.Prelude.{
  ℕ, String, Bool, false, not, ◌&&◌, ◌||◌, ◌==◌, Option, none, some, List, [], ◌∷◌, Dict, eqb,
  is_empty, if◌then◌else◌,
}
use omnimap_sync.Prelude.Assoc
use omnimap_sync.Value.{Value, null, str, truthy, to_str, Runtime}
use omnimap_sync.Redis.{Key, sandbox, Command, hset, expire, delete}
use omnimap_sync.World.{Exec, ◌>>=◌, ◌>>◌, pure, try_except, write_all, read}
use omnimap_sync.Env.{Env}

pub record SandboxInfo : Type 0 where
  pub mode : String
  pub creator_id : String

-- SANDBOX_CACHE_TTL
abbrev sandbox_cache_ttl : ℕ
sandbox_cache_ttl = 86400

abbrev pub is_sandbox_mode : String → Bool
is_sandbox_mode mode = mode == "open" || mode == "private"

-- `sandbox_mode in ("open", "private")`
abbrev pub value_is_sandbox_mode : Value → Bool
value_is_sandbox_mode (str mode) = is_sandbox_mode mode
value_is_sandbox_mode _ = false

abbrev text_or : String → Option String → String
text_or default none = default
text_or default (some s) = s

-- `d.get(k)`, None if the key is not there
abbrev pub get_value : Dict Value → String → Value
get_value d k = elim (Assoc.get d k) [ none ↦ null | some v ↦ v ]

-- What a sandbox key holds, if it is one of a sandbox.
unfoldable pub info_of_fields : Dict String → Option SandboxInfo
info_of_fields fields =
    if not (is_empty fields) && is_sandbox_mode (text_or "" (Assoc.get fields "mode"))
    then some (record {
      mode = text_or "" (Assoc.get fields "mode");
      creator_id = text_or "" (Assoc.get fields "creator_id");
    })
    else none

-- `str(x) if x else ""`
unfoldable pub str_or_empty : Runtime → Value → String
str_or_empty rt v = if truthy v then to_str rt v else ""

-- The users who may see a block of a private sandbox: its creator and the container's owner.
unfoldable pub filter_subscribers_for_private_sandbox :
    Runtime → List String → Value → String → List String
filter_subscribers_for_private_sandbox rt [] block_creator_id container_owner_id = []
filter_subscribers_for_private_sandbox rt (user ∷ users) block_creator_id container_owner_id =
    let filtered =
      filter_subscribers_for_private_sandbox rt users block_creator_id container_owner_id in
    if user == str_or_empty rt block_creator_id || user == container_owner_id
    then user ∷ filtered
    else filtered

module _ (E : Env) where
  -- The commands of `update_sandbox_cache`: a pipeline, or one DELETE.
  unfoldable pub sandbox_commands : String → Value → Value → List (Key × Command)
  sandbox_commands block_uuid sandbox_mode creator_id =
      if truthy sandbox_mode && value_is_sandbox_mode sandbox_mode
      then (
        sandbox block_uuid,
        hset (
            ("mode", to_str E.runtime sandbox_mode)
            ∷ ("creator_id", str_or_empty E.runtime creator_id)
            ∷ []),
      )
        ∷ (sandbox block_uuid, expire sandbox_cache_ttl)
        ∷ []
      else (sandbox block_uuid, delete) ∷ []

  unfoldable pub update_sandbox_cache : String → Value → Value → Exec E.redis.State Unit
  update_sandbox_cache block_uuid sandbox_mode creator_id =
      try_except (write_all E.redis (sandbox_commands block_uuid sandbox_mode creator_id))
        (λ _. pure tt)

  unfoldable pub get_sandbox_info : String → Exec E.redis.State (Option SandboxInfo)
  get_sandbox_info block_uuid =
      if block_uuid == ""
      then pure none
      else try_except
          (do entry ← read E.redis (sandbox block_uuid); pure (info_of_fields entry.fields))
          (λ _. pure none)

  -- The answer of the backend, with its mode and creator, if it says that there is a sandbox.
  unfoldable pub info_of_backend : Option (ℕ × Dict Value) → Option SandboxInfo
  info_of_backend none = none
  info_of_backend (some (status, info)) =
      if eqb status 200 && value_is_sandbox_mode (get_value info "sandbox_mode")
      then some (record {
        mode = to_str E.runtime (get_value info "sandbox_mode");
        creator_id = elim (Assoc.get info "creator_id") [ none ↦ "" | some v ↦ to_str E.runtime v ];
      })
      else none

  unfoldable pub cache_backend_info :
      String → Option SandboxInfo → Exec E.redis.State (Option SandboxInfo)
  cache_backend_info parent_id none = pure none
  cache_backend_info parent_id (some info) = do
    update_sandbox_cache parent_id (str info.mode) (str info.creator_id)
    pure (some info)

  unfoldable pub ask_backend : String → Exec E.redis.State (Option SandboxInfo)
  ask_backend parent_id =
      if E.httpx_available
        && (not (E.settings.backend_url == "") && not (E.settings.service_token == ""))
      then cache_backend_info parent_id (info_of_backend (E.fetch_sandbox parent_id))
      else pure none

  unfoldable pub cached_or :
      Option SandboxInfo
      → Exec E.redis.State (Option SandboxInfo)
      → Exec E.redis.State (Option SandboxInfo)
  cached_or (some info) fallback = pure (some info)
  cached_or none fallback = fallback

  unfoldable pub get_parent_sandbox_info : String → Exec E.redis.State (Option SandboxInfo)
  get_parent_sandbox_info parent_id =
      if parent_id == ""
      then pure none
      else do cached ← get_sandbox_info parent_id; cached_or cached (ask_backend parent_id)

-- ===== src/Sync/Endpoint.antt =====
-- websocket_endpoint of app/websockets.py, and verify_jwt of app/auth.py.
use omnimap_sync.Prelude.{
  ℕ, ℤ, pos, pos_part, String, Bool, true, false, not, ◌&&◌, ◌==◌, Option, none, some, List, [],
  ◌∷◌, eqb, Dict, if◌then◌else◌,
}
use omnimap_sync.Prelude.Assoc
use omnimap_sync.Value.{Value, int, list, dict, nil, truthy, to_str, Conversion, converted}
use omnimap_sync.Models.{error, pong}
use omnimap_sync.World.{
  Socket, Exn, cancelled, attribute_error, overflow_error, Exec, ◌>>=◌, ◌>>◌, pure, raise,
  try_finally,
}
use omnimap_sync.Env.{Env}
use omnimap_sync.Manager.{is_anonymous, connect, disconnect, refresh_user_online_ttl}
use omnimap_sync.Manager.Sandbox.{get_value}
use omnimap_sync.Consumer.Handle.{fields_dict, equals, in_set}
use omnimap_sync.Sync.V1.{handle_get_updates}
use omnimap_sync.Sync.V2.{reply, handle_get_updates_v2}

-- How the POST to the auth service ends: with a status, or with an exception.
pub data AuthReply : Type 0 where
  status : ℕ → AuthReply
  timeout connect_error unexpected_error : AuthReply

-- How `jwt.decode` ends.
pub data Decoded : Type 0 where
  claims : Dict Value → Decoded
  expired invalid : Decoded

-- The auth service and the JWT library.
pub record Identity : Type 0 where
  pub post : String → AuthReply
  pub decode : String → Decoded

abbrev is_success : AuthReply → Bool
is_success (status n) = eqb n 200
is_success _ = false

unfoldable pub verify_jwt : Identity → String → Bool
verify_jwt identity token = is_success (identity.post token)

-- What the checks before the connection end in: an error message, or the user's id.
pub data Admission : Type 0 where
  refused admitted : String → Admission

-- How a connection ends.
pub data Ending : Type 0 where
  -- what `receive_text` raises, with a clause for each
  idle_timeout gone receive_error : Ending
  -- what no clause catches: a cancellation, or a text on which `json.loads` raises no JSONDecodeError
  uncaught : Exn → Ending
  -- a cancellation before all texts, where `connect` waits for Redis
  cancelled_connecting : Ending

-- The code that the server closes the connection with, if it does.
pub data Closing : Type 0 where
  closed : ℕ → Closing
  left_open : Closing

-- The end of the loop.
unfoldable pub stop : {S : Type 0} → Ending → Exec S Closing
stop idle_timeout = pure (closed 1001)
stop (uncaught e) = raise e
stop cancelled_connecting = raise cancelled
stop _ = pure left_open

abbrev pub is_cancelled_connecting : Ending → Bool
is_cancelled_connecting cancelled_connecting = true
is_cancelled_connecting _ = false

-- _KNOWN_WS_ACTIONS
abbrev known_ws_actions : List String
known_ws_actions = "ping" ∷ "get_updates" ∷ "get_updates_v2" ∷ []

-- `d.get(k, default)`
abbrev value_or : Value → Option Value → Value
value_or default none = default
value_or default (some v) = v

-- `v or default`
abbrev or_default : Value → Value → Value
or_default v default = if truthy v then v else default

-- `int(v)`, the default for what is no number; infinity is not caught.
abbrev pub int_or : {S : Type 0} → ℤ → Conversion → Exec S ℤ
int_or default (converted z) = pure z
int_or default Conversion.overflow_error = raise overflow_error
int_or default _ = pure default

module _ (E : Env) where
  abbrev pub admit_claims : Decoded → Admission
  admit_claims expired = refused "Token has expired."
  admit_claims invalid = refused "Invalid token."
  admit_claims (claims d) =
      if truthy (get_value d "user_id")
      then admitted (to_str E.runtime (get_value d "user_id"))
      else refused "user_id is missing in token."

  -- Steps 1 to 3: no token or an empty one is refused first.
  unfoldable pub admit : Identity → Option String → Admission
  admit identity none = refused "Token is required."
  admit identity (some token) =
      if token == ""
      then refused "Token is required."
      else if not (verify_jwt identity token)
      then refused "Token verification failed."
      else admit_claims (identity.decode token)

  -- `int(data.get(key, default) or default)`
  unfoldable pub int_field : Dict Value → String → ℤ → Exec E.redis.State ℤ
  int_field request key default =
      int_or default (
        E.runtime.int_of
          (or_default (value_or (int default) (Assoc.get request key)) (int default)))

  unfoldable pub ask_v2 : Socket → String → Dict Value → Exec E.redis.State Unit
  ask_v2 websocket user request =
      if not E.settings.sync_v2_enabled
      then reply websocket (error "get_updates_v2 is disabled.")
      else do
        cursor ← int_field request "cursor" (pos 0)
        version ← int_field request "subscription_version" (pos 0)
        limit ← int_field request "limit" (pos E.settings.get_updates_v2_default_limit)
        handle_get_updates_v2 E websocket user (pos_part cursor) (pos_part version) limit

  unfoldable pub ping : Socket → String → Exec E.redis.State Unit
  ping websocket user = do reply websocket pong; refresh_user_online_ttl E.redis E.settings user

  -- The request of a JSON object; the test for a known action is the metric's.
  unfoldable pub act : Socket → String → Dict Value → Exec E.redis.State Unit
  act websocket user request = do
    in_set known_ws_actions (get_value request "action")
    if equals (get_value request "action") "ping"
        then ping websocket user
        else if equals (get_value request "action") "get_updates"
        then handle_get_updates E websocket user (value_or (list nil) (Assoc.get request "blocks"))
        else if equals (get_value request "action") "get_updates_v2"
        then ask_v2 websocket user request
        else reply websocket (error "Unknown action.")

  abbrev pub receive_decoded : Socket → String → Option Value → Exec E.redis.State Unit
  receive_decoded websocket user none = reply websocket (error "Invalid JSON format.")
  receive_decoded websocket user (some (dict fs)) = act websocket user (fields_dict fs)
  receive_decoded websocket user (some v) = raise attribute_error

  -- The loop over what the client sends, until it stops.
  unfoldable pub serve : Socket → String → List String → Ending → Exec E.redis.State Closing
  serve websocket user [] ending = stop ending
  serve websocket user (message ∷ messages) ending = do
    receive_decoded websocket user (E.runtime.loads message)
    serve websocket user messages ending

  -- `connect` is outside of the `try`. It does not wait for Redis for the anonymous user.
  abbrev pub enter : Socket → List String → Ending → Admission → Exec E.redis.State Closing
  enter websocket messages ending (refused message) = do
    reply websocket (error message)
    pure (closed 1008)
  enter websocket messages ending (admitted user) = do
    connect E.redis E.settings user websocket
    if is_cancelled_connecting ending && not (is_anonymous E.redis E.settings user)
        then raise cancelled
        else try_finally (serve websocket user messages ending)
            (disconnect E.redis E.settings user websocket)

  unfoldable pub websocket_endpoint :
      Identity → Socket → Option String → List String → Ending → Exec E.redis.State Closing
  websocket_endpoint identity websocket token messages ending =
      enter websocket messages ending (admit identity token)

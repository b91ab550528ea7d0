-- ===== src/Manager.antt =====
-- app/connection_manager.py: the connections of each user, the online counters and the sandbox
-- cache in Redis, and who receives what.
pub mod Connections
pub mod Coroutines
pub mod Interleaving
pub mod Sandbox
use omnimap_sync.Prelude.{
  ℕ, ℤ, pos, negsuc, ◌+ℤ◌, ◌+◌, String, Bool, true, false, not, ◌&&◌, ◌||◌, ◌==◌, Option, none,
  some, List, [], ◌∷◌, ◌++◌, Dict, contains, insert, remove, length, is_empty, eqb, lebℤ,
  integer_text, if◌then◌else◌,
}
use omnimap_sync.Prelude.Assoc
use omnimap_sync.Config.{Settings}
use omnimap_sync.Models.{Outgoing}
use omnimap_sync.Redis.{
  Key, user_online, Command, incrby, expire, delete, Entry, number_or_zero, Redis,
}
use omnimap_sync.World.{
  World, Socket, Manager, Exn, Exec, ok, ◌>>=◌, ◌>>◌, pure, gets, try_except, for_each,
  update_manager, write_all, write_read,
}

-- `websocket in connections`
abbrev pub has_socket : List Socket → Socket → Bool
has_socket [] ws = false
has_socket (x ∷ xs) ws = eqb x ws || has_socket xs ws

-- `connections.remove(websocket)`: the first of them.
abbrev pub remove_socket : List Socket → Socket → List Socket
remove_socket [] ws = []
remove_socket (x ∷ xs) ws = if eqb x ws then xs else x ∷ remove_socket xs ws

abbrev some_or_nil : Option (List Socket) → List Socket
some_or_nil none = []
some_or_nil (some xs) = xs

-- `self.active_connections.get(user_id, [])`
abbrev pub connections_of : Manager → String → List Socket
connections_of m user = some_or_nil (Assoc.get m.active user)

-- `_get_user_lock`: the user has a lock afterwards.
unfoldable pub get_user_lock : String → Manager → Manager
get_user_lock user m = record m { locks = insert user m.locks }

-- The body of `connect` under the lock, and its metrics.
unfoldable pub add_connection : String → Socket → Manager → Manager
add_connection user ws m =
    let active = Assoc.put m.active user (connections_of m user ++ ws ∷ []) in
    record m {
      active = active;
      connections_active = m.connections_active +ℤ pos 1;
      connections_total = m.connections_total + 1;
      users_active = length active;
    }

-- The body of `disconnect` under the lock for a socket that is there, and its metrics. A user
-- without connections has no entry.
unfoldable pub drop_connection : String → Socket → Manager → Manager
drop_connection user ws m =
    let rest = remove_socket (connections_of m user) ws in
    let active =
      if is_empty rest then Assoc.delete m.active user else Assoc.put m.active user rest in
    record m {
      active = active;
      connections_active = m.connections_active +ℤ negsuc 0;
      disconnections_total = m.disconnections_total + 1;
      users_active = length active;
    }

-- The end of `disconnect`: the lock goes if the user still has no connection.
unfoldable pub cleanup_lock : String → Manager → Manager
cleanup_lock user m =
    if contains (Assoc.keys m.active) user then m else record m { locks = remove user m.locks }

abbrev pub is_excluded : Option String → String → Bool
is_excluded none user = false
is_excluded (some excluded) user = user == excluded

module _ (R : Redis) (st : Settings) where
  -- ANON_USER_ID
  abbrev pub is_anonymous : String → Bool
  is_anonymous user = user == integer_text st.anonim_user

  unfoldable pub increment_online_counter : String → Exec R.State Unit
  increment_online_counter user =
      try_except
        (write_all R (
          (user_online user, incrby (pos 1))
          ∷ (user_online user, expire st.online_status_ttl)
          ∷ []))
        (λ _. pure tt)

  unfoldable pub decrement_online_counter : String → Exec R.State Unit
  decrement_online_counter user =
      try_except
        (do
          current ← write_read R (user_online user) (incrby (negsuc 0))
          if lebℤ (number_or_zero current.number) (pos 0)
              then write_all R ((user_online user, delete) ∷ [])
              else pure tt)
        (λ _. pure tt)

  -- Refreshed on a ping. EXPIRE does nothing to a key that is not there.
  unfoldable pub refresh_user_online_ttl : String → Exec R.State Unit
  refresh_user_online_ttl user =
      if is_anonymous user
      then pure tt
      else try_except (write_all R ((user_online user, expire st.online_status_ttl) ∷ []))
          (λ _. pure tt)

  unfoldable pub connect : String → Socket → Exec R.State Unit
  connect user ws = do
    update_manager (get_user_lock user)
    update_manager (add_connection user ws)
    if is_anonymous user then pure tt else increment_online_counter user

  unfoldable pub disconnect : String → Socket → Exec R.State Unit
  disconnect user ws = do
    update_manager (get_user_lock user)
    connections ← gets (λ w. connections_of w.manager user)
    if not (has_socket connections ws) then pure tt else do
      update_manager (drop_connection user ws)
      if is_anonymous user then pure tt else decrement_online_counter user
      if is_empty (remove_socket connections ws)
          then update_manager (cleanup_lock user)
          else pure tt

  -- `websocket.send_json`: whether the socket takes the message.
  abbrev pub send_json : Outgoing → Socket → Exec R.State Bool
  send_json message ws w =
      if has_socket w.dead ws
      then (ok false, w)
      else (ok true, record w { frames = w.frames ++ (ws, message) ∷ [] })

  -- A socket that does not take the message is disconnected.
  unfoldable pub send_message_to_socket : Outgoing → String → Socket → Exec R.State Unit
  send_message_to_socket message user ws = do
    taken ← send_json message ws
    if taken then update_manager (λ m. record m { messages_sent = m.messages_sent + 1 }) else do
      update_manager (λ m. record m { send_errors = m.send_errors + 1 })
      disconnect user ws

  -- The sends of `asyncio.gather(..., return_exceptions=True)`.
  unfoldable pub send_to_sockets : Outgoing → String → List Socket → Exec R.State Unit
  send_to_sockets message user sockets =
      for_each sockets (λ ws. try_except (send_message_to_socket message user ws) (λ _. pure tt))

  -- `send_to_user`: whether the user has connections. They are copied under the lock.
  unfoldable pub send_to_user : String → Outgoing → Exec R.State Bool
  send_to_user user message = do
    update_manager (get_user_lock user)
    connections ← gets (λ w. connections_of w.manager user)
    if is_empty connections
        then pure false
        else do send_to_sockets message user connections; pure true

  -- `send_personal_message`. The two branches of the code differ in that the anonymous user's
  -- sends also pass a semaphore, which bounds how many run at once.
  unfoldable pub send_personal_message : Outgoing → String → Exec R.State Unit
  send_personal_message message user = do
    update_manager (get_user_lock user)
    connections ← gets (λ w. connections_of w.manager user)
    if is_empty connections then pure tt else send_to_sockets message user connections

  -- `_send_message_to_subscribers_impl`, the body of the task that
  -- `send_message_to_subscribers` creates.
  unfoldable pub send_message_to_subscribers_impl : Outgoing → List String → Exec R.State Unit
  send_message_to_subscribers_impl message subscribers =
      for_each subscribers (λ user. try_except (send_personal_message message user) (λ _. pure tt))

  -- `send_to_users`: for each user that is not excluded whether the message was delivered.
  unfoldable pub send_to_users_from :
      Dict Bool → List String → Outgoing → Option String → Exec R.State (Dict Bool)
  send_to_users_from results [] message excluded = pure results
  send_to_users_from results (user ∷ users) message excluded =
      if is_excluded excluded user then send_to_users_from results users message excluded else do
        delivered ← send_to_user user message
        send_to_users_from (Assoc.put results user delivered) users message excluded

  abbrev pub send_to_users : List String → Outgoing → Option String → Exec R.State (Dict Bool)
  send_to_users = send_to_users_from []

-- ===== src/Manager/Coroutines.antt =====
-- The coroutines of `ConnectionManager` and its books.
use omnimap_sync.Prelude.{
  String, Bool, true, List, [], ◌∷◌, contains, contains-insert, is_empty, eq_iff, if◌then◌else◌,
  ◌≡◌, arith, Bool-cases, inl, inr, Option, Dict,
}
use omnimap_sync.Prelude.Assoc
use omnimap_sync.Config.{Settings}
use omnimap_sync.Models.{Outgoing}
use omnimap_sync.Redis.{Key, Command, Redis}
use omnimap_sync.World.{
  World, Socket, Manager, Exec, pure, ◌>>=◌, ◌>>◌, for_each, update_manager, write_all, write_read,
}
use omnimap_sync.World.Keeps.{
  Keeps, Keeps-write_all, Keeps-write_read, keeps_rules, Keeps-bind, Keeps-if, Keeps-for_each,
}
use omnimap_sync.Manager.{
  has_socket, remove_socket, connections_of, get_user_lock, add_connection, drop_connection,
  cleanup_lock, is_anonymous, increment_online_counter, decrement_online_counter, connect,
  disconnect, send_json, send_message_to_socket, send_to_sockets, send_to_user,
  send_personal_message, send_message_to_subscribers_impl, send_to_users_from, is_excluded,
}
use omnimap_sync.Manager.Connections.{
  IsConsistent, get_user_lock-IsConsistent, add_connection-IsConsistent,
  drop_connection-IsConsistent, cleanup_lock-IsConsistent,
}

pub contains-get_user_lock :
    (u : String) (m : Manager) → contains (get_user_lock u m).locks u ≡ true
unfolding get_user_lock
contains-get_user_lock u m = rw contains-insert (ground (arith, eq_iff u u))

module _ (R : Redis) (st : Settings) where
  -- The books of the manager are consistent.
  abbrev pub Consistent : World R.State → Type 0
  Consistent w = IsConsistent w.manager

  free : (w : World R.State) (fs : List Bool) → Consistent w → Consistent (record w { faults = fs })
  free w fs h = h

  write_all-Keeps : (cs : List (Key × Command)) → Keeps Consistent (write_all R cs)
  write_all-Keeps cs = Keeps-write_all R Consistent free cs (λ w h. h)

  write_read-Keeps : (k : Key) (c : Command) → Keeps Consistent (write_read R k c)
  write_read-Keeps k c = Keeps-write_read R Consistent free k c (λ w h. h)

  lock-Keeps : (u : String) → Keeps Consistent (update_manager (get_user_lock u))
  unfolding update_manager
  lock-Keeps u = record { at = λ w h. get_user_lock-IsConsistent u w.manager h }

  cleanup-Keeps : (u : String) → Keeps Consistent (update_manager (cleanup_lock u))
  unfolding update_manager
  cleanup-Keeps u = record { at = λ w h. cleanup_lock-IsConsistent u w.manager h }

  ruleset local_rules = (keeps_rules, write_all-Keeps, write_read-Keeps, lock-Keeps, cleanup-Keeps)

  increment_online_counter-Keeps : (u : String) → Keeps Consistent (increment_online_counter R st u)
  unfolding increment_online_counter
  increment_online_counter-Keeps u = search (keeps_rules, write_all-Keeps)

  decrement_online_counter-Keeps : (u : String) → Keeps Consistent (decrement_online_counter R st u)
  unfolding decrement_online_counter
  decrement_online_counter-Keeps u = search (keeps_rules, write_all-Keeps, write_read-Keeps)

  went_online-Keeps :
      (u : String)
      → Keeps Consistent (if is_anonymous R st u then pure tt else increment_online_counter R st u)
  went_online-Keeps u = search (keeps_rules, increment_online_counter-Keeps)

  went_offline-Keeps :
      (u : String) (last : Bool)
      → Keeps Consistent (do
        if is_anonymous R st u then pure tt else decrement_online_counter R st u
        if last then update_manager (cleanup_lock u) else pure tt)
  went_offline-Keeps u last = search (keeps_rules, decrement_online_counter-Keeps, cleanup-Keeps)

  pub connect-Keeps : (u : String) (ws : Socket) → Keeps Consistent (connect R st u ws)
  unfolding connect ◌>>=◌ update_manager
  connect-Keeps u ws = record {
    at = λ w h.
        (went_online-Keeps u).at
          (record w { manager = add_connection u ws (get_user_lock u w.manager) })
          (add_connection-IsConsistent u ws (get_user_lock u w.manager)
            (get_user_lock-IsConsistent u w.manager h) (contains-get_user_lock u w.manager));
  }

  pub disconnect-Keeps : (u : String) (ws : Socket) → Keeps Consistent (disconnect R st u ws)
  unfolding disconnect ◌>>=◌ update_manager
  disconnect-Keeps u ws = record {
    at = λ w h.
        let locked = get_user_lock u w.manager in
        let c = get_user_lock-IsConsistent u w.manager h in
        elim (Bool-cases (has_socket (connections_of locked u) ws)) [
          | inl there ↦ rw there (
              (went_offline-Keeps u (is_empty (remove_socket (connections_of locked u) ws))).at
                (record w { manager = drop_connection u ws locked })
                (drop_connection-IsConsistent u ws locked c there
                  (contains-get_user_lock u w.manager)))
          | inr gone ↦ rw gone c
        ];
  }

  counted-Keeps :
      (f : Manager → Manager)
      → ((m : Manager) → IsConsistent m → IsConsistent (f m))
      → Keeps Consistent (update_manager f)
  unfolding update_manager
  counted-Keeps f k = record { at = λ w h. k w.manager h }

  send_json-Keeps :
      (message : Outgoing) (ws : Socket) → Keeps Consistent (send_json R st message ws)
  send_json-Keeps message ws = record { at = λ w h. ground arith }

  pub send_message_to_socket-Keeps :
      (message : Outgoing) (u : String) (ws : Socket)
      → Keeps Consistent (send_message_to_socket R st message u ws)
  unfolding send_message_to_socket
  send_message_to_socket-Keeps message u ws =
      Keeps-bind (send_json R st message ws) _ (send_json-Keeps message ws) (λ taken.
        Keeps-if taken _ _
          (λ _. counted-Keeps _ (λ m c. record {
            listed = c.listed;
            active = c.active;
            total = c.total;
            users = c.users;
          }))
          (λ _.
            Keeps-bind _ _
              (counted-Keeps _ (λ m c. record {
                listed = c.listed;
                active = c.active;
                total = c.total;
                users = c.users;
              }))
              (λ _. disconnect-Keeps u ws)))

  pub send_to_sockets-Keeps :
      (message : Outgoing) (u : String) (sockets : List Socket)
      → Keeps Consistent (send_to_sockets R st message u sockets)
  unfolding send_to_sockets
  send_to_sockets-Keeps message u sockets = search (keeps_rules, send_message_to_socket-Keeps)

  pub send_to_user-Keeps :
      (u : String) (message : Outgoing) → Keeps Consistent (send_to_user R st u message)
  unfolding send_to_user
  send_to_user-Keeps u message = search (keeps_rules, lock-Keeps, send_to_sockets-Keeps)

  pub send_personal_message-Keeps :
      (message : Outgoing) (u : String) → Keeps Consistent (send_personal_message R st message u)
  unfolding send_personal_message
  send_personal_message-Keeps message u = search (keeps_rules, lock-Keeps, send_to_sockets-Keeps)

  pub broadcast-Keeps :
      (message : Outgoing) (us : List String)
      → Keeps Consistent (send_message_to_subscribers_impl R st message us)
  unfolding send_message_to_subscribers_impl
  broadcast-Keeps message us = search (keeps_rules, send_personal_message-Keeps)

  send_to_users_from-Keeps :
      (results : Dict Bool) (us : List String) (message : Outgoing) (excluded : Option String)
      → Keeps Consistent (send_to_users_from R st results us message excluded)
  unfolding send_to_users_from
  send_to_users_from-Keeps results [] message excluded = search keeps_rules
  send_to_users_from-Keeps results (u ∷ us) message excluded =
      Keeps-if (is_excluded excluded u) _ _
        (λ _. send_to_users_from-Keeps results us message excluded)
        (λ _.
          Keeps-bind _ _ (send_to_user-Keeps u message)
            (λ d. send_to_users_from-Keeps (Assoc.put results u d) us message excluded))

  -- The calls that the rest of the program makes of the manager.
  pub data Call : Type 0 where
    connects disconnects : String → Socket → Call
    sends : Outgoing → String → Call
    broadcasts : Outgoing → List String → Call

  unfoldable pub perform : Call → Exec R.State Unit
  perform (connects u ws) = connect R st u ws
  perform (disconnects u ws) = disconnect R st u ws
  perform (sends message u) = send_personal_message R st message u
  perform (broadcasts message us) = send_message_to_subscribers_impl R st message us

  perform-Keeps : (c : Call) → Keeps Consistent (perform c)
  unfolding perform
  perform-Keeps (connects u ws) = connect-Keeps u ws
  perform-Keeps (disconnects u ws) = disconnect-Keeps u ws
  perform-Keeps (sends message u) = send_personal_message-Keeps message u
  perform-Keeps (broadcasts message us) = broadcast-Keeps message us

  -- After any calls, in any order, with any sockets dead and any requests to Redis failing, the
  -- manager's books are consistent if they were before: every user with an entry has one entry, a
  -- connection and a lock, ws_connections_active is the number of connections,
  -- ws_connections_total exceeds it by ws_disconnections_total, and ws_users_active is the number
  -- of users with an entry.
  pub calls-IsConsistent :
      (calls : List Call) (w : World R.State)
      → IsConsistent w.manager
      → IsConsistent (for_each calls perform w).1.manager
  calls-IsConsistent calls w h = (Keeps-for_each calls perform perform-Keeps).at w h

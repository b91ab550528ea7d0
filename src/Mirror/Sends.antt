-- ===== src/Mirror/Sends.antt =====
-- The sends of app/connection_manager.py, which write no key of the two indexes.
use mathlib.Core.Path.{subst}
use omnimap_sync.Prelude.{negsuc, String, Bool, List, [], ◌∷◌, Dict, Option, ◌≡◌, refl, sym, arith}
use omnimap_sync.Prelude.Assoc
use omnimap_sync.Config.{Settings}
use omnimap_sync.Models.{Outgoing}
use omnimap_sync.Redis.{user_online, incrby, delete, Redis}
use omnimap_sync.World.{World, Socket}
use omnimap_sync.World.Keeps.{
  Keeps, keeps_rules, Keeps-pure, Keeps-bind, Keeps-if, Keeps-try_except,
}
use omnimap_sync.Manager.{
  decrement_online_counter, disconnect, send_json, send_message_to_socket, send_to_sockets,
  send_to_user, send_personal_message, send_to_users_from, is_excluded,
}
use omnimap_sync.Mirror.Steps.{
  IgnoresPlain, Stored, write_plain-Keeps, write_read-Keeps, update_manager-Keeps,
}

module _ (R : Redis) (P : R.State → Type 0) (N : IgnoresPlain R P) (st : Settings) where
  offline-Keeps : (u : String) → Keeps (Stored R P) (decrement_online_counter R st u)
  unfolding decrement_online_counter
  offline-Keeps u =
      Keeps-try_except _ _
        (Keeps-bind _ _ (write_read-Keeps R P N (user_online u) (incrby (negsuc 0)) refl)
          (λ current.
            Keeps-if _ _ _ (λ _. write_plain-Keeps R P N ((user_online u, delete) ∷ []) (refl, tt))
              (λ _. Keeps-pure tt)))
        (λ _. Keeps-pure tt)

  disconnect-Keeps : (u : String) (ws : Socket) → Keeps (Stored R P) (disconnect R st u ws)
  unfolding disconnect
  disconnect-Keeps u ws = search (keeps_rules, update_manager-Keeps R P N, offline-Keeps) depth 8

  redis-send_json :
      (m : Outgoing) (ws : Socket) (w : World R.State) → (send_json R st m ws w).1.redis ≡ w.redis
  redis-send_json m ws w = ground arith

  send_json-Keeps : (m : Outgoing) (ws : Socket) → Keeps (Stored R P) (send_json R st m ws)
  send_json-Keeps m ws = record { at = λ w h. subst P (sym (redis-send_json m ws w)) h }

  send_message_to_socket-Keeps :
      (m : Outgoing) (u : String) (ws : Socket)
      → Keeps (Stored R P) (send_message_to_socket R st m u ws)
  unfolding send_message_to_socket
  send_message_to_socket-Keeps m u ws =
      Keeps-bind (send_json R st m ws) _ (send_json-Keeps m ws) (λ taken.
        Keeps-if taken _ _ (λ _. update_manager-Keeps R P N _)
          (λ _. Keeps-bind _ _ (update_manager-Keeps R P N _) (λ _. disconnect-Keeps u ws)))

  send_to_sockets-Keeps :
      (m : Outgoing) (u : String) (ws : List Socket)
      → Keeps (Stored R P) (send_to_sockets R st m u ws)
  unfolding send_to_sockets
  send_to_sockets-Keeps m u ws = search (keeps_rules, send_message_to_socket-Keeps)

  pub send_to_user-Keeps : (u : String) (m : Outgoing) → Keeps (Stored R P) (send_to_user R st u m)
  unfolding send_to_user
  send_to_user-Keeps u m = search (keeps_rules, update_manager-Keeps R P N, send_to_sockets-Keeps)

  pub send_personal_message-Keeps :
      (m : Outgoing) (u : String) → Keeps (Stored R P) (send_personal_message R st m u)
  unfolding send_personal_message
  send_personal_message-Keeps m u =
      search (keeps_rules, update_manager-Keeps R P N, send_to_sockets-Keeps)

  pub send_to_users_from-Keeps :
      (results : Dict Bool) (us : List String) (m : Outgoing) (excluded : Option String)
      → Keeps (Stored R P) (send_to_users_from R st results us m excluded)
  unfolding send_to_users_from
  send_to_users_from-Keeps results [] m excluded = Keeps-pure results
  send_to_users_from-Keeps results (u ∷ us) m excluded =
      Keeps-if (is_excluded excluded u) _ _ (λ _. send_to_users_from-Keeps results us m excluded)
        (λ _.
          Keeps-bind _ _ (send_to_user-Keeps u m)
            (λ d. send_to_users_from-Keeps (Assoc.put results u d) us m excluded))

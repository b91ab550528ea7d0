-- ===== src/Sync/Sessions.antt =====
-- What a connection leaves behind in the connection manager, in app/websockets.py.
use omnimap_sync.Prelude.{
  String, true, false, not, ◌==◌, eq_iff, eqb_iff, Option, List, [], ◌∷◌, ◌++◌, ◌≡◌, refl, ◌∙◌,
  arith, is_empty, if◌then◌else◌,
}
use omnimap_sync.Prelude.Assoc
use omnimap_sync.Models.{error}
use omnimap_sync.Redis.{Key, Command}
use omnimap_sync.World.{◌>>◌, write_all, write_read, World, Socket, Manager, pure, update_manager}
use omnimap_sync.World.Keeps.{
  Keeps, keeps_rules, Keeps-pure, Keeps-bind, Keeps-if, Keeps-try_except, Keeps-write_all,
  Keeps-write_read, Leads, Leads-Keeps,
}
use omnimap_sync.World.Total.{Total, total_rules}
use omnimap_sync.World.Ensures.{
  Ensures, Ensures-bind, Ensures-gets, Ensures-update_manager, Ensures-Total, Leads-after, Leads-if,
  Leads-try_finally,
}
use omnimap_sync.Env.{Env}
use omnimap_sync.Manager.{
  connections_of, has_socket, remove_socket, get_user_lock, add_connection, drop_connection,
  cleanup_lock, is_anonymous, increment_online_counter, decrement_online_counter, connect,
  disconnect,
}
use omnimap_sync.Sync.Endpoint.{
  Identity, Ending, Admission, refused, admitted, is_cancelled_connecting, enter, admit,
  websocket_endpoint,
}
use omnimap_sync.Sync.Serving.{serve-Keeps, reply-Keeps}

connections_of-add_connection :
    (u : String) (ws : Socket) (m : Manager) (v : String)
    → connections_of (add_connection u ws m) v
      ≡ (if u == v then connections_of m u ++ ws ∷ [] else connections_of m v)
unfolding add_connection
connections_of-add_connection u ws m v =
    rw (Assoc.get-put m.active u (connections_of m u ++ ws ∷ []) v) (ground arith)

connections_of-drop_connection :
    (u : String) (ws : Socket) (m : Manager) (v : String)
    → connections_of (drop_connection u ws m) v
      ≡ (if u == v then remove_socket (connections_of m u) ws else connections_of m v)
unfolding drop_connection
connections_of-drop_connection u ws m v = ground (
  arith,
  Assoc.get-put m.active u (remove_socket (connections_of m u) ws) v,
  Assoc.get-delete m.active u v,
)

connections_of-cleanup_lock :
    (u : String) (m : Manager) (v : String)
    → connections_of (cleanup_lock u m) v ≡ connections_of m v
unfolding cleanup_lock
connections_of-cleanup_lock u m v = ground arith

remove_last :
    (xs : List Socket) (ws : Socket)
    → has_socket xs ws ≡ false
    → remove_socket (xs ++ ws ∷ []) ws ≡ xs
remove_last [] ws h = ground (arith, eqb_iff ws ws)
remove_last (x ∷ xs) ws h = ground (arith, remove_last xs ws)

has_last : (xs : List Socket) (ws : Socket) → has_socket (xs ++ ws ∷ []) ws ≡ true
has_last [] ws = ground (arith, eqb_iff ws ws)
has_last (x ∷ xs) ws = ground (arith, has_last xs ws)

module _ (E : Env) (user : String) (ws : Socket) (base : String → List Socket) where
  -- The connections are those of `base`.
  abbrev pub AreConnections : World E.redis.State → Type 0
  AreConnections w = (v : String) → connections_of w.manager v ≡ base v

  -- The connections are those of `base`, and `ws`.
  abbrev pub AreConnected : World E.redis.State → Type 0
  AreConnected w =
      (v : String) → connections_of w.manager v ≡ (if user == v then base v ++ ws ∷ [] else base v)

  connected :
      (m : Manager) (v : String)
      → ((u : String) → connections_of m u ≡ base u)
      → connections_of (add_connection user ws m) v
        ≡ (if user == v then base v ++ ws ∷ [] else base v)
  connected m v h =
      connections_of-add_connection user ws m v ∙ ground (arith, h user, h v, eq_iff user v)

  dropped :
      (m : Manager) (v : String)
      → has_socket (base user) ws ≡ false
      → ((u : String) → connections_of m u ≡ (if user == u then base u ++ ws ∷ [] else base u))
      → connections_of (drop_connection user ws m) v ≡ base v
  dropped m v fresh h =
      connections_of-drop_connection user ws m v
      ∙ ground (arith, h user, h v, eq_iff user v, eq_iff user user, remove_last (base user) ws)

  online-Keeps : Keeps AreConnected (increment_online_counter E.redis E.settings user)
  unfolding increment_online_counter
  online-Keeps =
      Keeps-try_except _ _ (Keeps-write_all E.redis AreConnected (λ w fs h. h) _ (λ w h. h))
        (λ _. Keeps-pure tt)

  online-Total : Total (increment_online_counter E.redis E.settings user)
  unfolding increment_online_counter
  online-Total = search total_rules

  writes-Keeps : (cs : List (Key × Command)) → Keeps AreConnections (write_all E.redis cs)
  writes-Keeps cs = Keeps-write_all E.redis AreConnections (λ w fs h. h) cs (λ w h. h)

  write_reads-Keeps : (k : Key) (c : Command) → Keeps AreConnections (write_read E.redis k c)
  write_reads-Keeps k c = Keeps-write_read E.redis AreConnections (λ w fs h. h) k c (λ w h. h)

  offline-Keeps : Keeps AreConnections (decrement_online_counter E.redis E.settings user)
  unfolding decrement_online_counter
  offline-Keeps = search (keeps_rules, writes-Keeps, write_reads-Keeps)

  cleaning-Keeps : Keeps AreConnections (update_manager (cleanup_lock user))
  unfolding update_manager
  cleaning-Keeps = record { at = λ w h v. connections_of-cleanup_lock user w.manager v ∙ h v }

  connect-Ensures : Ensures AreConnections (λ _. AreConnected) (connect E.redis E.settings user ws)
  unfolding connect get_user_lock
  connect-Ensures =
      Ensures-bind (λ _. AreConnections) _ _ (Ensures-update_manager _ (λ w h. h))
        λ _.
          Ensures-bind (λ _. AreConnected) _ _
            (Ensures-update_manager _ (λ w h v. connected w.manager v h))
            λ _.
              Ensures-Total _
                (Keeps-if (is_anonymous E.redis E.settings user) _ _ (λ _. Keeps-pure tt)
                  (λ _. online-Keeps))
                (search (total_rules, online-Total))

  module _ (fresh : has_socket (base user) ws ≡ false) where
    -- What `disconnect` reads.
    abbrev IsRead : List Socket → World E.redis.State → Type 0
    IsRead connections w = (connections ≡ base user ++ ws ∷ []) × AreConnected w

    dropping-Leads :
        (connections : List Socket)
        → Leads (IsRead connections) AreConnections (do
          update_manager (drop_connection user ws)
          if is_anonymous E.redis E.settings user
              then pure tt
              else decrement_online_counter E.redis E.settings user
          if is_empty (remove_socket connections ws)
              then update_manager (cleanup_lock user)
              else pure tt)
    dropping-Leads connections =
        Leads-after (λ _. AreConnections) AreConnections _ _
          (Ensures-update_manager _ (λ w h v. dropped w.manager v fresh h.1))
          (λ _. Leads-Keeps (
            Keeps-bind _ _
              (Keeps-if (is_anonymous E.redis E.settings user) _ _ (λ _. Keeps-pure tt)
                (λ _. offline-Keeps))
              (λ _.
                Keeps-if (is_empty (remove_socket connections ws)) _ _ (λ _. cleaning-Keeps)
                  (λ _. Keeps-pure tt))))

    reading :
        (w : World E.redis.State)
        → AreConnected w
        → connections_of w.manager user ≡ base user ++ ws ∷ []
    reading w h = ground (arith, h user, eq_iff user user)

    disconnect-Leads : Leads AreConnected AreConnections (disconnect E.redis E.settings user ws)
    unfolding disconnect get_user_lock
    disconnect-Leads =
        Leads-after (λ _. AreConnected) AreConnections _ _ (Ensures-update_manager _ (λ w h. h))
          λ _.
            Leads-after IsRead AreConnections _ _ (Ensures-gets _ (λ w h. (reading w h, h)))
              λ connections.
                Leads-if (not (has_socket connections ws)) (pure tt) _
                  (λ missing. record { at = λ w h v. ground (arith, h.0, has_last (base user) ws) })
                  (λ there. dropping-Leads connections)

module _ (E : Env) (ws : Socket) (base : String → List Socket)
    (fresh : (v : String) → has_socket (base v) ws ≡ false) where
  enter-Leads :
      (messages : List String) (ending : Ending) (a : Admission)
      → is_cancelled_connecting ending ≡ false
      → Leads
          (AreConnections E "" ws base)
          (AreConnections E "" ws base)
          (enter E ws messages ending a)
  enter-Leads messages ending (refused m) h = Leads-Keeps (
      Keeps-bind _ _ (reply-Keeps (AreConnections E "" ws base) (λ w fs h. h) ws (error m))
        (λ _. Keeps-pure _))
  enter-Leads messages ending (admitted user) h =
      Leads-after (λ _. AreConnected E user ws base) (AreConnections E user ws base) _ _
        (connect-Ensures E user ws base)
        λ _. rw h (
          Leads-try_finally _ _
            (serve-Keeps E (AreConnected E user ws base) (λ w fs h. h) (λ w fs h. h) user (λ w h. h)
              ws messages ending)
            (disconnect-Leads E user ws base (fresh user)))

-- A connection leaves no entry behind, unless it is cancelled where connect waits for Redis, before
-- the try: once websocket_endpoint is over in any other way, by a cancellation or another exception
-- that is not caught included, every user has the connections as before, if the socket was not
-- among them.
pub websocket_endpoint-connections_of :
    (E : Env) (identity : Identity) (ws : Socket) (token : Option String) (messages : List String)
    (ending : Ending) (w : World E.redis.State)
    → is_cancelled_connecting ending ≡ false
    → ((v : String) → has_socket (connections_of w.manager v) ws ≡ false)
    → (v : String)
    → connections_of (websocket_endpoint E identity ws token messages ending w).1.manager v
      ≡ connections_of w.manager v
unfolding websocket_endpoint
websocket_endpoint-connections_of E identity ws token messages ending w h fresh v =
    (enter-Leads E ws (connections_of w.manager) fresh messages ending (admit E identity token)
        h).at
      w (λ u. refl) v

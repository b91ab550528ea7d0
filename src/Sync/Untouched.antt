-- ===== src/Sync/Untouched.antt =====
-- What a client changes in Redis, in app/websockets.py.
use omnimap_sync.Prelude.{
  negsuc, String, Bool, true, false, not, ◌&&◌, List, [], ◌∷◌, Option, ◌≡◌, refl, ◌∙◌, ap,
  if◌then◌else◌,
}
use omnimap_sync.Redis.{
  Key, user_online, Command, incrby, expire, delete, Entry, effect, same_key, IsLawful,
}
use omnimap_sync.World.{
  World, cancelled, Socket, Manager, Exec, update_manager, write_all, write_read, apply_all,
  try_finally,
}
use omnimap_sync.World.Keeps.{
  Keeps, keeps_rules, Keeps-pure, Keeps-raise, Keeps-if, Keeps-bind, Keeps-try_except,
  Keeps-write_all, Keeps-write_read,
}
use omnimap_sync.Consumer.Pipelines.{AllKeys}
use omnimap_sync.Env.{Env}
use omnimap_sync.Models.{error}
use omnimap_sync.Manager.{
  is_anonymous, connect, disconnect, increment_online_counter, decrement_online_counter,
}
use omnimap_sync.Sync.Endpoint.{
  Identity, Ending, Admission, refused, admitted, is_cancelled_connecting, enter, admit,
  websocket_endpoint,
}
use omnimap_sync.Sync.Serving.{serve-Keeps, reply-Keeps}

abbrev pub is_online : Key → Bool
is_online (user_online u) = true
is_online _ = false

not_same : (k j : Key) → is_online k ≡ true → is_online j ≡ false → same_key k j ≡ false
not_same (user_online u) (user_online v) h n = cc
not_same (user_online u) j h n = refl
not_same k j h n = cc

module _ (E : Env) (L : IsLawful E.redis) (kept : Key → Entry) where
  -- All keys but online counters hold what they held.
  abbrev pub IsUntouched : World E.redis.State → Type 0
  IsUntouched w = (k : Key) → is_online k ≡ false → E.redis.view w.redis k ≡ kept k

  written :
      (s : E.redis.State) (k : Key) (c : Command) (j : Key)
      → is_online k ≡ true
      → is_online j ≡ false
      → E.redis.view (E.redis.write s k c) j ≡ E.redis.view s j
  written s k c j h n =
      L.view-write s k c j
      ∙ ap (λ b. if b then effect c (E.redis.view s k) else E.redis.view s j) (not_same k j h n)

  applied :
      (cs : List (Key × Command)) (s : E.redis.State) (j : Key)
      → AllKeys is_online cs
      → is_online j ≡ false
      → E.redis.view (apply_all E.redis s cs) j ≡ E.redis.view s j
  unfolding apply_all
  applied [] s j h n = refl
  applied ((k, c) ∷ cs) s j h n = applied cs (E.redis.write s k c) j h.1 n ∙ written s k c j h.0 n

  write-Keeps :
      (cs : List (Key × Command)) → AllKeys is_online cs → Keeps IsUntouched (write_all E.redis cs)
  write-Keeps cs h =
      Keeps-write_all E.redis IsUntouched (λ w fs u. u) cs
        (λ w u k n. applied cs w.redis k h n ∙ u k n)

  update_manager-Keeps : (f : Manager → Manager) → Keeps IsUntouched (update_manager f)
  unfolding update_manager
  update_manager-Keeps f = record { at = λ w u. u }

  module _ (user : String) where
    increment-Keeps : Keeps IsUntouched (increment_online_counter E.redis E.settings user)
    unfolding increment_online_counter
    increment-Keeps = Keeps-try_except _ _ (write-Keeps _ (refl, (refl, tt))) (λ _. Keeps-pure tt)

    decr-Keeps : Keeps IsUntouched (write_read E.redis (user_online user) (incrby (negsuc 0)))
    decr-Keeps =
        Keeps-write_read E.redis IsUntouched (λ w fs u. u) (user_online user) (incrby (negsuc 0))
          (λ w u k n. written w.redis (user_online user) (incrby (negsuc 0)) k refl n ∙ u k n)

    del-Keeps : Keeps IsUntouched (write_all E.redis ((user_online user, delete) ∷ []))
    del-Keeps = write-Keeps _ (refl, tt)

    decrement-Keeps : Keeps IsUntouched (decrement_online_counter E.redis E.settings user)
    unfolding decrement_online_counter
    decrement-Keeps = search (keeps_rules, decr-Keeps, del-Keeps)

    connect-Keeps : (ws : Socket) → Keeps IsUntouched (connect E.redis E.settings user ws)
    unfolding connect
    connect-Keeps ws = search (keeps_rules, update_manager-Keeps, increment-Keeps) depth 8

    disconnect-Keeps : (ws : Socket) → Keeps IsUntouched (disconnect E.redis E.settings user ws)
    unfolding disconnect
    disconnect-Keeps ws = search (keeps_rules, update_manager-Keeps, decrement-Keeps) depth 8

    touch :
        (w : World E.redis.State)
        → IsUntouched w
        → IsUntouched (record w {
          redis =
              apply_all E.redis w.redis
                ((user_online user, expire E.settings.online_status_ttl) ∷ []);
        })
    touch w u k n =
        applied ((user_online user, expire E.settings.online_status_ttl) ∷ []) w.redis k (refl, tt)
          n
        ∙ u k n

  finally-Keeps :
      {A : Type 0} (m : Exec E.redis.State A) (f : Exec E.redis.State Unit)
      → Keeps IsUntouched m
      → Keeps IsUntouched f
      → Keeps IsUntouched (try_finally m f)
  unfolding try_finally
  finally-Keeps m f km kf = record { at = λ w u. kf.at (m w).1 (km.at w u) }

  enter-Keeps :
      (ws : Socket) (messages : List String) (ending : Ending) (a : Admission)
      → Keeps IsUntouched (enter E ws messages ending a)
  enter-Keeps ws messages ending (refused m) =
      Keeps-bind _ _ (reply-Keeps IsUntouched (λ w fs h. h) ws (error m)) (λ _. Keeps-pure _)
  enter-Keeps ws messages ending (admitted user) = Keeps-bind _ _ (connect-Keeps user ws) (λ _.
      Keeps-if (is_cancelled_connecting ending && not (is_anonymous E.redis E.settings user)) _ _
        (λ _. Keeps-raise cancelled)
        (λ _.
          finally-Keeps _ _
            (serve-Keeps E IsUntouched (λ w fs h. h) (λ w fs h. h) user (touch user) ws messages
              ending)
            (disconnect-Keeps user ws)))

-- Whatever a client sends, however the connection ends, and wherever requests to Redis fail,
-- websocket_endpoint changes no key of Redis but online counters: no block, no subscription and no
-- changelog.
pub websocket_endpoint-IsUntouched :
    (E : Env) (L : IsLawful E.redis) (identity : Identity) (ws : Socket) (token : Option String)
    (messages : List String) (ending : Ending) (w : World E.redis.State) (k : Key)
    → is_online k ≡ false
    → E.redis.view (websocket_endpoint E identity ws token messages ending w).1.redis k
      ≡ E.redis.view w.redis k
unfolding websocket_endpoint
websocket_endpoint-IsUntouched E L identity ws token messages ending w k n =
    (enter-Keeps E L (E.redis.view w.redis) ws messages ending (admit E identity token)).at w
      (λ j h. refl) k n

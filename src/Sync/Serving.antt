-- ===== src/Sync/Serving.antt =====
-- What serving a client changes, in app/websockets.py.
use omnimap_sync.Prelude.{
  ℕ, ℤ, String, Bool, true, false, Option, none, some, List, [], ◌∷◌, Dict, ◌++◌, if◌then◌else◌,
}
use omnimap_sync.Value.{Value, list, dict}
use omnimap_sync.Models.{Outgoing}
use omnimap_sync.Redis.{Key, expire, user_online}
use omnimap_sync.World.{World, read, read_all, Socket, apply_all, Result, raised, ok, disconnected}
use omnimap_sync.World.Keeps.{
  Keeps, Keeps-read, Keeps-read_all, IgnoresFaults, keeps_rules, Keeps-pure, Keeps-raise,
  Keeps-bind, Keeps-if, Keeps-try_except, Keeps-write_all,
}
use omnimap_sync.Env.{Env}
use omnimap_sync.Manager.{has_socket, refresh_user_online_ttl}
use omnimap_sync.Sync.V1.{handle_get_updates}
use omnimap_sync.Sync.V2.{reply, handle_get_updates_v2}
use omnimap_sync.Sync.Endpoint.{
  int_field, ask_v2, ping, act, receive_decoded, serve, stop, Ending, idle_timeout, uncaught,
  cancelled_connecting,
}
use omnimap_sync.Sync.Reading.{
  Kept, int_or-Keeps, in_set-Keeps, get_updates-Keeps, get_updates_v2-Keeps,
}

-- Sending a frame keeps `P`.
abbrev pub IgnoresFrames : {S : Type 0} → (World S → Type 0) → Type 0
IgnoresFrames {S} P =
    (w : World S) (fs : List (Socket × Outgoing)) → P w → P (record w { frames = fs })

module _ {S : Type 0} (P : World S → Type 0) (sends : IgnoresFrames P) where
  abbrev replied : Bool → Socket → Outgoing → World S → Result Unit × World S
  replied gone ws m w =
      if gone
      then (raised disconnected, w)
      else (ok tt, record w { frames = w.frames ++ (ws, m) ∷ [] })

  replied_keeps :
      (gone : Bool) (ws : Socket) (m : Outgoing) (w : World S) → P w → P (replied gone ws m w).1
  replied_keeps true ws m w h = h
  replied_keeps false ws m w h = sends w _ h

  pub reply-Keeps : (ws : Socket) (m : Outgoing) → Keeps P (reply ws m)
  unfolding reply
  reply-Keeps ws m = record { at = λ w h. replied_keeps (has_socket w.dead ws) ws m w h }

module _ (E : Env) (P : World E.redis.State → Type 0) (free : IgnoresFaults P)
    (sends : IgnoresFrames P) (user : String)
    (touch : (w : World E.redis.State)
      → P w
      → P (record w {
        redis =
            apply_all E.redis w.redis
              ((user_online user, expire E.settings.online_status_ttl) ∷ []);
      })) where
  reads : (k : Key) → Kept E P (read E.redis k)
  reads k = Keeps-read E.redis P free k

  reads_all : (ks : List Key) → Kept E P (read_all E.redis ks)
  reads_all ks = Keeps-read_all E.redis P free ks

  replies : (ws : Socket) (m : Outgoing) → Kept E P (reply ws m)
  replies ws m = reply-Keeps P sends ws m

  handle_get_updates-Keeps : (ws : Socket) (v : Value) → Kept E P (handle_get_updates E ws user v)
  unfolding handle_get_updates
  handle_get_updates-Keeps ws (list vs) =
      search (keeps_rules, get_updates-Keeps E P reads reads_all, replies)
  handle_get_updates-Keeps ws _ = replies ws _

  handle_get_updates_v2-Keeps :
      (ws : Socket) (cursor version : ℕ) (limit : ℤ)
      → Kept E P (handle_get_updates_v2 E ws user cursor version limit)
  unfolding handle_get_updates_v2
  handle_get_updates_v2-Keeps ws cursor version limit =
      search (keeps_rules, get_updates_v2-Keeps E P reads reads_all, replies)

  refresh-Keeps : Kept E P (refresh_user_online_ttl E.redis E.settings user)
  unfolding refresh_user_online_ttl
  refresh-Keeps =
      Keeps-if _ _ _ (λ _. Keeps-pure tt)
        (λ _. Keeps-try_except _ _ (Keeps-write_all E.redis P free _ touch) (λ _. Keeps-pure tt))

  int_field-Keeps : (d : Dict Value) (k : String) (z : ℤ) → Kept E P (int_field E d k z)
  unfolding int_field
  int_field-Keeps d k z = int_or-Keeps z _

  ask_v2-Keeps : (ws : Socket) (d : Dict Value) → Kept E P (ask_v2 E ws user d)
  unfolding ask_v2
  ask_v2-Keeps ws d =
      search (keeps_rules, replies, int_field-Keeps, handle_get_updates_v2-Keeps) depth 10

  ping-Keeps : (ws : Socket) → Kept E P (ping E ws user)
  unfolding ping
  ping-Keeps ws = search (keeps_rules, replies, refresh-Keeps)

  act-Keeps : (ws : Socket) (d : Dict Value) → Kept E P (act E ws user d)
  unfolding act
  act-Keeps ws d =
      search
        (keeps_rules, in_set-Keeps, ping-Keeps, handle_get_updates-Keeps, ask_v2-Keeps, replies)
        depth 10

  receive_decoded-Keeps : (ws : Socket) (o : Option Value) → Kept E P (receive_decoded E ws user o)
  receive_decoded-Keeps ws none = replies ws _
  receive_decoded-Keeps ws (some (dict fs)) = act-Keeps ws _
  receive_decoded-Keeps ws (some _) = Keeps-raise _

  stop-Keeps : (ending : Ending) → Kept E P (stop ending)
  unfolding stop
  stop-Keeps idle_timeout = Keeps-pure _
  stop-Keeps (uncaught e) = Keeps-raise _
  stop-Keeps cancelled_connecting = Keeps-raise _
  stop-Keeps _ = Keeps-pure _

  -- The loop over a client's messages keeps whatever sends and the refresh of the online key keep.
  pub serve-Keeps :
      (ws : Socket) (messages : List String) (ending : Ending)
      → Kept E P (serve E ws user messages ending)
  unfolding serve
  serve-Keeps ws [] ending = stop-Keeps ending
  serve-Keeps ws (m ∷ messages) ending =
      Keeps-bind _ _ (receive_decoded-Keeps ws (E.runtime.loads m))
        (λ _. serve-Keeps ws messages ending)

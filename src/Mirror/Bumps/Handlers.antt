-- ===== src/Mirror/Bumps/Handlers.antt =====
-- action_update_access, action_subscribe and action_unsubscribe of app/rabbitmq_consumer.py, and
-- the versions of subscriptions.
use omnimap_sync.Prelude.{
  ℕ, ℤ, suc, String, Bool, true, false, ◌||◌, ◌==◌, List, [], ◌++◌, map, contains, ◌≡◌, refl, arith,
}
use omnimap_sync.Models.{UpdateAccessMessage, SubscribeMessage, UnsubscribeMessage, id_text}
use omnimap_sync.Redis.{Key, Command, block, subscriber, same_key, Entry, IsLawful}
use omnimap_sync.World.{spawn}
use omnimap_sync.World.Keeps.{Leads, Keeps-pure}
use omnimap_sync.World.Ensures.{
  Ensures-try_except, Ensures-bind, Ensures-for_each, Ensures-read_all, Leads-after,
  Leads-try_except,
}
use omnimap_sync.Consumer.Pipelines.{
  AllKeys, AllKeys-append, subscribe_commands-AllKeys, access_commands-AllKeys,
  srem_commands-AllKeys, delete_commands-AllKeys,
}
use omnimap_sync.Env.{Env}
use omnimap_sync.Consumer.Access.{
  user_blocks_of, all_subscribers_of, access_commands, subscribe_commands, srem_commands,
  delete_commands, subscribe, update_access, clear_chunk, tell_and_clear, unsubscribe_chunk,
  unsubscribe,
}
use omnimap_sync.Mirror.Steps.{Stored, IgnoresPlain, is_plain}
use omnimap_sync.Mirror.Rows.{send_message_update_access-Keeps}
use omnimap_sync.Mirror.Versions.{
  is_unversioned, is_other, touches_of_others, touches, touches-append, IsNoted, IsNoted-weaken,
  write_unversioned,
}
use omnimap_sync.Mirror.Touches.{touches-srem_commands, keys-user_blocks_of}
use omnimap_sync.Mirror.Bumps.{
  Noted, Turns, write-Ensures, bump-Ensures, append-Ensures, for_chunks-Ensures, bump_one-Ensures,
}

-- Who is touched by a chunk's pipeline is among its subscribers.
touches-clearing :
    (chunk : List String) (entries : List Entry) (u : String)
    → contains (all_subscribers_of entries []) u ≡ false
    → touches u (srem_commands (user_blocks_of chunk entries []) ++ delete_commands chunk) ≡ false
touches-clearing chunk entries u n = ground (
  arith,
  touches-append u (srem_commands (user_blocks_of chunk entries [])) (delete_commands chunk),
  touches-srem_commands (user_blocks_of chunk entries []) u,
  keys-user_blocks_of chunk entries [] [] u (λ h. h),
  touches_of_others u (delete_commands chunk)
      (delete_commands-AllKeys (is_other u) (λ b. refl) chunk (λ b. refl) (λ b. refl)),
)

plain_version : (k : Key) → is_plain k ≡ true → is_unversioned k ≡ true
plain_version k h = ground arith

plain_subscriber : (k : Key) (u : String) → is_plain k ≡ true → same_key k (subscriber u) ≡ false
plain_subscriber (subscriber v) u h = cc
plain_subscriber _ u h = refl

module _ (E : Env) (L : IsLawful E.redis) (enabled : E.settings.sync_v2_enabled ≡ true) (u : String)
    (start : ℤ) (before : String → Bool) where
  -- A pipeline that is for other keys than the blocks of other users changes those of one user.
  own :
      (cs : List (Key × Command)) (user : String)
      → ((user == u) ≡ false → AllKeys (is_other u) cs)
      → (user == u) ≡ false
      → ((user == u) || touches u cs) ≡ false
  own cs user k other = ground (arith, other, touches_of_others u cs (k other))

  pub subscribe-Ensures :
      (n : ℕ) (msg : SubscribeMessage)
      → E.settings.block_portion ≡ suc n
      → Turns E L enabled u start before (id_text msg.user_id == u) false (subscribe E msg)
  unfolding subscribe
  subscribe-Ensures n msg h =
      let user = id_text msg.user_id in
      Ensures-try_except _ _ (
        Ensures-bind (λ _. Noted E L enabled u start before (user == u)) _ _
          (for_chunks-Ensures E L enabled u start before n (user == u) msg.block_uuids _ h (λ chunk.
            write-Ensures E L enabled u start before (user == u) (user == u) _
              (subscribe_commands-AllKeys is_unversioned (λ b. refl) user chunk refl)
              (own (subscribe_commands user chunk) user (λ other.
                subscribe_commands-AllKeys (is_other u) (λ b. refl) user chunk (rw other refl)))))
          (λ _. bump_one-Ensures E L enabled u start before user))

  clear_chunk-Ensures :
      (chunk : List String) (entries : List Entry)
      → Turns E L enabled u start before false false (clear_chunk E chunk entries)
  unfolding clear_chunk
  clear_chunk-Ensures chunk entries =
      let users = all_subscribers_of entries [] in
      Ensures-bind (λ _. Noted E L enabled u start before (contains users u)) _ _
        (write-Ensures E L enabled u start before false (contains users u) _
          (AllKeys-append is_unversioned _ _
            (srem_commands-AllKeys is_unversioned (user_blocks_of chunk entries []) (λ v. refl))
            (delete_commands-AllKeys is_unversioned (λ b. refl) chunk (λ b. refl) (λ b. refl)))
          (touches-clearing chunk entries u))
        (λ _.
          Ensures-bind (λ _. Noted E L enabled u start before (contains users u)) _ _
            (append-Ensures E L enabled u start before (contains users u) _)
            (λ _. bump-Ensures E L enabled u start before users))

  unsubscribe_chunk-Ensures :
      (chunk : List String)
      → Turns E L enabled u start before false false (unsubscribe_chunk E chunk)
  unfolding unsubscribe_chunk tell_and_clear spawn
  unsubscribe_chunk-Ensures chunk =
      Ensures-bind (λ _. Noted E L enabled u start before false) _ _
        (Ensures-read_all E.redis (λ w h. h.0) (map block chunk) (λ w h. h))
        (λ entries.
          Ensures-bind (λ _. Noted E L enabled u start before false) _ _
            (Ensures-for_each (λ _. Noted E L enabled u start before false) chunk _
              (λ b _. record { value = λ w h. tt; returns = λ w h. refl; after = λ w h. h }))
            (λ _. clear_chunk-Ensures chunk entries))

  pub unsubscribe-Ensures :
      (n : ℕ) (msg : UnsubscribeMessage)
      → E.settings.block_portion ≡ suc n
      → Turns E L enabled u start before false false (unsubscribe E msg)
  unfolding unsubscribe
  unsubscribe-Ensures n msg h = Ensures-try_except _ _ (
      for_chunks-Ensures E L enabled u start before n false msg.block_uuids (unsubscribe_chunk E) h
        unsubscribe_chunk-Ensures)

  ignores_plain : IgnoresPlain E.redis (IsNoted E.redis L u start before false)
  ignores_plain s k c n h =
      IsNoted-weaken E.redis L u start before (false || same_key k (subscriber u)) false _
        (λ _. plain_subscriber k u n)
        (write_unversioned E.redis L u start before false s k c (plain_version k n) h)

  pub update_access-Leads :
      (n : ℕ) (msg : UpdateAccessMessage)
      → E.settings.block_portion ≡ suc n
      → Leads
          (Noted E L enabled u start before (id_text msg.user_id == u))
          (Stored E.redis (IsNoted E.redis L u start before false))
          (update_access E msg)
  unfolding update_access
  update_access-Leads n msg h =
      let user = id_text msg.user_id in
      Leads-try_except _ _
        (Leads-after (λ _. Noted E L enabled u start before (user == u)) _ _ _
          (for_chunks-Ensures E L enabled u start before n (user == u)
            (msg.block_uuids ++ msg.start_block_ids) _ h
            (λ chunk.
              write-Ensures E L enabled u start before (user == u) (user == u) _
                (access_commands-AllKeys is_unversioned (λ b. refl) msg.permission user chunk refl)
                (own (access_commands msg.permission user chunk) user (λ other.
                  access_commands-AllKeys (is_other u) (λ b. refl) msg.permission user chunk
                    (rw other refl)))))
          (λ _.
            Leads-after (λ _. Noted E L enabled u start before false) _ _ _
              (bump_one-Ensures E L enabled u start before user)
              (λ _. record {
                at = λ w t. (send_message_update_access-Keeps E _ ignores_plain msg).at w t.1;
              })))
        (λ e. Keeps-pure tt)

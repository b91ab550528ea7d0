-- ===== src/Mirror/Effects.antt =====
-- What the handlers of subscriptions do when no request to Redis fails.
use omnimap_sync.Prelude.{
  ℕ, suc, String, Bool, false, not, ◌&&◌, ◌||◌, ◌==◌, eq_iff, eqb, List, [], ◌∷◌, ◌++◌, contains,
  contains-append, contains-insert, contains-remove, ◌≡◌, refl, ◌∙◌, arith, if◌then◌else◌,
}
use omnimap_sync.Models.{Permission, deny, UpdateAccessMessage, SubscribeMessage, id_text}
use omnimap_sync.Redis.{block, subscriber, sadd, srem, Redis, IsLawful}
use omnimap_sync.World.{World, write_all, apply_all}
use omnimap_sync.World.Keeps.{Keeps-pure, Keeps-bind, Leads-Keeps}
use omnimap_sync.World.Ensures.{
  Ensures, Ensures-for_each, Ensures-write_all, IsCalm, Ensures-weaken, Leads-after,
  Leads-try_except,
}
use omnimap_sync.Env.{Env}
use omnimap_sync.Consumer.Access.{
  chunks, is_deny, access_commands, subscribe_commands, revoke_commands, for_chunks, subscribe,
  update_access,
}
use omnimap_sync.Consumer.Chunks.{concat, concat-chunks}
use omnimap_sync.Mirror.{subscribers_of, contains-subscribers_of, neutral_block}
use omnimap_sync.Mirror.Steps.{
  IgnoresNeutral, plain, unversioned, Stored, bump_subscription_versions-Keeps,
}
use omnimap_sync.Mirror.Rows.{send_message_update_access-Keeps}

-- Whether a user is subscribed after being denied (or given) access to something.
abbrev pub is_subscribed_after : Permission → Bool → Bool → Bool
is_subscribed_after permission before named =
    if is_deny permission then before && not named else before || named

pub positive : (n : ℕ) → eqb (suc n) 0 ≡ false
positive n = ground arith

module _ (R : Redis) (L : IsLawful R) where
  contains-subscribe_commands :
      (s : R.State) (user : String) (bs : List String) (b v : String)
      → contains (subscribers_of R (apply_all R s (subscribe_commands user bs)) b) v
        ≡ (contains (subscribers_of R s b) v || (user == v && contains bs b))
  unfolding apply_all subscribe_commands
  contains-subscribe_commands s user [] b v = ground arith
  contains-subscribe_commands s user (c ∷ bs) b v =
      let s' = R.write s (block c) (sadd user) in
      ground (
        arith,
        contains-subscribe_commands (R.write s' (subscriber user) (sadd c)) user bs b v,
        contains-subscribers_of R L s' (subscriber user) (sadd c) b v,
        contains-subscribers_of R L s (block c) (sadd user) b v,
        contains-insert user (subscribers_of R s c) v,
        eq_iff c b,
        eq_iff user v,
      )

  contains-revoke_commands :
      (s : R.State) (user : String) (bs : List String) (b v : String)
      → contains (subscribers_of R (apply_all R s (revoke_commands user bs)) b) v
        ≡ (contains (subscribers_of R s b) v && not (user == v && contains bs b))
  unfolding apply_all revoke_commands
  contains-revoke_commands s user [] b v = ground arith
  contains-revoke_commands s user (c ∷ bs) b v =
      let s' = R.write s (block c) (srem user) in
      ground (
        arith,
        contains-revoke_commands (R.write s' (subscriber user) (srem c)) user bs b v,
        contains-subscribers_of R L s' (subscriber user) (srem c) b v,
        contains-subscribers_of R L s (block c) (srem user) b v,
        contains-remove user (subscribers_of R s c) v,
        eq_iff c b,
        eq_iff user v,
      )

  contains-access_commands :
      (p : Permission) (s : R.State) (user : String) (bs : List String) (b v : String)
      → contains (subscribers_of R (apply_all R s (access_commands p user bs)) b) v
        ≡ is_subscribed_after p (contains (subscribers_of R s b) v) (user == v && contains bs b)
  contains-access_commands deny s user bs b v = contains-revoke_commands s user bs b v
  contains-access_commands _ s user bs b v = contains-subscribe_commands s user bs b v

  -- The subscribers are those of `target`.
  abbrev pub AreSubscribers : (String → String → Bool) → R.State → Type 0
  AreSubscribers target s = (b v : String) → contains (subscribers_of R s b) v ≡ target b v

  pub AreSubscribers-IgnoresNeutral :
      (target : String → String → Bool) → IgnoresNeutral R (AreSubscribers target)
  AreSubscribers-IgnoresNeutral target s k c n h b v =
      (rw (neutral_block R L k b n) at (contains-subscribers_of R L s k c b v)) ∙ h b v

  module _ (p : Permission) (user : String) (target : String → String → Bool) where
    -- The chunks to come turn the subscribers into those of `target`.
    abbrev Remaining : List (List String) → World R.State → Type 0
    Remaining chunks w =
        IsCalm w
        × ((b v : String)
            → is_subscribed_after p (contains (subscribers_of R w.redis b) v)
                (user == v && contains (concat chunks) b)
              ≡ target b v)

    remaining_after :
        (chunk : List String) (rest : List (List String)) (w : World R.State) (b v : String)
        → is_subscribed_after p
            (contains (subscribers_of R w.redis b) v)
            (user == v && contains (concat (chunk ∷ rest)) b)
          ≡ target b v
        → is_subscribed_after p
            (contains (subscribers_of R (apply_all R w.redis (access_commands p user chunk)) b) v)
            (user == v && contains (concat rest) b)
          ≡ target b v
    remaining_after chunk rest w b v h =
        rw (contains-access_commands p w.redis user chunk b v)
          (ground (arith, contains-append chunk (concat rest) b))

    access_chunk-Ensures :
        (chunk : List String) (rest : List (List String))
        → Ensures
            (Remaining (chunk ∷ rest))
            (λ _. Remaining rest)
            (write_all R (access_commands p user chunk))
    access_chunk-Ensures chunk rest =
        Ensures-write_all R (λ w h. h.0) (access_commands p user chunk)
          (λ w h. (h.0, λ b v. remaining_after chunk rest w b v (h.1 b v)))

    abbrev Start : List String → World R.State → Type 0
    Start xs w =
        IsCalm w
        × ((b v : String)
            → is_subscribed_after p (contains (subscribers_of R w.redis b) v)
                (user == v && contains xs b)
              ≡ target b v)

    done : (w : World R.State) → Remaining [] w → AreSubscribers target w.redis
    done w h b v = ground (arith, h.1 b v)

module _ (E : Env) (L : IsLawful E.redis) where
  module _ (p : Permission) (user : String) (target : String → String → Bool) where
    for_chunks-Ensures :
        (n : ℕ) (xs : List String)
        → E.settings.block_portion ≡ suc n
        → Ensures
            (Start E.redis L p user target xs)
            (λ _ w. AreSubscribers E.redis L target w.redis)
            (for_chunks E xs (λ chunk. write_all E.redis (access_commands p user chunk)))
    unfolding for_chunks
    for_chunks-Ensures n xs h =
        rw (h, positive n)
          (Ensures-weaken _
            (Ensures-for_each (Remaining E.redis L p user target) (chunks (suc n) xs) _
              (access_chunk-Ensures E.redis L p user target))
            (λ w s. (s.0, λ b v. rw (concat-chunks n xs) (s.1 b v)))
            (λ _ w r. done E.redis L p user target w r))

  abbrev asked : Permission → String → List String → World E.redis.State → String → String → Bool
  asked p user xs w b v =
      is_subscribed_after p (contains (subscribers_of E.redis w.redis b) v)
        (user == v && contains xs b)

  -- If chunks have at least one element and no request to Redis fails, then after
  -- action_update_access a user is subscribed to a block exactly if before, and not denied now, or
  -- given access now: to the blocks and the start blocks that the message names, and for the user
  -- that it names.
  pub update_access-subscribers_of :
      (n : ℕ) (msg : UpdateAccessMessage) (w : World E.redis.State) (b v : String)
      → E.settings.block_portion ≡ suc n
      → IsCalm w
      → contains (subscribers_of E.redis (update_access E msg w).1.redis b) v
        ≡ is_subscribed_after msg.permission
            (contains (subscribers_of E.redis w.redis b) v)
            (id_text msg.user_id == v && contains (msg.block_uuids ++ msg.start_block_ids) b)
  unfolding update_access
  update_access-subscribers_of n msg w b v h calm =
      let target =
        asked msg.permission (id_text msg.user_id) (msg.block_uuids ++ msg.start_block_ids) w in
      let P = AreSubscribers E.redis L target in
      let ignores = AreSubscribers-IgnoresNeutral E.redis L target in
      let N = plain E.redis P ignores in
      let V = unversioned E.redis P ignores in
      (Leads-try_except _ _
          (Leads-after (λ _. Stored E.redis P) (Stored E.redis P) _ _
            (for_chunks-Ensures msg.permission (id_text msg.user_id) target n
              (msg.block_uuids ++ msg.start_block_ids) h)
            (λ _. Leads-Keeps (
              Keeps-bind _ _ (bump_subscription_versions-Keeps E P V _)
                (λ _. send_message_update_access-Keeps E P N msg))))
          (λ e. Keeps-pure tt)).at
        w (calm, λ b v. refl) b v

  -- If chunks have at least one element and no request to Redis fails, then after action_subscribe
  -- a user is subscribed to a block exactly if before, or if the message names both.
  pub subscribe-subscribers_of :
      (n : ℕ) (msg : SubscribeMessage) (w : World E.redis.State) (b v : String)
      → E.settings.block_portion ≡ suc n
      → IsCalm w
      → contains (subscribers_of E.redis (subscribe E msg w).1.redis b) v ≡ (
          contains (subscribers_of E.redis w.redis b) v
          || (id_text msg.user_id == v && contains msg.block_uuids b))
  unfolding subscribe
  subscribe-subscribers_of n msg w b v h calm =
      let target = asked Permission.view (id_text msg.user_id) msg.block_uuids w in
      let P = AreSubscribers E.redis L target in
      let V = unversioned E.redis P (AreSubscribers-IgnoresNeutral E.redis L target) in
      (Leads-try_except _ _
          (Leads-after (λ _. Stored E.redis P) (Stored E.redis P) _ _
            (for_chunks-Ensures Permission.view (id_text msg.user_id) target n msg.block_uuids h)
            (λ _. Leads-Keeps (bump_subscription_versions-Keeps E P V _)))
          (λ e. Keeps-pure tt)).at
        w (calm, λ b v. refl) b v

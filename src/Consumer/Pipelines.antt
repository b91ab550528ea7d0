-- ===== src/Consumer/Pipelines.antt =====
-- Which keys the pipelines of app/rabbitmq_consumer.py write: those that a test takes, if it takes
-- the kinds of key that the pipeline is built from.
use omnimap_sync.Prelude.{
  ℕ, pos, ◌+◌, String, Bool, true, List, [], ◌∷◌, ◌++◌, map, All, Dict, ◌≡◌, arith,
}
use omnimap_sync.Models.{Permission, deny}
use omnimap_sync.Redis.{
  Key, block, blockdata, subscriber, sandbox, subscription_version, changelog, Command, srem,
  incrby, Redis,
}
use omnimap_sync.World.{apply_all}
use omnimap_sync.Consumer.Access.{
  access_commands, subscribe_commands, revoke_commands, srem_commands, delete_commands,
}
use omnimap_sync.Consumer.Changelog.{Op, zadd_events, trim_changelog}

-- The commands that raise the versions of users.
abbrev pub bumps : List String → List (Key × Command)
bumps users = map (λ user. (subscription_version user, incrby (pos 1))) users

module _ (test : Key → Bool) where
  abbrev pub AllKeys : List (Key × Command) → Type 0
  AllKeys = All (λ c. test c.0 ≡ true)

  pub AllKeys-append : (cs ds : List (Key × Command)) → AllKeys cs → AllKeys ds → AllKeys (cs ++ ds)
  AllKeys-append [] ds h k = k
  AllKeys-append (c ∷ cs) ds h k = (h.0, AllKeys-append cs ds h.1 k)

  pub map-AllKeys :
      (key : String → Key) (command : String → Command) (bs : List String)
      → ((b : String) → test (key b) ≡ true)
      → AllKeys (map (λ b. (key b, command b)) bs)
  map-AllKeys key command [] h = tt
  map-AllKeys key command (b ∷ bs) h = (h b, map-AllKeys key command bs h)

  module _ (blocks : (b : String) → test (block b) ≡ true) where
    pub subscribe_commands-AllKeys :
        (user : String) (bs : List String)
        → test (subscriber user) ≡ true
        → AllKeys (subscribe_commands user bs)
    unfolding subscribe_commands
    subscribe_commands-AllKeys user [] h = tt
    subscribe_commands-AllKeys user (b ∷ bs) h =
        (blocks b, (h, subscribe_commands-AllKeys user bs h))

    revoke_commands-AllKeys :
        (user : String) (bs : List String)
        → test (subscriber user) ≡ true
        → AllKeys (revoke_commands user bs)
    unfolding revoke_commands
    revoke_commands-AllKeys user [] h = tt
    revoke_commands-AllKeys user (b ∷ bs) h = (blocks b, (h, revoke_commands-AllKeys user bs h))

    pub access_commands-AllKeys :
        (p : Permission) (user : String) (bs : List String)
        → test (subscriber user) ≡ true
        → AllKeys (access_commands p user bs)
    access_commands-AllKeys deny user bs h = revoke_commands-AllKeys user bs h
    access_commands-AllKeys _ user bs h = subscribe_commands-AllKeys user bs h

    pub delete_commands-AllKeys :
        (bs : List String)
        → ((b : String) → test (blockdata b) ≡ true)
        → ((b : String) → test (sandbox b) ≡ true)
        → AllKeys (delete_commands bs)
    unfolding delete_commands
    delete_commands-AllKeys bs rows modes =
        let remove : String → Command = λ b. Command.delete in
        AllKeys-append _ _ (map-AllKeys block remove bs blocks) (
          AllKeys-append _ _ (map-AllKeys blockdata remove bs rows)
            (map-AllKeys sandbox remove bs modes))

  pub srem_commands-AllKeys :
      (d : Dict (List String))
      → ((u : String) → test (subscriber u) ≡ true)
      → AllKeys (srem_commands d)
  unfolding srem_commands
  srem_commands-AllKeys [] h = tt
  srem_commands-AllKeys ((user, bs) ∷ d) h =
      AllKeys-append _ _ (map-AllKeys (λ b. subscriber user) srem bs (λ b. h user))
        (srem_commands-AllKeys d h)

  trim_changelog-AllKeys : (n : ℕ) → test changelog ≡ true → AllKeys (trim_changelog n)
  unfolding trim_changelog
  trim_changelog-AllKeys n h = ground arith

  pub zadd_events-AllKeys :
      (seq : ℕ) (events : List (String × Op)) (n : ℕ)
      → test changelog ≡ true
      → AllKeys (zadd_events seq events ++ trim_changelog n)
  unfolding zadd_events
  zadd_events-AllKeys seq [] n h = trim_changelog-AllKeys n h
  zadd_events-AllKeys seq (e ∷ events) n h = (h, zadd_events-AllKeys (seq + 1) events n h)

  pub bumps-AllKeys :
      (users : List String)
      → ((u : String) → test (subscription_version u) ≡ true)
      → AllKeys (bumps users)
  bumps-AllKeys [] h = tt
  bumps-AllKeys (u ∷ users) h = (h u, bumps-AllKeys users h)

-- What commands for keys that the test takes keep, pipelines of them keep.
module _ (test : Key → Bool) (R : Redis) (P : R.State → Type 0)
    (keeps : (s : R.State) (k : Key) (c : Command) → test k ≡ true → P s → P (R.write s k c)) where
  pub apply_all-AllKeys :
      (s : R.State) (cs : List (Key × Command)) → AllKeys test cs → P s → P (apply_all R s cs)
  unfolding apply_all
  apply_all-AllKeys s [] a h = h
  apply_all-AllKeys s ((k, c) ∷ cs) a h =
      apply_all-AllKeys (R.write s k c) cs a.1 (keeps s k c a.0 h)

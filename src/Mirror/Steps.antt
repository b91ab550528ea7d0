-- ===== src/Mirror/Steps.antt =====
-- The steps of the handlers that write no key of the two indexes: requests, sends, the changelog.
use omnimap_sync.Prelude.{
  ℕ, pos, String, Bool, true, List, [], ◌∷◌, ◌++◌, map, ◌≡◌, refl, arith, false,
}
use omnimap_sync.Value.{Value}
use omnimap_sync.Models.{Outgoing}
use omnimap_sync.Redis.{
  Key, blockdata, sandbox, user_online, subscription_version, changelog_seq, Command, incrby, Redis,
}
use omnimap_sync.World.{
  World, Manager, Exec, apply_all, write_all, read, read_all, write_read, update_manager, spawn,
}
use omnimap_sync.World.Keeps.{
  Keeps, keeps_rules, Keeps-pure, Keeps-write_all, Keeps-write_read, Keeps-read, Keeps-read_all,
  Keeps-try_except,
}
use omnimap_sync.Consumer.Pipelines.{AllKeys, apply_all-AllKeys, zadd_events-AllKeys}
use omnimap_sync.Env.{Env}
use omnimap_sync.Manager.Sandbox.{sandbox_commands, update_sandbox_cache}
use omnimap_sync.Consumer.Changelog.{
  Op, zadd_events, trim_changelog, append_changelog_events, bump_subscription_versions,
}
use omnimap_sync.Mirror.{is_neutral, AllNeutral}

-- Keys of neither index, not of the changelog and no versions.
abbrev pub is_plain : Key → Bool
is_plain (blockdata b) = true
is_plain (sandbox b) = true
is_plain (user_online u) = true
is_plain _ = false

abbrev pub AllPlain : List (Key × Command) → Type 0
AllPlain = AllKeys is_plain

-- Writes to plain keys keep `P`.
abbrev pub IgnoresPlain : (R : Redis) → (R.State → Type 0) → Type 0
IgnoresPlain R P =
    (s : R.State) (k : Key) (c : Command) → is_plain k ≡ true → P s → P (R.write s k c)

-- Writes to versions of subscriptions keep `P`.
abbrev pub IgnoresVersions : (R : Redis) → (R.State → Type 0) → Type 0
IgnoresVersions R P =
    (s : R.State) (u : String) (c : Command) → P s → P (R.write s (subscription_version u) c)

-- Writes to keys of neither index keep `P`.
abbrev pub IgnoresNeutral : (R : Redis) → (R.State → Type 0) → Type 0
IgnoresNeutral R P =
    (s : R.State) (k : Key) (c : Command) → is_neutral k ≡ true → P s → P (R.write s k c)

module _ (R : Redis) (P : R.State → Type 0) where
  abbrev pub Stored : World R.State → Type 0
  Stored w = P w.redis

  pub free : (w : World R.State) (fs : List Bool) → Stored w → Stored (record w { faults = fs })
  free w fs h = h

plain_neutral : (k : Key) → is_plain k ≡ true → is_neutral k ≡ true
plain_neutral k h = ground arith

module _ (R : Redis) (P : R.State → Type 0) (N : IgnoresNeutral R P) where
  pub plain : IgnoresPlain R P
  plain s k c h = N s k c (plain_neutral k h)

  pub unversioned : IgnoresVersions R P
  unversioned s u c = N s (subscription_version u) c refl

module _ (R : Redis) (P : R.State → Type 0) (N : IgnoresPlain R P) where
  pub write_plain-Keeps :
      (cs : List (Key × Command)) → AllPlain cs → Keeps (Stored R P) (write_all R cs)
  write_plain-Keeps cs n =
      Keeps-write_all R (Stored R P) (free R P) cs
        (λ w h. apply_all-AllKeys is_plain R P N w.redis cs n h)

  pub write_read-Keeps :
      (k : Key) (c : Command) → is_plain k ≡ true → Keeps (Stored R P) (write_read R k c)
  write_read-Keeps k c n = Keeps-write_read R (Stored R P) (free R P) k c (λ w h. N w.redis k c n h)

  pub read-Keeps : (k : Key) → Keeps (Stored R P) (read R k)
  read-Keeps k = Keeps-read R (Stored R P) (free R P) k

  pub read_all-Keeps : (ks : List Key) → Keeps (Stored R P) (read_all R ks)
  read_all-Keeps ks = Keeps-read_all R (Stored R P) (free R P) ks

  pub update_manager-Keeps : (f : Manager → Manager) → Keeps (Stored R P) (update_manager f)
  unfolding update_manager
  update_manager-Keeps f = record { at = λ w h. h }

  pub spawn-Keeps : (m : Outgoing) (us : List String) → Keeps (Stored R P) (spawn m us)
  unfolding spawn
  spawn-Keeps m us = record { at = λ w h. h }

module _ (E : Env) (P : E.redis.State → Type 0) where
  abbrev pub Kept : {A : Type 0} → Exec E.redis.State A → Type 0
  Kept m = Keeps (Stored E.redis P) m

-- The changelog may be written.
abbrev pub KeepsLog : (E : Env) → (E.redis.State → Type 0) → Type 0
KeepsLog E P =
    (events : List (String × Op)) → Keeps (Stored E.redis P) (append_changelog_events E events)

module _ (E : Env) (P : E.redis.State → Type 0) (N : IgnoresNeutral E.redis P) where
  sequence-Keeps : (c : Command) → Keeps (Stored E.redis P) (write_read E.redis changelog_seq c)
  sequence-Keeps c =
      Keeps-write_read E.redis (Stored E.redis P) (free E.redis P) changelog_seq c
        (λ w h. N w.redis changelog_seq c refl h)

  zadds-Keeps :
      (seq : ℕ) (events : List (String × Op)) (n : ℕ)
      → Keeps (Stored E.redis P) (write_all E.redis (zadd_events seq events ++ trim_changelog n))
  zadds-Keeps seq events n = Keeps-write_all E.redis (Stored E.redis P) (free E.redis P) _ (λ w h.
      apply_all-AllKeys is_neutral E.redis P N w.redis _
        (zadd_events-AllKeys is_neutral seq events n refl) h)

  pub append_changelog_events-Keeps : KeepsLog E P
  unfolding append_changelog_events
  append_changelog_events-Keeps events = search (keeps_rules, sequence-Keeps, zadds-Keeps)

module _ (E : Env) (P : E.redis.State → Type 0) (V : IgnoresVersions E.redis P) where
  apply_bumps :
      (s : E.redis.State) (users : List String)
      → P s
      → P (apply_all E.redis s (map (λ user. (subscription_version user, incrby (pos 1))) users))
  unfolding apply_all
  apply_bumps s [] h = h
  apply_bumps s (u ∷ users) h =
      apply_bumps (E.redis.write s (subscription_version u) (incrby (pos 1))) users
        (V s u (incrby (pos 1)) h)

  bumps-Keeps :
      (users : List String)
      → Keeps
          (Stored E.redis P)
          (write_all E.redis (map (λ user. (subscription_version user, incrby (pos 1))) users))
  bumps-Keeps users =
      Keeps-write_all E.redis (Stored E.redis P) (free E.redis P) _
        (λ w h. apply_bumps w.redis users h)

  pub bump_subscription_versions-Keeps :
      (users : List String) → Keeps (Stored E.redis P) (bump_subscription_versions E users)
  unfolding bump_subscription_versions
  bump_subscription_versions-Keeps users = search (keeps_rules, bumps-Keeps)

pub sandbox_commands-AllNeutral :
    (E : Env) (b : String) (mode creator : Value) → AllNeutral (sandbox_commands E b mode creator)
unfolding sandbox_commands
sandbox_commands-AllNeutral E b mode creator = ground arith

module _ (E : Env) (P : E.redis.State → Type 0) (N : IgnoresPlain E.redis P) where
  pub sandbox_commands-AllPlain :
      (b : String) (mode creator : Value) → AllPlain (sandbox_commands E b mode creator)
  unfolding sandbox_commands
  sandbox_commands-AllPlain b mode creator = ground arith

  pub update_sandbox_cache-Keeps :
      (b : String) (mode creator : Value)
      → Keeps (Stored E.redis P) (update_sandbox_cache E b mode creator)
  unfolding update_sandbox_cache
  update_sandbox_cache-Keeps b mode creator =
      Keeps-try_except _ _
        (write_plain-Keeps E.redis P N _ (sandbox_commands-AllPlain b mode creator))
        (λ _. Keeps-pure tt)

-- ===== src/Mirror/Versions.antt =====
-- The versions of subscriptions that app/rabbitmq_consumer.py keeps beside the users' blocks: what
-- one command and one pipeline leave of them.
use mathlib.Core.Path.{subst}
use omnimap_sync.Prelude.{
  ℤ, Bool-cases, inl, inr, pos, ◌+ℤ◌, lebℤ, String, Bool, true, false, not, ◌&&◌, ◌||◌, ◌==◌,
  eq_iff, List, [], ◌∷◌, ◌++◌, contains, ◌≡◌, refl, ◌∙◌, sym, ap, arith,
}
use omnimap_sync.Redis.{
  Key, subscriber, subscription_version, Command, incrby, Entry, number_or_zero, same_key, Redis,
  IsLawful,
}
use omnimap_sync.World.{apply_all}
use omnimap_sync.Consumer.Pipelines.{AllKeys, bumps}
use omnimap_sync.Mirror.{blocks_of, contains-blocks_of, entry_after}

abbrev pub is_unversioned : Key → Bool
is_unversioned (subscription_version u) = false
is_unversioned _ = true

-- Whether a command is for the set of the user's blocks.
abbrev pub touches : String → List (Key × Command) → Bool
touches user [] = false
touches user ((k, c) ∷ cs) = same_key k (subscriber user) || touches user cs

-- None is, if all are for other keys.
abbrev pub is_other : String → Key → Bool
is_other user k = not (same_key k (subscriber user))

pub touches_of_others :
    (user : String) (cs : List (Key × Command))
    → AllKeys (is_other user) cs
    → touches user cs ≡ false
touches_of_others user [] h = refl
touches_of_others user ((k, c) ∷ cs) h = ground (arith, h.0, touches_of_others user cs h.1)

pub touches-append :
    (user : String) (cs ds : List (Key × Command))
    → touches user (cs ++ ds) ≡ (touches user cs || touches user ds)
touches-append user [] ds = refl
touches-append user ((k, c) ∷ cs) ds = ground (arith, touches-append user cs ds)

unversioned_key :
    (k : Key) (u : String) → is_unversioned k ≡ true → same_key k (subscription_version u) ≡ false
unversioned_key (subscription_version v) u h = cc
unversioned_key _ u h = refl

eq_self : (u : String) → (u == u) ≡ true
eq_self u = (eq_iff u u).1 refl

pub leb_refl : (z : ℤ) → lebℤ z z ≡ true
leb_refl z = ground arith

leb_next : (a b : ℤ) → lebℤ a b ≡ true → lebℤ a (b +ℤ pos 1) ≡ true
leb_next a b h = ground arith

next_ne : (a b : ℤ) → lebℤ a b ≡ true → (b +ℤ pos 1) ≡ a → ⊥
next_ne a b h e = ground arith

module _ (R : Redis) where
  abbrev pub version_of : R.State → String → ℤ
  version_of s u = number_or_zero (R.view s (subscription_version u)).number

module _ (R : Redis) (L : IsLawful R) (user : String) (start : ℤ) (before : String → Bool) where
  -- The user's version is not below the start, and if it is the start, and no change is pending, the
  -- user has the blocks as before.
  pub record IsNoted (pending : Bool) (s : R.State) : Type 0 where
    pub grown : lebℤ start (version_of R s user) ≡ true
    pub blocks :
        pending ≡ false
        → version_of R s user ≡ start
        → (b : String) → contains (blocks_of R s user) b ≡ before b

  pub IsNoted-weaken :
      (p q : Bool) (s : R.State) → (q ≡ false → p ≡ false) → IsNoted p s → IsNoted q s
  IsNoted-weaken p q s k h = record { grown = h.grown; blocks = λ e. h.blocks (k e) }

  version-write :
      (s : R.State) (k : Key) (c : Command)
      → version_of R (R.write s k c) user
        ≡ number_or_zero (entry_after R s k c (subscription_version user)).number
  version-write s k c =
      ap (λ (e : Entry). number_or_zero e.number) (L.view-write s k c (subscription_version user))

  pub write_unversioned :
      (p : Bool) (s : R.State) (k : Key) (c : Command)
      → is_unversioned k ≡ true
      → IsNoted p s
      → IsNoted (p || same_key k (subscriber user)) (R.write s k c)
  write_unversioned p s k c n h =
      let same : version_of R (R.write s k c) user ≡ version_of R s user =
        rw (unversioned_key k user n) at (version-write s k c) in
      record {
        grown = rw same h.grown;
        blocks = λ e v b.
            ground (
              arith,
              contains-blocks_of R L s k c user b,
              h.blocks (ground arith) (sym same ∙ v) b,
            );
      }

  pub apply_unversioned :
      (p : Bool) (s : R.State) (cs : List (Key × Command))
      → AllKeys is_unversioned cs
      → IsNoted p s
      → IsNoted (p || touches user cs) (apply_all R s cs)
  unfolding apply_all
  apply_unversioned p s [] n h = IsNoted-weaken p _ s (λ e. ground arith) h
  apply_unversioned p s ((k, c) ∷ cs) n h =
      IsNoted-weaken ((p || same_key k (subscriber user)) || touches user cs) _ _
        (λ e. ground arith)
        (apply_unversioned (p || same_key k (subscriber user)) (R.write s k c) cs n.1
          (write_unversioned p s k c n.0 h))

  bump_own :
      (p : Bool) (s : R.State)
      → IsNoted p s
      → IsNoted false (R.write s (subscription_version user) (incrby (pos 1)))
  bump_own p s h =
      let next : version_of R (R.write s (subscription_version user) (incrby (pos 1))) user
          ≡ (version_of R s user +ℤ pos 1) =
        rw (eq_self user) at (version-write s (subscription_version user) (incrby (pos 1))) in
      record {
        grown = rw next (leb_next start (version_of R s user) h.grown);
        blocks = λ e v b. absurd (next_ne start (version_of R s user) h.grown (sym next ∙ v));
      }

  bump_other :
      (p : Bool) (s : R.State) (v : String)
      → (v == user) ≡ false
      → IsNoted p s
      → IsNoted p (R.write s (subscription_version v) (incrby (pos 1)))
  bump_other p s v n h =
      let same : version_of R (R.write s (subscription_version v) (incrby (pos 1))) user
          ≡ version_of R s user =
        rw n at (version-write s (subscription_version v) (incrby (pos 1))) in
      record {
        grown = rw same h.grown;
        blocks = λ e q b.
            contains-blocks_of R L s (subscription_version v) (incrby (pos 1)) user b
            ∙ h.blocks e (sym same ∙ q) b;
      }

  bump_noted :
      (p : Bool) (s : R.State) (v : String)
      → IsNoted p s
      → IsNoted (p && not (v == user)) (R.write s (subscription_version v) (incrby (pos 1)))
  bump_noted p s v h = elim (Bool-cases (v == user)) [
    | inl same ↦
        IsNoted-weaken false _ _ (λ e. refl)
          (subst (λ u. IsNoted false (R.write s (subscription_version u) (incrby (pos 1))))
            (sym ((eq_iff v user).0 same)) (bump_own p s h))
    | inr other ↦ IsNoted-weaken p _ _ (λ e. ground arith) (bump_other p s v other h)
  ]

  pub bumps_noted :
      (p : Bool) (s : R.State) (users : List String)
      → IsNoted p s
      → IsNoted (p && not (contains users user)) (apply_all R s (bumps users))
  unfolding apply_all
  bumps_noted p s [] h = IsNoted-weaken p _ s (λ e. ground arith) h
  bumps_noted p s (v ∷ users) h =
      IsNoted-weaken ((p && not (v == user)) && not (contains users user)) _ _ (λ e. ground arith)
        (bumps_noted (p && not (v == user)) (R.write s (subscription_version v) (incrby (pos 1)))
          users (bump_noted p s v h))

-- ===== src/Sync/Resync.antt =====
-- When handle_get_updates_v2 of app/websockets.py asks for a full resync.
use mathlib.Core.Path.{subst}
use omnimap_sync.Prelude.{
  ℕ, ℤ, pos, ltb, ltbℤ, ◌∷◌, ◌+◌, eqb, length, String, Bool, true, false, ◌||◌, List, [], ◌≡◌, refl,
  sym, if◌then◌else◌,
}
use omnimap_sync.Models.{BlockUpdatesV2Response}
use omnimap_sync.Redis.{
  Key, Entry, Redis, subscription_version, subscriber, changelog, number_or_zero,
}
use omnimap_sync.World.{World, Exec, ◌>>=◌, read, continue, gets, request}
use omnimap_sync.World.Keeps.{Returned}
use omnimap_sync.World.Ensures.{IsCalm, request_with_calm}
use omnimap_sync.Env.{Env}

module _ {S : Type 0} {A : Type 0} (Q : A → Type 0) where
  pub Returned-if :
      (test : Bool) (m n : Exec S A) (w : World S)
      → (test ≡ true → Returned Q (m w).0)
      → (test ≡ false → Returned Q (n w).0)
      → Returned Q ((if test then m else n) w).0
  Returned-if true m n w accept refuse = accept refl
  Returned-if false m n w accept refuse = refuse refl

-- A read whose reply arrives goes on with what Redis holds.
pub Returned-read :
    (R : Redis) {A : Type 0} (Q : A → Type 0) (k : Key) (f : Entry → Exec R.State A)
    (w : World R.State)
    → IsCalm w
    → Returned Q (f (R.view w.redis k) w).0
    → Returned Q ((read R k >>= f) w).0
unfolding read request ◌>>=◌ gets
Returned-read R Q k f w calm h =
    subst
      (λ r.
        Returned Q
          (continue f (continue (λ _. gets (λ v. R.view v.redis k)) r.0 r.1).0
            (continue (λ _. gets (λ v. R.view v.redis k)) r.0 r.1).1).0)
      (sym (request_with_calm w.faults w calm)) h

-- One integer is greater than the other.
abbrev pub differs : ℤ → ℤ → Bool
differs a b = ltbℤ a b || ltbℤ b a

-- The first entry comes after the one that follows the cursor.
abbrev pub lacks_next : ℕ → List (String × ℕ) → Bool
lacks_next cursor [] = false
lacks_next cursor ((member, score) ∷ entries) = ltb (cursor + 1) score

module _ (E : Env) where
  -- The versions differ, the user has no blocks, or the changelog lacks the entry after the cursor,
  -- and has later ones.
  abbrev pub needs_resync : String → ℕ → ℕ → E.redis.State → Bool
  needs_resync user cursor version s =
      differs (pos version) (number_or_zero (E.redis.view s (subscription_version user)).number)
      || (eqb (length (E.redis.view s (subscriber user)).members) 0
          || lacks_next cursor (E.redis.view s changelog).scored)

  abbrev Resyncs : Bool → BlockUpdatesV2Response → Type 0
  Resyncs b r = r.full_resync_required ≡ b

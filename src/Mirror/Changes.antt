-- ===== src/Mirror/Changes.antt =====
-- Whether a client can tell from the version of its subscriptions that they have changed:
-- app/rabbitmq_consumer.py raises the version, and app/websockets.py compares it.
use omnimap_sync.Prelude.{
  ℕ, ℤ, suc, lebℤ, ◌<ℤ◌, String, Bool, true, false, ◌==◌, List, [], ◌∷◌, contains, ◌≡◌, ◌≢◌, ◌⊎◌,
  inl, inr, refl, arith,
}
use omnimap_sync.Models.{id_text}
use omnimap_sync.Redis.{IsLawful}
use omnimap_sync.World.{World}
use omnimap_sync.Env.{Env}
use omnimap_sync.Mirror.{blocks_of}
use omnimap_sync.Mirror.Versions.{version_of, IsNoted, IsNoted-weaken, leb_refl}
use omnimap_sync.Mirror.Bumps.Handlers.{subscribe-Ensures, unsubscribe-Ensures, update_access-Leads}
use omnimap_sync.Mirror.Refinement.{Change, grants, subscribes, removes, perform, perform_all}

lt_or_same : (a b : ℤ) → lebℤ a b ≡ true → (a <ℤ b) ⊎ (b ≡ a)
lt_or_same a b h = ground arith

module _ (E : Env) (L : IsLawful E.redis) (enabled : E.settings.sync_v2_enabled ≡ true) (n : ℕ)
    (chunked : E.settings.block_portion ≡ suc n) (u : String) (start : ℤ)
    (before : String → Bool) where
  abbrev Kept : World E.redis.State → Type 0
  Kept w = IsNoted E.redis L u start before false w.redis

  pending :
      (p : Bool) (w : World E.redis.State) → Kept w → IsNoted E.redis L u start before p w.redis
  pending p w h = IsNoted-weaken E.redis L u start before false p w.redis (λ _. refl) h

  perform-Kept :
      (c : Change) (w : World E.redis.State)
      → Kept w
      → Kept (perform E c (record w { faults = [] })).1
  perform-Kept (grants msg) w h =
      (update_access-Leads E L enabled u start before n msg chunked).at (record w { faults = [] })
        (refl, pending (id_text msg.user_id == u) w h)
  perform-Kept (subscribes msg) w h =
      ((subscribe-Ensures E L enabled u start before n msg chunked).after (record w { faults = [] })
        (refl, pending (id_text msg.user_id == u) w h)).1
  perform-Kept (removes msg) w h =
      ((unsubscribe-Ensures E L enabled u start before n msg chunked).after
        (record w { faults = [] }) (refl, h)).1

  perform_all-Kept :
      (cs : List Change) (w : World E.redis.State) → Kept w → Kept (perform_all E cs w)
  unfolding perform_all
  perform_all-Kept [] w h = h
  perform_all-Kept (c ∷ cs) w h =
      perform_all-Kept cs (perform E c (record w { faults = [] })).1 (perform-Kept c w h)

-- If the sync by cursor is enabled and chunks have at least one element, then after any messages of
-- action_update_access, action_subscribe and action_unsubscribe, handled one after the other while no
-- request to Redis fails, a user who is now subscribed to a block and was not, or was and is not
-- now, has a greater version of the subscriptions than before.
pub perform_all-version_of :
    (E : Env) (L : IsLawful E.redis) (n : ℕ) (cs : List Change) (w : World E.redis.State)
    (u b : String)
    → E.settings.sync_v2_enabled ≡ true
    → E.settings.block_portion ≡ suc n
    → contains (blocks_of E.redis (perform_all E cs w).redis u) b
      ≢ contains (blocks_of E.redis w.redis u) b
    → version_of E.redis w.redis u <ℤ version_of E.redis (perform_all E cs w).redis u
perform_all-version_of E L n cs w u b enabled chunked changed =
    let start = version_of E.redis w.redis u in
    let kept =
      perform_all-Kept E L enabled n chunked u start (contains (blocks_of E.redis w.redis u)) cs w
        (record { grown = leb_refl start; blocks = λ _ _ c. refl }) in
    elim (lt_or_same start (version_of E.redis (perform_all E cs w).redis u) kept.grown) [
      | inl greater ↦ greater
      | inr same ↦ absurd (changed (kept.blocks refl same b))
    ]

-- ===== src/Mirror/Refinement.antt =====
-- The two indexes of app/rabbitmq_consumer.py as one relation between blocks and users.
use omnimap_sync.Prelude.{
  ℕ, suc, String, Bool, not, ◌&&◌, ◌||◌, ◌==◌, List, [], ◌∷◌, ◌++◌, contains, ◌≡◌, refl, sym, ap,
  ◌∙◌,
}
use omnimap_sync.Models.{UpdateAccessMessage, SubscribeMessage, UnsubscribeMessage, id_text}
use omnimap_sync.Redis.{IsLawful}
use omnimap_sync.World.{World, Exec}
use omnimap_sync.Env.{Env}
use omnimap_sync.Consumer.Access.{subscribe, update_access, unsubscribe}
use omnimap_sync.Mirror.{subscribers_of, blocks_of, IsMirrored}
use omnimap_sync.Mirror.Effects.{
  is_subscribed_after, update_access-subscribers_of, subscribe-subscribers_of,
}
use omnimap_sync.Mirror.Handlers.{subscribe-Keeps, update_access-Keeps, unsubscribe-Keeps}
use omnimap_sync.Mirror.Unsubscribing.{unsubscribe-AreCleared}

-- A message that changes who is subscribed to what.
pub data Change : Type 0 where
  grants : UpdateAccessMessage → Change
  subscribes : SubscribeMessage → Change
  removes : UnsubscribeMessage → Change

-- Whether a user is subscribed to a block: the block first.
abbrev pub Subscriptions : Type 0
Subscriptions = String → String → Bool

-- What the message means for the relation.
abbrev pub change : Change → Subscriptions → Subscriptions
change (grants msg) r b v =
    is_subscribed_after msg.permission (r b v)
      (id_text msg.user_id == v && contains (msg.block_uuids ++ msg.start_block_ids) b)
change (subscribes msg) r b v = r b v || (id_text msg.user_id == v && contains msg.block_uuids b)
change (removes msg) r b v = r b v && not (contains msg.block_uuids b)

unfoldable pub replay : List Change → Subscriptions → Subscriptions
replay [] r = r
replay (c ∷ cs) r = replay cs (change c r)

module _ (E : Env) where
  abbrev pub perform : Change → Exec E.redis.State Unit
  perform (grants msg) = update_access E msg
  perform (subscribes msg) = subscribe E msg
  perform (removes msg) = unsubscribe E msg

  -- The messages one after the other, while no request fails.
  unfoldable pub perform_all : List Change → World E.redis.State → World E.redis.State
  perform_all [] w = w
  perform_all (c ∷ cs) w = perform_all cs (perform c (record w { faults = [] })).1

module _ (E : Env) (L : IsLawful E.redis) (n : ℕ) (chunked : E.settings.block_portion ≡ suc n) where
  perform_lem :
      (c : Change) (w : World E.redis.State) (r : Subscriptions)
      → ((b v : String) → contains (subscribers_of E.redis w.redis b) v ≡ r b v)
      → (b v : String)
      → contains (subscribers_of E.redis (perform E c (record w { faults = [] })).1.redis b) v
        ≡ change c r b v
  perform_lem (grants msg) w r h b v =
      update_access-subscribers_of E L n msg (record w { faults = [] }) b v chunked refl
      ∙ ap
          (λ t.
            is_subscribed_after msg.permission t
              (id_text msg.user_id == v && contains (msg.block_uuids ++ msg.start_block_ids) b))
          (h b v)
  perform_lem (subscribes msg) w r h b v =
      subscribe-subscribers_of E L n msg (record w { faults = [] }) b v chunked refl
      ∙ ap (λ t. t || (id_text msg.user_id == v && contains msg.block_uuids b)) (h b v)
  perform_lem (removes msg) w r h b v =
      (unsubscribe-AreCleared E L n msg (record w { faults = [] }) b v chunked refl).0
      ∙ ap (λ t. t && not (contains msg.block_uuids b)) (h b v)

  perform-IsMirrored :
      (c : Change) (w : World E.redis.State)
      → IsMirrored E.redis w.redis
      → IsMirrored E.redis (perform E c (record w { faults = [] })).1.redis
  perform-IsMirrored (grants msg) w h =
      (update_access-Keeps E L msg).at (record w { faults = [] }) h
  perform-IsMirrored (subscribes msg) w h =
      (subscribe-Keeps E L msg).at (record w { faults = [] }) h
  perform-IsMirrored (removes msg) w h = (unsubscribe-Keeps E L msg).at (record w { faults = [] }) h

  perform_all_lem :
      (cs : List Change) (w : World E.redis.State) (r : Subscriptions)
      → IsMirrored E.redis w.redis
      → ((b v : String) → contains (subscribers_of E.redis w.redis b) v ≡ r b v)
      → (b v : String)
      → (contains (subscribers_of E.redis (perform_all E cs w).redis b) v ≡ replay cs r b v)
        × (contains (blocks_of E.redis (perform_all E cs w).redis v) b ≡ replay cs r b v)
  unfolding perform_all replay
  perform_all_lem [] w r m h b v = (h b v, sym (m v b) ∙ h b v)
  perform_all_lem (c ∷ cs) w r m h b v =
      perform_all_lem cs (perform E c (record w { faults = [] })).1 (change c r)
        (perform-IsMirrored c w m) (perform_lem c w r h) b v

-- If chunks have at least one element and the two indexes agree at first, then after any messages of
-- action_update_access, action_subscribe and action_unsubscribe, handled one after the other while no
-- request to Redis fails, both the sets of subscribers and the sets of blocks are those of one
-- relation, which each message changes as it says.
pub perform_all-replay :
    (E : Env) (L : IsLawful E.redis) (n : ℕ) (cs : List Change) (w : World E.redis.State)
    (b v : String)
    → E.settings.block_portion ≡ suc n
    → IsMirrored E.redis w.redis
    → (contains (subscribers_of E.redis (perform_all E cs w).redis b) v
        ≡ replay cs (λ c u. contains (subscribers_of E.redis w.redis c) u) b v)
      × (contains (blocks_of E.redis (perform_all E cs w).redis v) b
          ≡ replay cs (λ c u. contains (subscribers_of E.redis w.redis c) u) b v)
perform_all-replay E L n cs w b v chunked m =
    perform_all_lem E L n chunked cs w (λ c u. contains (subscribers_of E.redis w.redis c) u) m
      (λ c u. refl) b v

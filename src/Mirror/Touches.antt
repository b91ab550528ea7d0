-- ===== src/Mirror/Touches.antt =====
-- Whose blocks the pipelines of app/rabbitmq_consumer.py change: none but those of the user that
-- they are for, or of subscribers.
use omnimap_sync.Prelude.{
  Bool-cases, inl, inr, String, true, ◌||◌, ◌==◌, eq_iff, List, [], ◌∷◌, map, Dict, contains,
  contains-insert, insert, ◌≡◌, refl, arith,
}
use omnimap_sync.Prelude.Assoc
use omnimap_sync.Redis.{subscriber, srem, Entry}
use omnimap_sync.Consumer.Access.{
  add_users, blocks_or_nil, user_blocks_of, all_subscribers_of, union, srem_commands,
}
use omnimap_sync.Consumer.Changelog.{unique}
use omnimap_sync.Consumer.Pipelines.{map-AllKeys}
use omnimap_sync.Mirror.Versions.{is_other, touches_of_others, touches, touches-append}

-- Users whose blocks the pipeline of `action_unsubscribe` changes are among the subscribers.
keys-put :
    (d : Dict (List String)) (u v : String) (xs : List String)
    → contains (Assoc.keys (Assoc.put d u xs)) v ≡ (u == v || contains (Assoc.keys d) v)
keys-put [] u v xs = ground arith
keys-put ((w, ys) ∷ d) u v xs =
    ground (arith, eq_iff w u, eq_iff w v, eq_iff u v, keys-put d u v xs)

keys-add_users :
    (b : String) (users : List String) (d : Dict (List String)) (v : String)
    → contains (Assoc.keys (add_users b users d)) v
      ≡ (contains users v || contains (Assoc.keys d) v)
unfolding add_users
keys-add_users b [] d v = refl
keys-add_users b (u ∷ users) d v =
    let e = Assoc.put d u (insert b (blocks_or_nil (Assoc.get d u))) in
    ground
      (arith, keys-add_users b users e v, keys-put d u v (insert b (blocks_or_nil (Assoc.get d u))))

contains-union :
    (seen users : List String) (v : String)
    → contains (union seen users) v ≡ (contains seen v || contains users v)
contains-union seen [] v = ground arith
contains-union seen (u ∷ users) v =
    ground (arith, eq_iff u v, contains-insert u seen v, contains-union (insert u seen) users v)

seen_stays :
    (entries : List Entry) (seen : List String) (v : String)
    → contains seen v ≡ true
    → contains (all_subscribers_of entries seen) v ≡ true
unfolding all_subscribers_of
seen_stays [] seen v h = h
seen_stays (e ∷ entries) seen v h =
    seen_stays entries (union seen e.members) v (ground (arith, contains-union seen e.members v))

-- The dict has keys among the subscribers, if it had before.
pub keys-user_blocks_of :
    (bs : List String) (entries : List Entry) (d : Dict (List String)) (seen : List String)
    (v : String)
    → (contains (Assoc.keys d) v ≡ true → contains seen v ≡ true)
    → contains (Assoc.keys (user_blocks_of bs entries d)) v ≡ true
    → contains (all_subscribers_of entries seen) v ≡ true
unfolding user_blocks_of all_subscribers_of
keys-user_blocks_of [] entries d seen v k h = seen_stays entries seen v (k h)
keys-user_blocks_of (b ∷ bs) [] d seen v k h = k h
keys-user_blocks_of (b ∷ bs) (e ∷ entries) d seen v k h =
    keys-user_blocks_of bs entries (add_users b e.members d) (union seen e.members) v
      (λ t. ground (arith, keys-add_users b e.members d v, contains-union seen e.members v, k)) h

pub touches-srem_commands :
    (d : Dict (List String)) (u : String)
    → touches u (srem_commands d) ≡ true
    → contains (Assoc.keys d) u ≡ true
unfolding srem_commands
touches-srem_commands ((user, bs) ∷ d) u h = elim (Bool-cases (user == u)) [
  | inl same ↦ ground arith
  | inr other ↦ ground (
    arith,
    touches-append u (map (λ b. (subscriber user, srem b)) bs) (srem_commands d),
    touches_of_others u (map (λ b. (subscriber user, srem b)) bs)
        (map-AllKeys (is_other u) (λ b. subscriber user) srem bs (λ b. rw other refl)),
    touches-srem_commands d u,
  )
]
touches-srem_commands [] u h = cc

pub contains-unique :
    (seen users : List String) (v : String)
    → contains (unique seen users) v ≡ (contains seen v || contains users v)
unfolding unique
contains-unique seen [] v = ground arith
contains-unique seen (u ∷ users) v =
    ground (arith, eq_iff u v, contains-insert u seen v, contains-unique (insert u seen) users v)

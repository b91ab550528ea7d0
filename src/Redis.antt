-- ===== src/Redis.antt =====
-- Redis, a service that the code only calls: the keys that app/connection_manager.py,
-- app/rabbitmq_consumer.py and app/websockets.py build, the commands that they send, and an
-- interface with the documented effect of each command. The store itself is a parameter.
pub mod Keys
pub mod Memory
use omnimap_sync.Prelude.{
  ℕ, ℤ, pos, ◌-◌, ◌+ℤ◌, String, Bool, true, false, ◌==◌, Option, none, some, List, [], ◌∷◌, ◌++◌,
  length, drop, insert, remove, is_empty, contains, Dict, ltb, if◌then◌else◌, ◌≡◌, ◌<>◌, ◌||◌, eqb,
  ◌&&◌,
}
use omnimap_sync.Prelude.Assoc

-- The key patterns of the code, each with the text that it is filled with.
pub data Key : Type 0 where
  -- block:{block_uuid}, the users who are subscribed to a block
  block : String → Key
  -- blockdata:{block_uuid}
  blockdata : String → Key
  -- subscriber:{user_id}:blocks, the blocks that a user is subscribed to
  subscriber : String → Key
  -- sandbox:{block_uuid}
  sandbox : String → Key
  -- user_online:{user_id}
  user_online : String → Key
  -- {SUBSCRIPTION_VERSION_KEY_PREFIX}{user_id}
  subscription_version : String → Key
  -- CHANGELOG_KEY, CHANGELOG_SEQ_KEY
  changelog changelog_seq : Key

abbrev pub same_key : Key → Key → Bool
same_key (block a) (block b) = a == b
same_key (blockdata a) (blockdata b) = a == b
same_key (subscriber a) (subscriber b) = a == b
same_key (sandbox a) (sandbox b) = a == b
same_key (user_online a) (user_online b) = a == b
same_key (subscription_version a) (subscription_version b) = a == b
same_key changelog changelog = true
same_key changelog_seq changelog_seq = true
same_key _ _ = false

-- The commands that write.
pub data Command : Type 0 where
  sadd srem : String → Command
  hset : Dict String → Command
  delete : Command
  incrby : ℤ → Command
  expire : ℕ → Command
  zadd : String → ℕ → Command
  -- ZREMRANGEBYRANK key 0 -(n + 1)
  zkeep : ℕ → Command

-- What a key holds, for each kind of value, and its time to live.
pub record Entry : Type 0 where
  pub members : List String
  pub fields : Dict String
  pub number : Option ℤ
  pub scored : List (String × ℕ)
  pub ttl : Option ℕ

abbrev pub missing : Entry
missing = record { members = []; fields = []; number = none; scored = []; ttl = none }

abbrev pub is_none : Option ℤ → Bool
is_none none = true
is_none (some z) = false

abbrev pub is_missing : Entry → Bool
is_missing e = is_empty e.members && is_empty e.fields && is_empty e.scored && is_none e.number

abbrev pub hset_fields : Dict String → Dict String → Dict String
hset_fields old [] = old
hset_fields old ((k, v) ∷ new) = hset_fields (Assoc.put old k v) new

abbrev pub number_or_zero : Option ℤ → ℤ
number_or_zero none = pos 0
number_or_zero (some z) = z

-- A sorted set is kept in the order of its scores.
abbrev pub zinsert : String → ℕ → List (String × ℕ) → List (String × ℕ)
zinsert m n [] = (m, n) ∷ []
zinsert m n ((m', n') ∷ es) = if ltb n n' then (m, n) ∷ (m', n') ∷ es else (m', n') ∷ zinsert m n es

abbrev pub zremove : String → List (String × ℕ) → List (String × ℕ)
zremove m [] = []
zremove m ((m', n) ∷ es) = let rest = zremove m es in if m' == m then rest else (m', n) ∷ rest

-- What the documentation of Redis says that a command does to its key.
abbrev pub effect : Command → Entry → Entry
effect (sadd m) e = record e { members = insert m e.members }
effect (srem m) e = record e { members = remove m e.members }
effect (hset fs) e = record e { fields = hset_fields e.fields fs }
effect delete e = missing
effect (incrby z) e = record e { number = some (number_or_zero e.number +ℤ z) }
effect (expire t) e = if is_missing e then e else record e { ttl = some t }
effect (zadd m n) e = record e { scored = zinsert m n (zremove m e.scored) }
effect (zkeep n) e = record e { scored = drop (length e.scored - n) e.scored }

pub record Redis : Type 1 where
  pub State : Type 0
  pub view : State → Key → Entry
  pub write : State → Key → Command → State

-- A command changes its own key, as documented, and no other.
pub record IsLawful (R : Redis) : Type 0 where
  pub view-write :
      (s : R.State) (k : Key) (c : Command) (j : Key)
      → R.view (R.write s k c) j ≡ (if same_key k j then effect c (R.view s k) else R.view s j)

-- ===== src/Mirror.antt =====
-- The two indexes of the subscriptions, block:{uuid} and subscriber:{user}:blocks, and the
-- commands of app/rabbitmq_consumer.py that write them.
pub mod Removal
pub mod Steps
pub mod Sends
pub mod Rows
pub mod Effects
pub mod Handlers
pub mod Updates
pub mod Dispatch
pub mod Messages
pub mod Delivery
pub mod Clearing
pub mod Unsubscribing
pub mod Refinement
pub mod Versions
pub mod Touches
pub mod Bumps
pub mod Changes
use omnimap_sync.Prelude.{
  String, Bool, true, false, not, ◌&&◌, ◌||◌, ◌==◌, eq_iff, List, [], ◌∷◌, ◌++◌, map, contains,
  insert, remove, contains-insert, contains-remove, Dict, ◌≡◌, refl, arith, ap, sym, ◌∙◌, Option,
  none, some, All, if◌then◌else◌,
}
use omnimap_sync.Prelude.Assoc
use omnimap_sync.Redis.{
  Key, block, blockdata, subscriber, sandbox, user_online, subscription_version, changelog,
  changelog_seq, Command, sadd, srem, Entry, same_key, effect, Redis, IsLawful,
}
use omnimap_sync.World.{apply_all}
use omnimap_sync.Consumer.Pipelines.{AllKeys, apply_all-AllKeys}
use omnimap_sync.Consumer.Access.{subscribe_commands, revoke_commands}

-- Keys of neither index.
abbrev pub is_neutral : Key → Bool
is_neutral (block b) = false
is_neutral (subscriber u) = false
is_neutral _ = true

abbrev pub AllNeutral : List (Key × Command) → Type 0
AllNeutral = AllKeys is_neutral

module _ (R : Redis) where
  -- What a key holds after a command.
  abbrev pub entry_after : R.State → Key → Command → Key → Entry
  entry_after s k c j = if same_key k j then effect c (R.view s k) else R.view s j

  abbrev pub subscribers_of : R.State → String → List String
  subscribers_of s b = (R.view s (block b)).members

  abbrev pub blocks_of : R.State → String → List String
  blocks_of s u = (R.view s (subscriber u)).members

  -- A user is among a block's subscribers exactly if the block is among the user's blocks.
  abbrev pub IsMirrored : R.State → Type 0
  IsMirrored s = (u b : String) → contains (subscribers_of s b) u ≡ contains (blocks_of s u) b

module _ (R : Redis) (L : IsLawful R) where
  pub neutral_block : (k : Key) (b : String) → is_neutral k ≡ true → same_key k (block b) ≡ false
  neutral_block (block a) b h = cc
  neutral_block (subscriber u) b h = refl
  neutral_block _ b h = refl

  neutral_subscriber :
      (k : Key) (u : String) → is_neutral k ≡ true → same_key k (subscriber u) ≡ false
  neutral_subscriber (subscriber v) u h = cc
  neutral_subscriber (block b) u h = refl
  neutral_subscriber _ u h = refl

  -- The members of a block's and of a user's set after a command.
  pub contains-subscribers_of :
      (s : R.State) (k : Key) (c : Command) (b u : String)
      → contains (subscribers_of R (R.write s k c) b) u
        ≡ contains (entry_after R s k c (block b)).members u
  contains-subscribers_of s k c b u =
      ap (λ (e : Entry). contains e.members u) (L.view-write s k c (block b))

  pub contains-blocks_of :
      (s : R.State) (k : Key) (c : Command) (u b : String)
      → contains (blocks_of R (R.write s k c) u) b
        ≡ contains (entry_after R s k c (subscriber u)).members b
  contains-blocks_of s k c u b =
      ap (λ (e : Entry). contains e.members b) (L.view-write s k c (subscriber u))

  pub write_neutral-IsMirrored :
      (s : R.State) (k : Key) (c : Command)
      → is_neutral k ≡ true
      → IsMirrored R s
      → IsMirrored R (R.write s k c)
  write_neutral-IsMirrored s k c n h u b =
      (rw (neutral_block k b n) at (contains-subscribers_of s k c b u))
      ∙ h u b
      ∙ sym (rw (neutral_subscriber k u n) at (contains-blocks_of s k c u b))

  pub apply_neutral-IsMirrored :
      (s : R.State) (cs : List (Key × Command))
      → AllNeutral cs
      → IsMirrored R s
      → IsMirrored R (apply_all R s cs)
  apply_neutral-IsMirrored s cs n h =
      apply_all-AllKeys is_neutral R (IsMirrored R) write_neutral-IsMirrored s cs n h

  subscribe_pair-IsMirrored :
      (s : R.State) (user b : String)
      → IsMirrored R s
      → IsMirrored R (R.write (R.write s (block b) (sadd user)) (subscriber user) (sadd b))
  subscribe_pair-IsMirrored s user b h u c =
      let s' = R.write s (block b) (sadd user) in
      ground (
        arith,
        h u c,
        eq_iff b c,
        eq_iff user u,
        contains-subscribers_of s' (subscriber user) (sadd b) c u,
        contains-blocks_of s' (subscriber user) (sadd b) u c,
        contains-subscribers_of s (block b) (sadd user) c u,
        contains-blocks_of s (block b) (sadd user) u c,
        L.view-write s (block b) (sadd user) (subscriber user),
        contains-insert user (subscribers_of R s b) u,
        contains-insert b (blocks_of R s user) c,
      )

  revoke_pair-IsMirrored :
      (s : R.State) (user b : String)
      → IsMirrored R s
      → IsMirrored R (R.write (R.write s (block b) (srem user)) (subscriber user) (srem b))
  revoke_pair-IsMirrored s user b h u c =
      let s' = R.write s (block b) (srem user) in
      ground (
        arith,
        h u c,
        eq_iff b c,
        eq_iff user u,
        contains-subscribers_of s' (subscriber user) (srem b) c u,
        contains-blocks_of s' (subscriber user) (srem b) u c,
        contains-subscribers_of s (block b) (srem user) c u,
        contains-blocks_of s (block b) (srem user) u c,
        L.view-write s (block b) (srem user) (subscriber user),
        contains-remove user (subscribers_of R s b) u,
        contains-remove b (blocks_of R s user) c,
      )

  pub subscribe_commands-IsMirrored :
      (s : R.State) (user : String) (bs : List String)
      → IsMirrored R s
      → IsMirrored R (apply_all R s (subscribe_commands user bs))
  unfolding apply_all subscribe_commands
  subscribe_commands-IsMirrored s user [] h = h
  subscribe_commands-IsMirrored s user (b ∷ bs) h =
      subscribe_commands-IsMirrored
        (R.write (R.write s (block b) (sadd user)) (subscriber user) (sadd b)) user bs
        (subscribe_pair-IsMirrored s user b h)

  pub revoke_commands-IsMirrored :
      (s : R.State) (user : String) (bs : List String)
      → IsMirrored R s
      → IsMirrored R (apply_all R s (revoke_commands user bs))
  unfolding apply_all revoke_commands
  revoke_commands-IsMirrored s user [] h = h
  revoke_commands-IsMirrored s user (b ∷ bs) h =
      revoke_commands-IsMirrored
        (R.write (R.write s (block b) (srem user)) (subscriber user) (srem b)) user bs
        (revoke_pair-IsMirrored s user b h)

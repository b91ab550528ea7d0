-- ===== src/Mirror/Unsubscribing.antt =====
-- What action_unsubscribe of app/rabbitmq_consumer.py does when no request to Redis fails.
use mathlib.Core.Path.{subst}
use omnimap_sync.Prelude.{
  ℕ, suc, String, Bool, true, false, not, ◌&&◌, ◌||◌, List, [], ◌++◌, map, contains,
  contains-append, is_empty, eqb, Dict, ◌≡◌, refl, ◌∙◌, sym, ap, arith, if◌then◌else◌,
}
use omnimap_sync.Models.{Outgoing, UnsubscribeMessage}
use omnimap_sync.Redis.{
  Key, block, subscription_version, changelog, changelog_seq, blockdata, Command, Entry, same_key,
  IsLawful,
}
use omnimap_sync.World.{World, Exec, spawn, apply_all, write_all}
use omnimap_sync.World.Ensures.{
  Ensures, IsCalm, Ensures-pure, Ensures-if, Ensures-try_except, Ensures-bind, Ensures-for_each,
  Ensures-weaken, Ensures-write_all, Ensures-write_read, Ensures-read_all,
}
use omnimap_sync.Consumer.Pipelines.{AllKeys, apply_all-AllKeys, zadd_events-AllKeys, bumps-AllKeys}
use omnimap_sync.Env.{Env}
use omnimap_sync.Consumer.Access.{
  chunks, srem_commands, delete_commands, user_blocks_of, all_subscribers_of, for_chunks,
  clear_chunk, tell_and_clear, unsubscribe_chunk, unsubscribe,
}
use omnimap_sync.Consumer.Changelog.{
  Op, unique, append_changelog_events, bump_subscription_versions,
}
use omnimap_sync.Consumer.Chunks.{concat, concat-chunks}
use omnimap_sync.Mirror.{subscribers_of, contains-subscribers_of}
use omnimap_sync.Mirror.Clearing.{data_of, data_of-write, data_of-cleared, subscribers-cleared}

-- Keys of the changelog and of the versions.
abbrev is_stamp : Key → Bool
is_stamp changelog = true
is_stamp changelog_seq = true
is_stamp (subscription_version u) = true
is_stamp _ = false

stamp_block : (k : Key) (b : String) → is_stamp k ≡ true → same_key k (block b) ≡ false
stamp_block (block a) b h = cc
stamp_block _ b h = refl

stamp_blockdata : (k : Key) (b : String) → is_stamp k ≡ true → same_key k (blockdata b) ≡ false
stamp_blockdata (blockdata a) b h = cc
stamp_blockdata _ b h = refl

no_portion : (p n : ℕ) → p ≡ suc n → eqb p 0 ≡ true → ⊥
no_portion p n h e = ground arith

module _ (E : Env) (L : IsLawful E.redis) (subscribed : String → String → Bool)
    (rows_after : String → Dict String) where
  -- Once these blocks are cleared too, the subscribers and the rows are those of the section.
  pub record AreCleared (blocks : List String) (s : E.redis.State) : Type 0 where
    pub subscribers :
        (b v : String)
        → (contains (subscribers_of E.redis s b) v && not (contains blocks b)) ≡ subscribed b v
    pub rows :
        (b : String) → (if contains blocks b then [] else data_of E.redis L s b) ≡ rows_after b

  abbrev Cleared : List String → World E.redis.State → Type 0
  Cleared blocks w = IsCalm w × AreCleared blocks w.redis

  write_stamp-AreCleared :
      (blocks : List String) (s : E.redis.State) (k : Key) (c : Command)
      → is_stamp k ≡ true
      → AreCleared blocks s
      → AreCleared blocks (E.redis.write s k c)
  write_stamp-AreCleared blocks s k c n h = record {
    subscribers = λ b v.
        ap (λ t. t && not (contains blocks b))
          (rw (stamp_block k b n) at (contains-subscribers_of E.redis L s k c b v))
        ∙ h.subscribers b v;
    rows = λ b.
        ap (λ row. if contains blocks b then [] else row)
          (data_of-write E.redis L s k c b (stamp_blockdata k b n))
        ∙ h.rows b;
  }

  module _ (blocks : List String) where
    abbrev Stays : Exec E.redis.State Unit → Type 0
    Stays m = Ensures (Cleared blocks) (λ _. Cleared blocks) m

    stamps-Ensures :
        (cs : List (Key × Command)) → AllKeys is_stamp cs → Stays (write_all E.redis cs)
    stamps-Ensures cs n =
        Ensures-write_all E.redis (λ w h. h.0) cs
          (λ w h. (
            h.0,
            apply_all-AllKeys is_stamp E.redis (AreCleared blocks) (write_stamp-AreCleared blocks)
                w.redis cs n h.1,
          ))

    append-Ensures : (events : List (String × Op)) → Stays (append_changelog_events E events)
    unfolding append_changelog_events
    append-Ensures events =
        Ensures-if (not E.settings.sync_v2_enabled || is_empty events) _ _
          (λ _. Ensures-pure tt (λ w h. h))
          (λ _. Ensures-try_except _ _ (
            Ensures-bind (λ _. Cleared blocks) _ _
              (Ensures-write_read E.redis (λ w h. h.0) changelog_seq _
                (λ w h. (h.0, write_stamp-AreCleared blocks w.redis changelog_seq _ refl h.1)))
              (λ reply. stamps-Ensures _ (zadd_events-AllKeys is_stamp _ events _ refl))))

    bump-Ensures : (users : List String) → Stays (bump_subscription_versions E users)
    unfolding bump_subscription_versions
    bump-Ensures users =
        Ensures-if (not E.settings.sync_v2_enabled || is_empty users) _ _
          (λ _. Ensures-pure tt (λ w h. h))
          (λ _.
            Ensures-try_except _ _
              (stamps-Ensures _ (bumps-AllKeys is_stamp (unique [] users) (λ u. refl))))

    spawn-Ensures : (m : Outgoing) (users : List String) → Stays (spawn m users)
    unfolding spawn
    spawn-Ensures m users = record { value = λ w h. tt; returns = λ w h. refl; after = λ w h. h }

  clear-AreCleared :
      (chunk rest : List String) (d : Dict (List String)) (s : E.redis.State)
      → AreCleared (chunk ++ rest) s
      → AreCleared rest (apply_all E.redis s (srem_commands d ++ delete_commands chunk))
  clear-AreCleared chunk rest d s h = record {
    subscribers = λ b v. ground (
      arith,
      subscribers-cleared E.redis L s d chunk b v,
      h.subscribers b v,
      contains-append chunk rest b,
    );
    rows = λ b.
        ground
          (arith, data_of-cleared E.redis L s d chunk b, h.rows b, contains-append chunk rest b);
  }

  module _ (chunk rest : List String) where
    clear_chunk-Ensures :
        (entries : List Entry)
        → Ensures (Cleared (chunk ++ rest)) (λ _. Cleared rest) (clear_chunk E chunk entries)
    unfolding clear_chunk
    clear_chunk-Ensures entries =
        Ensures-bind (λ _. Cleared rest) _ _
          (Ensures-write_all E.redis (λ w h. h.0)
            (srem_commands (user_blocks_of chunk entries []) ++ delete_commands chunk)
            (λ w h. (h.0, clear-AreCleared chunk rest _ w.redis h.1)))
          (λ _.
            Ensures-bind (λ _. Cleared rest) _ _ (append-Ensures rest _) (λ _. bump-Ensures rest _))

    unsubscribe_chunk-Ensures :
        Ensures (Cleared (chunk ++ rest)) (λ _. Cleared rest) (unsubscribe_chunk E chunk)
    unfolding unsubscribe_chunk tell_and_clear
    unsubscribe_chunk-Ensures =
        Ensures-bind (λ _. Cleared (chunk ++ rest)) _ _
          (Ensures-read_all E.redis (λ w h. h.0) (map block chunk) (λ w h. h))
          (λ entries.
            Ensures-bind (λ _. Cleared (chunk ++ rest)) _ _
              (Ensures-for_each (λ _. Cleared (chunk ++ rest)) chunk _
                (λ b _. spawn-Ensures (chunk ++ rest) _ (all_subscribers_of entries [])))
              (λ _. clear_chunk-Ensures entries))

  unsubscribe-Ensures :
      (n : ℕ) (msg : UnsubscribeMessage)
      → E.settings.block_portion ≡ suc n
      → Ensures (Cleared msg.block_uuids) (λ _. Cleared []) (unsubscribe E msg)
  unfolding unsubscribe for_chunks
  unsubscribe-Ensures n msg h =
      let portion = E.settings.block_portion in
      let whole : concat (chunks portion msg.block_uuids) ≡ msg.block_uuids =
        ap (λ p. concat (chunks p msg.block_uuids)) h ∙ concat-chunks n msg.block_uuids in
      Ensures-try_except _ _ (
        Ensures-if (eqb portion 0) _ _ (λ e. absurd (no_portion portion n h e))
          (λ _.
            Ensures-weaken _
              (Ensures-for_each (λ chunks. Cleared (concat chunks)) (chunks portion msg.block_uuids)
                (unsubscribe_chunk E) (λ chunk rest. unsubscribe_chunk-Ensures chunk (concat rest)))
              (λ w k. (k.0, subst (λ bs. AreCleared bs w.redis) (sym whole) k.1)) (λ _ w k. k)))

-- If chunks have at least one element and no request to Redis fails, then after action_unsubscribe
-- the blocks that the message names have no subscribers and no data, and every other block has the
-- subscribers and the data that it had.
pub unsubscribe-AreCleared :
    (E : Env) (L : IsLawful E.redis) (n : ℕ) (msg : UnsubscribeMessage) (w : World E.redis.State)
    (b v : String)
    → E.settings.block_portion ≡ suc n
    → IsCalm w
    → (contains (subscribers_of E.redis (unsubscribe E msg w).1.redis b) v
        ≡ (contains (subscribers_of E.redis w.redis b) v && not (contains msg.block_uuids b)))
      × (data_of E.redis L (unsubscribe E msg w).1.redis b
          ≡ (if contains msg.block_uuids b then [] else data_of E.redis L w.redis b))
unsubscribe-AreCleared E L n msg w b v h calm =
    let subscribed : String → String → Bool =
      λ c u. contains (subscribers_of E.redis w.redis c) u && not (contains msg.block_uuids c) in
    let rows_after : String → Dict String =
      λ c. if contains msg.block_uuids c then [] else data_of E.redis L w.redis c in
    let cleared =
      (unsubscribe-Ensures E L subscribed rows_after n msg h).after w
        (calm, record { subscribers = λ c u. refl; rows = λ c. refl }) in
    (ground (arith, cleared.1.subscribers b v), cleared.1.rows b)

-- ===== src/Sync/Fresh.antt =====
-- When handle_get_updates of app/websockets.py asks for a full resync, and the blocks that it sends as
-- new.
use omnimap_sync.Prelude.{
  String, Bool, true, false, not, ◌&&◌, ◌||◌, none, List, [], ◌++◌, map, contains, is_empty, eqb,
  Dict, ◌≡◌, refl, sym, arith, if◌then◌else◌,
}
use omnimap_sync.Prelude.Assoc
use omnimap_sync.Value.{Value, Items}
use omnimap_sync.Models.{BlockUpdatesResponse}
use omnimap_sync.Redis.{subscriber}
use omnimap_sync.World.{World, Result, ok, raised, ◌>>=◌, pure, raise, value_error}
use omnimap_sync.World.Keeps.{Returned}
use omnimap_sync.World.Ensures.{IsCalm}
use omnimap_sync.Env.{Env}
use omnimap_sync.Sync.V1.{
  Split, split_blocks, new_block_ids, answer_split, get_updates, resync, new_blocks, deleted_value,
}
use omnimap_sync.Sync.Resync.{Returned-if, Returned-read}
use omnimap_sync.Sync.Reading.{compare_chunks-Keeps, split_blocks-Keeps}
use omnimap_sync.Sync.Cover.{IsSorted, split_all}
use omnimap_sync.Sync.Listed.{
  lists, some_listed, unlisted, Adds, split_blocks-Adds, is_empty_lem, new_block_ids_lem,
}
use omnimap_sync.Sync.Still.{
  bind_still, any_result, read-Still, read_all-Still, fresh_rows, new_blocks_lem,
}

module _ (E : Env) (w : World E.redis.State) (calm : IsCalm w) where
  module _ (user : String) (blocks : Items) where
    abbrev members : List String
    members = (E.redis.view w.redis (subscriber user)).members

    -- The user has no blocks, or the request lists none of them.
    abbrev pub nothing_to_compare : Bool
    nothing_to_compare = is_empty members || not (some_listed blocks members)

    -- A full resync exactly then, and else as new the rows of the user's blocks that are not listed.
    abbrev pub SendsNew : BlockUpdatesResponse → Type 0
    SendsNew r =
        (r.full_resync_required ≡ nothing_to_compare)
        × (r.new_blocks
            ≡ (if nothing_to_compare then [] else fresh_rows E w calm (unlisted blocks members)))

    resync-SendsNew : (reason : String) → nothing_to_compare ≡ true → SendsNew (resync reason)
    resync-SendsNew reason n = (sym n, rw n refl)

    fresh-SendsNew :
        (rows : List (Dict Value)) (unsubscribed : List (Dict Value)) (ids : List String)
        → ids ≡ unlisted blocks members
        → nothing_to_compare ≡ false
        → Returned SendsNew
            ((do
              fresh ← new_blocks E ids
              pure (record {
                updates = rows ++ unsubscribed;
                new_blocks = fresh;
                full_resync_required = false;
                reason = none;
              }))
              w).0
    unfolding ◌>>=◌ pure
    fresh-SendsNew rows unsubscribed ids e n =
        rw (e, new_blocks_lem E w calm (unlisted blocks members)) (sym n, rw n refl)

    answer_split-SendsNew :
        (split : Split)
        → is_empty members ≡ false
        → is_empty split.valid ≡ not (some_listed blocks members)
        → new_block_ids split members ≡ unlisted blocks members
        → Returned SendsNew (answer_split E members split w).0
    unfolding answer_split raise
    answer_split-SendsNew split full valid ids =
        Returned-if SendsNew (is_empty split.valid) (pure (resync "no_valid_blocks")) _ w
          (λ empty. unfold pure in resync-SendsNew "no_valid_blocks" (ground arith))
          (λ some_valid.
            Returned-if SendsNew (eqb E.settings.block_portion 0) (raise value_error) _ w (λ _. tt)
              (λ _.
                bind_still (λ _. Unit) SendsNew w _ _
                  (compare_chunks-Keeps E (λ v. v ≡ w) (read-Still E w calm)
                    (read_all-Still E w calm) split.valid _)
                  (any_result _)
                  (λ rows _.
                    fresh-SendsNew rows (map deleted_value split.unsubscribed)
                      (new_block_ids split members) ids (ground arith))))

    abbrev no_split : Split
    no_split = record { valid = []; unsubscribed = [] }

    -- What is known of the two lists that the request is split into.
    abbrev IsSplit : Split → Type 0
    IsSplit split =
        IsSorted members split
        × ((b : String)
            → contains (Assoc.keys split.valid) b ≡ (contains members b && lists blocks b))

    both :
        (r : Result Split)
        → Returned (IsSorted members) r
        → Returned (Adds E members no_split (lists blocks)) r
        → Returned IsSplit r
    both (ok split) sorted added = (sorted, added)
    both (raised e) sorted added = tt

    split_blocks-IsSplit : Returned IsSplit (split_blocks E members no_split blocks w).0
    split_blocks-IsSplit =
        both (split_blocks E members no_split blocks w).0
          (split_all E members no_split blocks w
            (record { valid = λ b h. cc; unsubscribed = λ b h. cc }))
          (split_blocks-Adds E members no_split blocks w)

    split-SendsNew :
        (split : Split)
        → is_empty members ≡ false
        → IsSplit split
        → Returned SendsNew (answer_split E members split w).0
    split-SendsNew split full s =
        answer_split-SendsNew split full (is_empty_lem members blocks split s.0 s.1 split.valid s.1)
          (new_block_ids_lem members blocks split s.0 s.1 members (λ b h. h))

-- If no request to Redis fails, then whatever answer get_updates gives to a list of blocks, it asks
-- for a full resync, and sends no new blocks, exactly if the user has no blocks or the list has none
-- of them; else it sends as new the rows of the user's blocks that are not in the list, those left
-- out that Redis has no row of or whose time is infinite.
pub get_updates-SendsNew :
    (E : Env) (user : String) (blocks : Items) (w : World E.redis.State) (calm : IsCalm w)
    → Returned (SendsNew E w calm user blocks) (get_updates E user blocks w).0
unfolding get_updates
get_updates-SendsNew E user blocks w calm =
    Returned-read E.redis (SendsNew E w calm user blocks) (subscriber user) _ w calm (
      Returned-if (SendsNew E w calm user blocks)
        (is_empty (E.redis.view w.redis (subscriber user)).members)
        (pure (resync "no_subscriptions")) _ w
        (λ empty.
          unfold pure in resync-SendsNew E w calm user blocks "no_subscriptions" (ground arith))
        (λ full.
          bind_still (IsSplit E w calm user blocks) (SendsNew E w calm user blocks) w _ _
            (split_blocks-Keeps E (λ v. v ≡ w) (read-Still E w calm) (read_all-Still E w calm)
              (E.redis.view w.redis (subscriber user)).members (no_split E w calm user blocks)
              blocks)
            (split_blocks-IsSplit E w calm user blocks)
            (λ split s. split-SendsNew E w calm user blocks split full s)))

-- ===== src/Tests/Pulling.antt =====
-- The theorems on a client that asks get_updates_v2 of app/websockets.py, at concrete inputs.
use omnimap_sync.Prelude.{ℕ, suc, ◌≤◌, true, List, [], ◌∷◌, ◌≡◌, refl, pos, arith, length}
use omnimap_sync.Models.{BlockUpdatesV2Response}
use omnimap_sync.Redis.{changelog, subscriber, missing}
use omnimap_sync.Redis.Memory.{memory}
use omnimap_sync.World.{World, ok}
use omnimap_sync.Consumer.Changelog.{delete, decode_changelog_member}
use omnimap_sync.Consumer.Access.{deleted_block}
use omnimap_sync.Utils.{parse_redis_block_data}
use omnimap_sync.Sync.Page.{entries_after}
use omnimap_sync.Sync.V2.{get_updates_v2}
use omnimap_sync.Sync.Reference.{IsSynced}
use omnimap_sync.Sync.Description.{Describes, get_updates_v2-Describes}
use omnimap_sync.Sync.Bounds.{get_updates_v2-bound}
use omnimap_sync.Sync.Pull.{pull, is_complete, Tells}
use omnimap_sync.Sync.Pull.Pages.{pull-is_complete}
use omnimap_sync.Sync.Pull.Told.{pull-Tells}
use omnimap_sync.Tests.Inputs.{env, calm, log, reply}

-- Every user is subscribed to a and b, and Redis has no row.
abbrev synced : World memory.State
synced = record calm {
  redis = λ k. elim k [
    | changelog ↦ record missing { scored = log }
    | subscriber u ↦ reply ("a" ∷ "b" ∷ [])
    | _ ↦ missing
  ];
}

synced-IsSynced : IsSynced env "7" 0 synced
unfolding decode_changelog_member parse_redis_block_data
synced-IsSynced = record {
  calm = refl;
  same = refl;
  subscribed = refl;
  readable = λ b. refl;
  ascending = refl;
  decoded = (refl, (refl, (refl, tt)));
}

get_updates_v2-Describes_example :
    (r : BlockUpdatesV2Response) × (get_updates_v2 env "7" 0 0 (pos 2) synced ≡ (ok r, synced))
    × Describes env "7" (pos 2) synced 0 r
get_updates_v2-Describes_example =
    get_updates_v2-Describes env "7" (pos 2) synced 0 0 synced-IsSynced refl

pull-is_complete_example :
    (pages : List BlockUpdatesV2Response) × (pull env 4 "7" 0 0 (pos 2) synced ≡ (ok pages, synced))
    × (is_complete pages ≡ true)
    × (length pages ≤ suc (length (entries_after 0 log)))
unfolding entries_after
pull-is_complete_example =
    pull-is_complete env "7" 0 (pos 2) synced 4 0 synced-IsSynced refl (omega arith)

pull-Tells_example :
    (pages : List BlockUpdatesV2Response) × (pull env 4 "7" 0 0 (pos 2) synced ≡ (ok pages, synced))
    × Tells (deleted_block "a") pages
unfolding entries_after decode_changelog_member
pull-Tells_example =
    pull-Tells env "7" 0 (pos 2) synced 4 0 3 delete "a" synced-IsSynced refl (omega arith) refl
      refl

get_updates_v2-bound_example :
    (page : BlockUpdatesV2Response) × (next : ℕ) × (get_updates_v2 env "7" 0 0 (pos 20000) synced
      ≡ (ok page, synced))
    × (length page.updates ≤ 10000)
    × (page.next_cursor ≡ pos next)
    × (0 ≤ next)
get_updates_v2-bound_example =
    get_updates_v2-bound env "7" 0 (pos 20000) synced 0 synced-IsSynced refl

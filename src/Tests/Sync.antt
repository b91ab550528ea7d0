-- ===== src/Tests/Sync.antt =====
-- The theorems on app/websockets.py at concrete inputs.
use omnimap_sync.Prelude.{true, false, some, [], ◌∷◌, ◌≡◌, refl, contains}
use omnimap_sync.Value.{Items, str, dict, nil, end, field}
use omnimap_sync.Redis.{missing}
use omnimap_sync.Redis.Memory.{memory, memory-IsLawful}
use omnimap_sync.Consumer.Changelog.{delete, decode_changelog_member}
use omnimap_sync.Prelude.{take}
use omnimap_sync.Prelude.Assoc
use omnimap_sync.World.{World}
use omnimap_sync.World.Keeps.{Returned}
use omnimap_sync.Sync.Page.{entries_after, scan, ids_of, sort_events, relevant_events}
use omnimap_sync.Sync.Progress.{entries_after-scan}
use omnimap_sync.Sync.Latest.{get-scan}
use omnimap_sync.Sync.Answers.{contains-ids_of}
use omnimap_sync.Redis.{changelog, subscriber}
use omnimap_sync.Value.{item}
use omnimap_sync.Manager.{connections_of}
use omnimap_sync.Sync.V1.{get_updates}
use omnimap_sync.Sync.Fresh.{SendsNew, get_updates-SendsNew}
use omnimap_sync.Sync.Endpoint.{idle_timeout, websocket_endpoint}
use omnimap_sync.Sync.Sessions.{websocket_endpoint-connections_of}
use omnimap_sync.Sync.Untouched.{websocket_endpoint-IsUntouched}
use omnimap_sync.Tests.Inputs.{env, world, calm, log, identity, reply}

entries_after-scan_example :
    entries_after (scan (take 2 (entries_after 0 log)) (0, [])).0 log ≡ ("3:delete:a", 3) ∷ []
unfolding entries_after decode_changelog_member
entries_after-scan_example = entries_after-scan 0 2 0 log refl (refl, (refl, (refl, tt)))

get-scan_example : Assoc.get (scan log (0, [])).1 "a" ≡ some (3, delete)
unfolding decode_changelog_member
get-scan_example = get-scan 0 0 log "a" refl

contains-ids_of_example :
    contains
      (ids_of false (sort_events (relevant_events ("a" ∷ "b" ∷ []) (scan log (0, [])).1)))
      "a"
    ≡ true
unfolding decode_changelog_member
contains-ids_of_example = contains-ids_of false ("a" ∷ "b" ∷ []) 0 0 log "a" refl

websocket_endpoint-connections_of_example :
    connections_of
      (websocket_endpoint env identity 0
        (some "token")
        ("{}" ∷ "?" ∷ [])
        idle_timeout
        world).1.manager
      "7"
    ≡ []
websocket_endpoint-connections_of_example =
    websocket_endpoint-connections_of env identity 0 (some "token") ("{}" ∷ "?" ∷ []) idle_timeout
      world refl (λ v. refl) "7"

websocket_endpoint-IsUntouched_example :
    memory.view
      (websocket_endpoint env identity 0
        (some "token")
        ("{}" ∷ "?" ∷ [])
        idle_timeout
        world).1.redis
      changelog
    ≡ missing
websocket_endpoint-IsUntouched_example =
    websocket_endpoint-IsUntouched env memory-IsLawful identity 0 (some "token") ("{}" ∷ "?" ∷ [])
      idle_timeout world changelog refl

-- The request lists a and c, and the user has a and b.
abbrev asking : World memory.State
asking = record calm { redis = λ k. elim k [ subscriber u ↦ reply ("a" ∷ "b" ∷ []) | _ ↦ missing ] }

abbrev request : Items
request = item (dict (field "id" (str "a") end)) (item (dict (field "id" (str "c") end)) nil)

get_updates-SendsNew_example :
    Returned (SendsNew env asking refl "7" request) (get_updates env "7" request asking).0
get_updates-SendsNew_example = get_updates-SendsNew env "7" request asking refl

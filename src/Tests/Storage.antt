-- ===== src/Tests/Storage.antt =====
-- The theorems on app/connection_manager.py and on what Redis holds, at concrete inputs.
use omnimap_sync.Prelude.{true, false, some, ◌==◌, [], ◌∷◌, ◌≡◌, ◌≢◌, refl, pos, integer_text}
use omnimap_sync.Value.{null, int, str, list, dict, nil, end}
use omnimap_sync.Redis.{block}
use omnimap_sync.Redis.Memory.{memory}
use omnimap_sync.Redis.Keys.{render-injective}
use omnimap_sync.Redis.{same_key}
use omnimap_sync.World.{for_each}
use omnimap_sync.Utils.{
  parse_value, prepare_value, parse_redis_block_data, prepare_block_data_for_redis,
}
use omnimap_sync.Utils.RoundTrip.{parse-prepare, parse_value-prepare_value_ne}
use omnimap_sync.Manager.Connections.{IsConsistent}
use omnimap_sync.Manager.Coroutines.{connects, sends, disconnects, perform, calls-IsConsistent}
use omnimap_sync.Manager.Interleaving.{
  EventLoop, connect_called, send_called, disconnect_called, run_tasks, run_tasks-IsConsistent,
}
use omnimap_sync.Models.{subscription_event}
use omnimap_sync.Consumer.Changelog.{
  upsert, delete, changelog_member, decode_changelog_member, zadd_events,
}
use omnimap_sync.Consumer.Members.{
  decode_changelog_member-changelog_member, as_events, as_events-zadd_events,
}
use omnimap_sync.Tests.Inputs.{runtime, runtime-IsJson, settings, world}

calls-IsConsistent_example :
    IsConsistent
      (for_each
        (connects "7" 0
          ∷ connects "7" 1
          ∷ sends (subscription_event "subscription_created" []) "7"
          ∷ disconnects "7" 0
          ∷ [])
        (perform memory settings)
        world).1.manager
calls-IsConsistent_example =
    calls-IsConsistent memory settings
      (connects "7" 0
        ∷ connects "7" 1
        ∷ sends (subscription_event "subscription_created" []) "7"
        ∷ disconnects "7" 0
        ∷ [])
      world (record { listed = tt; active = refl; total = refl; users = refl })

-- The socket of "7" is dropped both by its endpoint and by the send that fails.
abbrev dropped_twice : EventLoop
dropped_twice = record {
  manager = world.manager;
  tasks = connect_called "7" 0 ∷ send_called "7" ∷ disconnect_called "7" 0 ∷ [];
}

run_tasks-IsConsistent_example :
    IsConsistent
      (run_tasks
        (λ user. user == "2")
        ((0, true) ∷ (0, true) ∷ (2, false) ∷ (0, true) ∷ (1, true) ∷ (1, true) ∷ [])
        dropped_twice).manager
run_tasks-IsConsistent_example =
    run_tasks-IsConsistent (λ user. user == "2")
      ((0, true) ∷ (0, true) ∷ (2, false) ∷ (0, true) ∷ (1, true) ∷ (1, true) ∷ []) dropped_twice
      (record { listed = tt; active = refl; total = refl; users = refl })

parse-prepare_example :
    parse_redis_block_data runtime (
      prepare_block_data_for_redis runtime (
        ("title", str "plan")
        ∷ ("parent_id", null)
        ∷ ("data", dict end)
        ∷ ("updated_at", int (pos 12))
        ∷ []))
    ≡ ("title", str "plan")
      ∷ ("parent_id", null)
      ∷ ("data", dict end)
      ∷ ("updated_at", str "12")
      ∷ []
unfolding integer_text
parse-prepare_example =
    parse-prepare runtime runtime-IsJson
      (("title", str "plan")
        ∷ ("parent_id", null)
        ∷ ("data", dict end)
        ∷ ("updated_at", int (pos 12))
        ∷ [])
      refl (refl, (tt, (refl, (tt, tt))))

parse_value-prepare_value_ne_example :
    parse_value runtime (prepare_value runtime (str "[]")) ≢ str "[]"
parse_value-prepare_value_ne_example =
    parse_value-prepare_value_ne runtime "[]" (list nil) refl (λ e. refl) refl

render-injective_example : same_key (block "a:b") (block "a:b") ≡ true
render-injective_example =
    render-injective settings
      (record { changelog_key = refl; changelog_seq_key = refl; prefix = refl }) (block "a:b")
      (block "a:b") refl

decode_changelog_member-changelog_member_example :
    decode_changelog_member (changelog_member 12 delete "a:b") ≡ some (delete, "a:b")
decode_changelog_member-changelog_member_example =
    decode_changelog_member-changelog_member 12 delete "a:b" refl

as_events-zadd_events_example :
    as_events (zadd_events 9 (("a", upsert) ∷ ("b", delete) ∷ []))
    ≡ some (9, some (upsert, "a")) ∷ some (10, some (delete, "b")) ∷ []
as_events-zadd_events_example =
    as_events-zadd_events 9 (("a", upsert) ∷ ("b", delete) ∷ []) (refl, (refl, tt))

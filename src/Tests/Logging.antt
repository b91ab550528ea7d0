-- ===== src/Tests/Logging.antt =====
-- The theorems on the changelog, at concrete inputs.
use omnimap_sync.Prelude.{◌≤◌, [], ◌∷◌, refl, length}
use omnimap_sync.Redis.Memory.{memory, memory-IsLawful}
use omnimap_sync.Consumer.Changelog.{upsert, delete, append_changelog_events}
use omnimap_sync.Consumer.Handle.{handle_message, readable}
use omnimap_sync.Log.{IsLogged, log_in}
use omnimap_sync.Log.Messages.{handle_message-IsLogged}
use omnimap_sync.Log.Bounds.{append_changelog_events-bound}
use omnimap_sync.Tests.Inputs.{message, env, world, calm}

-- A message that subscribes user 7, while the third request fails.
handle_message-IsLogged_example :
    IsLogged memory (handle_message env (message (readable "subscribe")) world).1.redis
handle_message-IsLogged_example =
    handle_message-IsLogged env memory-IsLawful (message (readable "subscribe")) world
      (record { number = 0; given = refl; ascending = refl; bounded = refl })

append_changelog_events-bound_example :
    length (
      log_in memory (append_changelog_events env (("a", upsert) ∷ ("b", delete) ∷ []) calm).1.redis)
    ≤ 1000
append_changelog_events-bound_example =
    append_changelog_events-bound env memory-IsLawful (("a", upsert) ∷ ("b", delete) ∷ []) calm refl
      refl refl refl

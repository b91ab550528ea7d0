-- ===== src/Tests/Subscriptions.antt =====
-- The theorems on the two indexes after several messages, at concrete inputs.
use omnimap_sync.Prelude.{[], ◌∷◌, ◌<ℤ◌, ◌≡◌, refl, true, false, contains, List, none}
use omnimap_sync.Models.{id_text, text, deny, UnsubscribeMessage}
use omnimap_sync.Redis.Memory.{memory, memory-IsLawful}
use omnimap_sync.Consumer.Access.{unsubscribe}
use omnimap_sync.Mirror.{subscribers_of, blocks_of}
use omnimap_sync.Mirror.Clearing.{data_of}
use omnimap_sync.Mirror.Unsubscribing.{unsubscribe-AreCleared}
use omnimap_sync.Mirror.Refinement.{
  Change, grants, subscribes, removes, perform_all, replay, perform_all-replay,
}
use omnimap_sync.Mirror.Versions.{version_of}
use omnimap_sync.Mirror.Changes.{perform_all-version_of}
use omnimap_sync.Tests.Inputs.{env, calm, subscribed}

abbrev removal : UnsubscribeMessage
removal = record { block_uuids = "a" ∷ "c" ∷ "d" ∷ [] }

unsubscribe-AreCleared_example :
    (contains (subscribers_of memory (unsubscribe env removal subscribed).1.redis "a") "7" ≡ false)
    × (data_of memory memory-IsLawful (unsubscribe env removal subscribed).1.redis "a" ≡ [])
unsubscribe-AreCleared_example =
    unsubscribe-AreCleared env memory-IsLawful 1 removal subscribed "a" "7" refl refl

-- User 7 gets a, b and c, is denied a, and c goes.
abbrev changes : List Change
changes =
    subscribes (record { user_id = text "7"; block_uuids = "a" ∷ "b" ∷ "c" ∷ [] })
    ∷ grants (record {
      user_id = text "7";
      permission = deny;
      start_block_ids = [];
      block_uuids = "a" ∷ [];
      block_data = none;
    })
    ∷ removes (record { block_uuids = "c" ∷ [] })
    ∷ []

perform_all-replay_example :
    (contains (subscribers_of memory (perform_all env changes calm).redis "b") "7" ≡ true)
    × (contains (blocks_of memory (perform_all env changes calm).redis "7") "b" ≡ true)
unfolding replay id_text
perform_all-replay_example =
    perform_all-replay env memory-IsLawful 1 changes calm "b" "7" refl (λ u b. refl)

abbrev has_b : contains (blocks_of memory (perform_all env changes calm).redis "7") "b" ≡ true
unfolding replay id_text
has_b = (perform_all-replay env memory-IsLawful 1 changes calm "b" "7" refl (λ u b. refl)).1

perform_all-version_of_example :
    version_of memory calm.redis "7" <ℤ version_of memory (perform_all env changes calm).redis "7"
perform_all-version_of_example =
    perform_all-version_of env memory-IsLawful 1 changes calm "7" "b" refl refl (λ same. cc has_b)

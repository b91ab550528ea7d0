-- ===== src/Consumer/Members.antt =====
-- What the changelog holds: the members that app/rabbitmq_consumer.py writes and
-- app/websockets.py decodes.
use omnimap_sync.Prelude.{
  ℕ, ◌+◌, String, ◌<>◌, false, ◌==◌, Option, none, some, List, [], ◌∷◌, All, ◌≡◌, refl, decimal,
  cut_colon-append, has_colon-decimal,
}
use omnimap_sync.Redis.{Key, changelog, Command, zadd}
use omnimap_sync.Consumer.Changelog.{
  Op, upsert, delete, changelog_member, decode_changelog_member, zadd_events,
}

-- A member of the changelog is decoded to the operation and the block that it was made of, if the
-- block's id is not empty; the id may have colons in it.
pub decode_changelog_member-changelog_member :
    (seq : ℕ) (op : Op) (id : String)
    → (id == "") ≡ false
    → decode_changelog_member (changelog_member seq op id) ≡ some (op, id)
unfolding decode_changelog_member changelog_member
decode_changelog_member-changelog_member seq upsert id h = rw (
  cut_colon-append (decimal seq) ("upsert" <> (":" <> id)) (has_colon-decimal seq),
  cut_colon-append "upsert" id refl,
  h,
)
decode_changelog_member-changelog_member seq delete id h = rw (
  cut_colon-append (decimal seq) ("delete" <> (":" <> id)) (has_colon-decimal seq),
  cut_colon-append "delete" id refl,
  h,
)

-- What a reader of the changelog gets from a command: the score, and the decoded member.
abbrev pub as_event : Key × Command → Option (ℕ × Option (Op × String))
as_event (changelog, zadd member score) = some (score, decode_changelog_member member)
as_event _ = none

abbrev pub as_events : List (Key × Command) → List (Option (ℕ × Option (Op × String)))
as_events [] = []
as_events (c ∷ cs) = as_event c ∷ as_events cs

-- The events with consecutive sequence numbers.
abbrev pub numbered : ℕ → List (String × Op) → List (Option (ℕ × Option (Op × String)))
numbered seq [] = []
numbered seq ((id, op) ∷ events) = some (seq, some (op, id)) ∷ numbered (seq + 1) events

abbrev pub AllNamed : List (String × Op) → Type 0
AllNamed = All (λ e. (e.0 == "") ≡ false)

-- The commands for events whose blocks have ids put them into the changelog in their order, with
-- consecutive scores, and each is decoded to the event it was made of.
pub as_events-zadd_events :
    (seq : ℕ) (events : List (String × Op))
    → AllNamed events
    → as_events (zadd_events seq events) ≡ numbered seq events
unfolding zadd_events
as_events-zadd_events seq [] h = refl
as_events-zadd_events seq ((id, op) ∷ events) h = rw (
  decode_changelog_member-changelog_member seq op id h.0,
  as_events-zadd_events (seq + 1) events h.1,
)

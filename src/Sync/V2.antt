-- ===== src/Sync/V2.antt =====
-- handle_get_updates_v2 of app/websockets.py.
use omnimap_sync.Prelude.{
  ℕ, ℤ, pos, negsuc, String, Bool, true, false, not, none, some, List, [], ◌∷◌, ◌++◌, map, take,
  is_empty, eqb, Dict, if◌then◌else◌,
}
use omnimap_sync.Prelude.Assoc
use omnimap_sync.Value.{Value, int, Conversion, converted}
use omnimap_sync.Models.{BlockUpdatesV2Response, Outgoing, block_updates_v2}
use omnimap_sync.Utils.{parse_redis_block_data}
use omnimap_sync.Redis.{
  blockdata, subscriber, subscription_version, changelog, changelog_seq, Entry, number_or_zero,
}
use omnimap_sync.World.{
  Socket, overflow_error, disconnected, ok, raised, Exec, ◌>>=◌, pure, raise, read, read_all,
}
use omnimap_sync.Env.{Env}
use omnimap_sync.Manager.{has_socket}
use omnimap_sync.Consumer.Access.{deleted_block}
use omnimap_sync.Consumer.Changelog.{Op}
use omnimap_sync.Sync.Page.{
  safe_limit, entries_after, is_stale, scan, Event, relevant_events, sort_events, ids_of,
}

abbrev pub same_version : ℕ → ℤ → Bool
same_version n (pos m) = eqb n m
same_version n (negsuc m) = false

abbrev pub resync_response : Entry → ℤ → String → BlockUpdatesV2Response
resync_response seq version reason = record {
  updates = [];
  next_cursor = number_or_zero seq.number;
  has_more = false;
  subscription_version = version;
  full_resync_required = true;
  reason = some reason;
}

abbrev pub page_response : List (Dict Value) → ℕ → Bool → ℤ → BlockUpdatesV2Response
page_response updates next_cursor has_more version = record {
  updates = updates;
  next_cursor = pos next_cursor;
  has_more = has_more;
  subscription_version = version;
  full_resync_required = false;
  reason = none;
}

-- `await websocket.send_json(message)`, which raises if the client is gone
unfoldable pub reply : {S : Type 0} → Socket → Outgoing → Exec S Unit
reply websocket message w =
    if has_socket w.dead websocket
    then (raised disconnected, w)
    else (ok tt, record w { frames = w.frames ++ (websocket, message) ∷ [] })

-- `int(float(updated_at))`, 0 for what is no number; infinity is not caught.
abbrev pub with_updated_at : {S : Type 0} → Dict Value → Conversion → Exec S (Dict Value)
with_updated_at row (converted z) = pure (Assoc.put row "updated_at" (int z))
with_updated_at row Conversion.overflow_error = raise overflow_error
with_updated_at row _ = pure (Assoc.put row "updated_at" (int (pos 0)))

module _ (E : Env) where
  -- A row of Redis as the client gets it.
  unfoldable pub load_row : Dict String → Exec E.redis.State (Dict Value)
  load_row fields = elim (Assoc.get (parse_redis_block_data E.runtime fields) "updated_at") [
    | none ↦ pure (parse_redis_block_data E.runtime fields)
    | some v ↦ with_updated_at (parse_redis_block_data E.runtime fields) (E.runtime.int_float v)
  ]

  -- The rows of the upserted blocks; a block without a row counts as deleted.
  unfoldable pub load_upserts : List String → List Entry → Exec E.redis.State (List (Dict Value))
  load_upserts [] entries = pure []
  load_upserts (b ∷ bs) [] = pure []
  load_upserts (b ∷ bs) (entry ∷ entries) = do
    row ← if is_empty entry.fields then pure (deleted_block b) else load_row entry.fields
    rows ← load_upserts bs entries
    pure (row ∷ rows)

  unfoldable pub upsert_rows : List String → Exec E.redis.State (List (Dict Value))
  upsert_rows [] = pure []
  upsert_rows (b ∷ bs) = do
    entries ← read_all E.redis (map blockdata (b ∷ bs))
    load_upserts (b ∷ bs) entries

  unfoldable pub full_resync : ℤ → String → Exec E.redis.State BlockUpdatesV2Response
  full_resync version reason = do
    seq ← read E.redis changelog_seq
    pure (resync_response seq version reason)

  -- From the events that concern the user on.
  unfoldable pub answer_events : ℕ → ℤ → List Event → Exec E.redis.State BlockUpdatesV2Response
  answer_events max_seq version events = do
    rows ← upsert_rows (ids_of true events)
    remaining ← read E.redis changelog
    pure (
        page_response (rows ++ map deleted_block (ids_of false events)) max_seq
          (not (is_empty (entries_after max_seq remaining.scored))) version)

  -- From the page on.
  unfoldable pub answer_page :
      String → ℤ → ℕ × Dict (ℕ × Op) → Exec E.redis.State BlockUpdatesV2Response
  answer_page user version (max_seq, latest) =
      if is_empty latest then pure (page_response [] max_seq false version) else do
        subscribed ← read E.redis (subscriber user)
        answer_events max_seq version (sort_events (relevant_events subscribed.members latest))

  unfoldable pub get_updates_v2 : String → ℕ → ℕ → ℤ → Exec E.redis.State BlockUpdatesV2Response
  get_updates_v2 user cursor subscription_version_ limit = do
    version ← read E.redis (subscription_version user)
    if not (same_version subscription_version_ (number_or_zero version.number))
        then full_resync (number_or_zero version.number) "subscription_version_mismatch"
        else do
          subscribed ← read E.redis (subscriber user)
          if is_empty subscribed.members
              then full_resync (number_or_zero version.number) "no_subscriptions"
              else do
                first ← read E.redis changelog
                if is_stale cursor first.scored
                    then full_resync (number_or_zero version.number) "stale_cursor"
                    else do
                      page ← read E.redis changelog
                      answer_page user (number_or_zero version.number) (
                          scan
                            (take (safe_limit limit E.settings.get_updates_v2_max_limit)
                              (entries_after cursor page.scored))
                            (cursor, []))

  unfoldable pub handle_get_updates_v2 : Socket → String → ℕ → ℕ → ℤ → Exec E.redis.State Unit
  handle_get_updates_v2 websocket user cursor subscription_version_ limit = do
    response ← get_updates_v2 user cursor subscription_version_ limit
    reply websocket (block_updates_v2 response)

-- ===== src/Sync/Rows.antt =====
-- The rows of a get_updates_v2 of app/websockets.py, when Redis replies: reads, and what a client is
-- to know of a block.
use omnimap_sync.Prelude.{
  pos, String, Bool, true, false, Option, none, some, List, [], ◌∷◌, map, is_empty, Dict, ◌≡◌, refl,
  ◌∙◌, arith, if◌then◌else◌,
}
use omnimap_sync.Prelude.Assoc
use omnimap_sync.Value.{Value, int, Conversion, converted}
use omnimap_sync.Utils.{parse_redis_block_data}
use omnimap_sync.Redis.{Key, Entry, Redis, blockdata}
use omnimap_sync.World.{World, ok, Exec, ◌>>=◌, pure, read, read_all, request, gets}
use omnimap_sync.World.Ensures.{IsCalm, request_with_calm}
use omnimap_sync.Env.{Env}
use omnimap_sync.Consumer.Access.{deleted_block}
use omnimap_sync.Sync.V2.{with_updated_at, load_row, load_upserts, upsert_rows}

module _ (R : Redis) {A : Type 0} where
  -- A reply that arrives is what Redis holds.
  pub read_calm :
      (k : Key) (f : Entry → Exec R.State A) (w : World R.State)
      → IsCalm w
      → (read R k >>= f) w ≡ f (R.view w.redis k) w
  unfolding read request ◌>>=◌ gets
  read_calm k f w calm = rw (request_with_calm w.faults w calm) refl

  pub read_all_calm :
      (ks : List Key) (f : List Entry → Exec R.State A) (w : World R.State)
      → IsCalm w
      → (read_all R ks >>= f) w ≡ f (map (R.view w.redis) ks) w
  unfolding read_all request ◌>>=◌ gets
  read_all_calm ks f w calm = rw (request_with_calm w.faults w calm) refl

-- The row with its time as an integer, 0 for what is no number.
abbrev pub stamped : Dict Value → Conversion → Dict Value
stamped row (converted z) = Assoc.put row "updated_at" (int z)
stamped row _ = Assoc.put row "updated_at" (int (pos 0))

abbrev pub is_finite : Conversion → Bool
is_finite Conversion.overflow_error = false
is_finite _ = true

module _ (E : Env) where
  abbrev pub with_time : Option Value → Dict Value → Dict Value
  with_time none row = row
  with_time (some v) row = stamped row (E.runtime.int_float v)

  abbrev pub parsed_row : Dict Value → Dict Value
  parsed_row row = with_time (Assoc.get row "updated_at") row

  -- What a client is to know of a block that was changed, when Redis holds these fields of it.
  pub row_of : String → Dict String → Dict Value
  row_of b fields =
      if is_empty fields
      then deleted_block b
      else parsed_row (parse_redis_block_data E.runtime fields)

  -- The time of the row, if it has one, is not infinite.
  abbrev pub is_readable : Dict String → Bool
  is_readable fields = elim (Assoc.get (parse_redis_block_data E.runtime fields) "updated_at") [
    | none ↦ true
    | some v ↦ is_finite (E.runtime.int_float v)
  ]

  module _ (w : World E.redis.State) where
    abbrev pub fields_of : String → Dict String
    fields_of b = (E.redis.view w.redis (blockdata b)).fields

    pub with_updated_at_finite :
        (row : Dict Value) (c : Conversion)
        → is_finite c ≡ true
        → with_updated_at row c w ≡ (ok (stamped row c), w)
    unfolding pure
    with_updated_at_finite row (converted z) h = refl
    with_updated_at_finite row Conversion.overflow_error h = absurd (ground arith)
    with_updated_at_finite row _ h = refl

    pub load_row_finite :
        (fields : Dict String) (o : Option Value)
        → Assoc.get (parse_redis_block_data E.runtime fields) "updated_at" ≡ o
        → is_readable fields ≡ true
        → load_row E fields w ≡ (ok (parsed_row (parse_redis_block_data E.runtime fields)), w)
    unfolding load_row pure
    load_row_finite fields none e h = rw (e, load_row) refl
    load_row_finite fields (some v) e h =
        rw (e, load_row)
          (with_updated_at_finite (parse_redis_block_data E.runtime fields) (E.runtime.int_float v)
            (rw (e, is_readable) at h))

    pub row_lem :
        (b : String) (fields : Dict String)
        → is_readable fields ≡ true
        → (if is_empty fields then pure (deleted_block b) else load_row E fields) w
          ≡ (ok (row_of b fields), w)
    unfolding row_of pure
    row_lem b [] h = refl
    row_lem b (f ∷ fs) h =
        load_row_finite (f ∷ fs)
          (Assoc.get (parse_redis_block_data E.runtime (f ∷ fs)) "updated_at") refl h

    pub load_upserts_lem :
        (bs : List String)
        → ((b : String) → is_readable (fields_of b) ≡ true)
        → load_upserts E bs (map (E.redis.view w.redis) (map blockdata bs)) w
          ≡ (ok (map (λ b. row_of b (fields_of b)) bs), w)
    unfolding load_upserts ◌>>=◌
    load_upserts_lem [] h = refl
    load_upserts_lem (b ∷ bs) h = rw (row_lem b (fields_of b) (h b), load_upserts_lem bs h) refl

    pub upsert_rows_lem :
        (bs : List String)
        → IsCalm w
        → ((b : String) → is_readable (fields_of b) ≡ true)
        → upsert_rows E bs w ≡ (ok (map (λ b. row_of b (fields_of b)) bs), w)
    unfolding upsert_rows
    upsert_rows_lem [] calm h = unfold pure in refl
    upsert_rows_lem (b ∷ bs) calm h =
        read_all_calm E.redis (map blockdata (b ∷ bs)) (load_upserts E (b ∷ bs)) w calm
        ∙ load_upserts_lem (b ∷ bs) h

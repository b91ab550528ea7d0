-- ===== src/Sync/Reading.antt =====
-- What reading for a client changes, in app/websockets.py.
use omnimap_sync.Prelude.{
  ℕ, ℤ, String, Bool, true, false, Option, none, some, List, [], ◌∷◌, Dict, is_empty,
}
use omnimap_sync.Value.{Value, Items, list, dict, nil, item, Conversion, converted}
use omnimap_sync.Redis.{Key, Entry}
use omnimap_sync.World.{World, Exec, pure, read, read_all}
use omnimap_sync.World.Keeps.{Keeps, keeps_rules, Keeps-pure, Keeps-raise, Keeps-bind, Keeps-if}
use omnimap_sync.Env.{Env}
use omnimap_sync.Consumer.Changelog.{Op}
use omnimap_sync.Consumer.Handle.{in_set}
use omnimap_sync.Sync.Page.{Event}
use omnimap_sync.Sync.V1.{
  Split, place_block, split_block, split_blocks, compare_row, newer_row, compare_rows,
  compare_chunks, new_row, new_rows, new_blocks, answer_split, get_updates, time_or_zero,
  time_or_none,
}
use omnimap_sync.Sync.V2.{
  with_updated_at, load_row, load_upserts, upsert_rows, full_resync, answer_events, answer_page,
  get_updates_v2,
}
use omnimap_sync.Sync.Endpoint.{int_or}

module _ {S : Type 0} {P : World S → Type 0} where
  with_updated_at-Keeps : (row : Dict Value) (c : Conversion) → Keeps P (with_updated_at row c)
  with_updated_at-Keeps row (converted z) = Keeps-pure _
  with_updated_at-Keeps row Conversion.value_error = Keeps-pure _
  with_updated_at-Keeps row Conversion.type_error = Keeps-pure _
  with_updated_at-Keeps row Conversion.overflow_error = Keeps-raise _

  time_or_zero-Keeps : (c : Conversion) → Keeps P (time_or_zero c)
  time_or_zero-Keeps (converted z) = Keeps-pure _
  time_or_zero-Keeps Conversion.value_error = Keeps-pure _
  time_or_zero-Keeps Conversion.type_error = Keeps-pure _
  time_or_zero-Keeps Conversion.overflow_error = Keeps-raise _

  time_or_none-Keeps : (c : Conversion) → Keeps P (time_or_none c)
  time_or_none-Keeps (converted z) = Keeps-pure _
  time_or_none-Keeps Conversion.value_error = Keeps-pure _
  time_or_none-Keeps Conversion.type_error = Keeps-pure _
  time_or_none-Keeps Conversion.overflow_error = Keeps-raise _

  pub int_or-Keeps : (z : ℤ) (c : Conversion) → Keeps P (int_or z c)
  int_or-Keeps z (converted y) = Keeps-pure _
  int_or-Keeps z Conversion.value_error = Keeps-pure _
  int_or-Keeps z Conversion.type_error = Keeps-pure _
  int_or-Keeps z Conversion.overflow_error = Keeps-raise _

  pub in_set-Keeps : (texts : List String) (v : Value) → Keeps P (in_set texts v)
  unfolding in_set
  in_set-Keeps texts (Value.str s) = Keeps-pure _
  in_set-Keeps texts (list vs) = Keeps-raise _
  in_set-Keeps texts (dict fs) = Keeps-raise _
  in_set-Keeps texts _ = Keeps-pure _

module _ (E : Env) (P : World E.redis.State → Type 0) where
  abbrev pub Kept : {A : Type 0} → Exec E.redis.State A → Type 0
  Kept m = Keeps P m

-- All that is asked of `P` is that the reads keep it.
module _ (E : Env) (P : World E.redis.State → Type 0) (reads : (k : Key) → Keeps P (read E.redis k))
    (reads_all : (ks : List Key) → Keeps P (read_all E.redis ks)) where
  loaded :
      (row : Dict Value) (o : Option Value)
      → Kept E P (elim o [ none ↦ pure row | some v ↦ with_updated_at row (E.runtime.int_float v) ])
  loaded row none = Keeps-pure row
  loaded row (some v) = with_updated_at-Keeps row _

  load_row-Keeps : (fields : Dict String) → Kept E P (load_row E fields)
  unfolding load_row
  load_row-Keeps fields = loaded _ _

  load_upserts-Keeps : (bs : List String) (es : List Entry) → Kept E P (load_upserts E bs es)
  unfolding load_upserts
  load_upserts-Keeps [] es = Keeps-pure []
  load_upserts-Keeps (b ∷ bs) [] = Keeps-pure []
  load_upserts-Keeps (b ∷ bs) (e ∷ es) =
      Keeps-bind _ _
        (Keeps-if (is_empty e.fields) _ _ (λ _. Keeps-pure _) (λ _. load_row-Keeps e.fields))
        (λ row. Keeps-bind _ _ (load_upserts-Keeps bs es) (λ rows. Keeps-pure _))

  upsert_rows-Keeps : (bs : List String) → Kept E P (upsert_rows E bs)
  unfolding upsert_rows
  upsert_rows-Keeps [] = Keeps-pure []
  upsert_rows-Keeps (b ∷ bs) = search (keeps_rules, reads_all, load_upserts-Keeps)

  full_resync-Keeps : (v : ℤ) (reason : String) → Kept E P (full_resync E v reason)
  unfolding full_resync
  full_resync-Keeps v reason = search (keeps_rules, reads)

  answer_events-Keeps : (m : ℕ) (v : ℤ) (es : List Event) → Kept E P (answer_events E m v es)
  unfolding answer_events
  answer_events-Keeps m v es = search (keeps_rules, reads, upsert_rows-Keeps)

  answer_page-Keeps :
      (u : String) (v : ℤ) (state : ℕ × Dict (ℕ × Op)) → Kept E P (answer_page E u v state)
  unfolding answer_page
  answer_page-Keeps u v (m, latest) = search (keeps_rules, reads, answer_events-Keeps)

  pub get_updates_v2-Keeps :
      (u : String) (cursor version : ℕ) (limit : ℤ)
      → Kept E P (get_updates_v2 E u cursor version limit)
  unfolding get_updates_v2
  get_updates_v2-Keeps u cursor version limit =
      search (keeps_rules, reads, full_resync-Keeps, answer_page-Keeps) depth 12

  place_block-Keeps :
      (split : Split) (d : Dict Value) (id : Value) (known : Bool)
      → Kept E P (place_block E split d id known)
  unfolding place_block
  place_block-Keeps split d id true = search (keeps_rules, time_or_zero-Keeps)
  place_block-Keeps split d id false = Keeps-pure _

  split_block-Keeps :
      (subs : List String) (split : Split) (v : Value) → Kept E P (split_block E subs split v)
  unfolding split_block
  split_block-Keeps subs split (dict fs) = search (keeps_rules, in_set-Keeps, place_block-Keeps)
  split_block-Keeps subs split _ = Keeps-raise _

  pub split_blocks-Keeps :
      (subs : List String) (split : Split) (vs : Items) → Kept E P (split_blocks E subs split vs)
  unfolding split_blocks
  split_blocks-Keeps subs split nil = Keeps-pure split
  split_blocks-Keeps subs split (item v vs) =
      Keeps-bind _ _ (split_block-Keeps subs split v) (λ next. split_blocks-Keeps subs next vs)

  newer_row-Keeps :
      (z : ℤ) (fields : Dict String) (o : Option ℤ) → Kept E P (newer_row E z fields o)
  newer_row-Keeps z fields none = Keeps-pure []
  newer_row-Keeps z fields (some t) = search (keeps_rules, load_row-Keeps)

  compare_row-Keeps : (z : ℤ) (fields : Dict String) → Kept E P (compare_row E z fields)
  unfolding compare_row
  compare_row-Keeps z fields = search (keeps_rules, time_or_none-Keeps, newer_row-Keeps)

  compare_rows-Keeps :
      (valid : Dict ℤ) (bs : List String) (es : List Entry) → Kept E P (compare_rows E valid bs es)
  unfolding compare_rows
  compare_rows-Keeps valid [] es = Keeps-pure []
  compare_rows-Keeps valid (b ∷ bs) [] = Keeps-pure []
  compare_rows-Keeps valid (b ∷ bs) (e ∷ es) =
      Keeps-bind _ _ (compare_row-Keeps _ e.fields)
        (λ row. Keeps-bind _ _ (compare_rows-Keeps valid bs es) (λ rows. Keeps-pure _))

  pub compare_chunks-Keeps :
      (valid : Dict ℤ) (chunks : List (List String)) → Kept E P (compare_chunks E valid chunks)
  unfolding compare_chunks
  compare_chunks-Keeps valid [] = Keeps-pure []
  compare_chunks-Keeps valid (chunk ∷ rest) = Keeps-bind _ _ (reads_all _) λ entries.
      Keeps-bind _ _ (compare_rows-Keeps valid chunk entries)
        λ rows. Keeps-bind _ _ (compare_chunks-Keeps valid rest) λ more. Keeps-pure _

  new_row-Keeps : (fields : Dict String) → Kept E P (new_row E fields)
  unfolding new_row
  new_row-Keeps fields = search (keeps_rules, load_row-Keeps)

  new_rows-Keeps : (es : List Entry) → Kept E P (new_rows E es)
  unfolding new_rows
  new_rows-Keeps [] = Keeps-pure []
  new_rows-Keeps (e ∷ es) =
      Keeps-bind _ _ (new_row-Keeps e.fields)
        (λ row. Keeps-bind _ _ (new_rows-Keeps es) (λ rows. Keeps-pure _))

  new_blocks-Keeps : (bs : List String) → Kept E P (new_blocks E bs)
  unfolding new_blocks
  new_blocks-Keeps [] = Keeps-pure []
  new_blocks-Keeps (b ∷ bs) = search (keeps_rules, reads_all, new_rows-Keeps)

  answer_split-Keeps : (subs : List String) (split : Split) → Kept E P (answer_split E subs split)
  unfolding answer_split
  answer_split-Keeps subs split =
      search (keeps_rules, compare_chunks-Keeps, new_blocks-Keeps) depth 8

  pub get_updates-Keeps : (u : String) (blocks : Items) → Kept E P (get_updates E u blocks)
  unfolding get_updates
  get_updates-Keeps u blocks =
      search (keeps_rules, reads, split_blocks-Keeps, answer_split-Keeps) depth 8

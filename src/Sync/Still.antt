-- ===== src/Sync/Still.antt =====
-- The reads of handle_get_updates of app/websockets.py when no request fails: they change nothing, and
-- what they load of the new blocks.
use omnimap_sync.Prelude.{
  String, Bool, true, false, not, ◌||◌, Option, none, some, List, [], ◌∷◌, ◌++◌, map, is_empty,
  Dict, ◌≡◌, refl, sym, ap, ◌∙◌, arith, if◌then◌else◌, Bool-cases, inl, inr,
}
use mathlib.Core.Path.{subst}
use omnimap_sync.Prelude.Assoc
use omnimap_sync.Value.{Value, Conversion}
use omnimap_sync.Utils.{parse_redis_block_data}
use omnimap_sync.Redis.{Redis, Key, blockdata}
use omnimap_sync.World.{
  World, Result, ok, raised, Exec, ◌>>=◌, pure, raise, continue, read, read_all, request, gets,
  try_except, overflow_error,
}
use omnimap_sync.World.Keeps.{Keeps, Returned}
use omnimap_sync.World.Ensures.{IsCalm, request_with_calm}
use omnimap_sync.Env.{Env}
use omnimap_sync.Sync.V2.{load_row, with_updated_at}
use omnimap_sync.Sync.V1.{new_row, new_rows, new_blocks}
use omnimap_sync.Sync.Rows.{
  read_all_calm, fields_of, is_readable, is_finite, parsed_row, load_row_finite,
}

-- A step that leaves the world as it was.
module _ {S : Type 0} {A B : Type 0} (P : A → Type 0) (Q : B → Type 0) (w : World S) where
  still_continue :
      (f : A → Exec S B) (r : Result A) (v : World S)
      → v ≡ w
      → Returned P r
      → ((a : A) → P a → Returned Q (f a w).0)
      → Returned Q (continue f r v).0
  still_continue f (ok a) v e h k = subst (λ x. Returned Q (f a x).0) (sym e) (k a h)
  still_continue f (raised e) v _ h k = tt

  pub bind_still :
      (m : Exec S A) (f : A → Exec S B)
      → Keeps (λ v. v ≡ w) m
      → Returned P (m w).0
      → ((a : A) → P a → Returned Q (f a w).0)
      → Returned Q ((m >>= f) w).0
  unfolding ◌>>=◌
  bind_still m f still h k = still_continue f (m w).0 (m w).1 (still.at w refl) h k

module _ (R : Redis) where
  read_calm_alone :
      (k : Key) (w : World R.State) → IsCalm w → read R k w ≡ (ok (R.view w.redis k), w)
  unfolding read request ◌>>=◌ gets
  read_calm_alone k w calm = rw (request_with_calm w.faults w calm) refl

  read_all_calm_alone :
      (ks : List Key) (w : World R.State)
      → IsCalm w
      → read_all R ks w ≡ (ok (map (R.view w.redis) ks), w)
  unfolding read_all request ◌>>=◌ gets
  read_all_calm_alone ks w calm = rw (request_with_calm w.faults w calm) refl

pub any_result : {A : Type 0} (r : Result A) → Returned (λ _. Unit) r
any_result (ok a) = tt
any_result (raised e) = tt

module _ (E : Env) (w : World E.redis.State) (calm : IsCalm w) where
  abbrev Still : {A : Type 0} → Exec E.redis.State A → Type 0
  Still m = Keeps (λ v. v ≡ w) m

  pub read-Still : (k : Key) → Still (read E.redis k)
  read-Still k = record { at = λ v e. rw e (ap (λ r. r.1) (read_calm_alone E.redis k w calm)) }

  pub read_all-Still : (ks : List Key) → Still (read_all E.redis ks)
  read_all-Still ks = record {
    at = λ v e. rw e (ap (λ r. r.1) (read_all_calm_alone E.redis ks w calm));
  }

  -- The row of a new block, unless Redis has none, or its time is infinite.
  abbrev pub fresh_row : Dict String → List (Dict Value)
  fresh_row fields =
      if is_empty fields || not (is_readable E fields)
      then []
      else parsed_row E (parse_redis_block_data E.runtime fields) ∷ []

  abbrev pub fresh_rows : List String → List (Dict Value)
  fresh_rows [] = []
  fresh_rows (b ∷ bs) = fresh_row (fields_of E w b) ++ fresh_rows bs

  with_updated_at_infinite :
      (row : Dict Value) (c : Conversion)
      → is_finite c ≡ false
      → with_updated_at row c w ≡ (raised overflow_error, w)
  unfolding raise
  with_updated_at_infinite row Conversion.overflow_error h = refl
  with_updated_at_infinite row _ h = absurd (ground arith)

  load_row_infinite :
      (fields : Dict String) (o : Option Value)
      → Assoc.get (parse_redis_block_data E.runtime fields) "updated_at" ≡ o
      → is_readable E fields ≡ false
      → load_row E fields w ≡ (raised overflow_error, w)
  unfolding load_row
  load_row_infinite fields none e h =
      let never : ◌≡◌ {A = Bool} true false = rw (e, is_readable) at h in cc
  load_row_infinite fields (some v) e h =
      rw (e, load_row)
        (with_updated_at_infinite (parse_redis_block_data E.runtime fields) (E.runtime.int_float v)
          (rw (e, is_readable) at h))

  new_row_lem : (fields : Dict String) → new_row E fields w ≡ (ok (fresh_row fields), w)
  unfolding new_row try_except ◌>>=◌ pure
  new_row_lem [] = refl
  new_row_lem (f ∷ fs) = elim (Bool-cases (is_readable E (f ∷ fs))) [
    | inl finite ↦
        rw
          (
            finite,
            load_row_finite E w (f ∷ fs)
                (Assoc.get (parse_redis_block_data E.runtime (f ∷ fs)) "updated_at") refl finite,
          )
          refl
    | inr infinite ↦
        rw
          (
            infinite,
            load_row_infinite (f ∷ fs)
                (Assoc.get (parse_redis_block_data E.runtime (f ∷ fs)) "updated_at") refl infinite,
          )
          refl
  ]

  new_rows_lem :
      (bs : List String)
      → new_rows E (map (E.redis.view w.redis) (map blockdata bs)) w ≡ (ok (fresh_rows bs), w)
  unfolding new_rows ◌>>=◌ pure
  new_rows_lem [] = refl
  new_rows_lem (b ∷ bs) = rw (new_row_lem (fields_of E w b), new_rows_lem bs) refl

  pub new_blocks_lem : (bs : List String) → new_blocks E bs w ≡ (ok (fresh_rows bs), w)
  unfolding new_blocks
  new_blocks_lem [] = unfold pure in refl
  new_blocks_lem (b ∷ bs) =
      read_all_calm E.redis (map blockdata (b ∷ bs)) (new_rows E) w calm ∙ new_rows_lem (b ∷ bs)

-- ===== src/Sync/Cover.antt =====
-- How handle_get_updates of app/websockets.py sorts the blocks of a request.
use omnimap_sync.Prelude.{
  ℤ, String, Bool, true, false, ◌||◌, ◌==◌, eq_iff, List, [], ◌∷◌, ◌++◌, contains, Dict, ◌≡◌, refl,
  sym, arith, if◌then◌else◌,
}
use omnimap_sync.Prelude.Assoc
use omnimap_sync.Value.{Value, Items, str, list, dict, nil, item, Conversion, converted, truthy}
use omnimap_sync.World.{World, Result, ok, raised, Exec, ◌>>=◌, pure, raise, continue}
use omnimap_sync.World.Keeps.{Returned}
use omnimap_sync.Env.{Env}
use omnimap_sync.Manager.Sandbox.{get_value}
use omnimap_sync.Consumer.Handle.{fields_dict, in_set}
use omnimap_sync.Sync.V1.{
  Split, place_block, split_block, split_blocks, contains_text, time_or_zero, text_of,
}

-- The blocks to compare are subscribed, the unsubscribed are not.
pub record IsSorted (subscribed : List String) (split : Split) : Type 0 where
  pub valid :
      (b : String) → contains (Assoc.keys split.valid) b ≡ true → contains subscribed b ≡ true
  pub unsubscribed :
      (b : String) → contains_text split.unsubscribed b ≡ true → contains subscribed b ≡ false

module _ {S : Type 0} {A B : Type 0} (P : A → Type 0) (Q : B → Type 0) where
  continue_from-Returned :
      (f : A → Exec S B) (r : Result A) (w : World S)
      → Returned P r
      → ((a : A) (v : World S) → P a → Returned Q (f a v).0)
      → Returned Q (continue f r w).0
  continue_from-Returned f (ok a) w h k = k a w h
  continue_from-Returned f (raised e) w h k = tt

  pub bind_from-Returned :
      (m : Exec S A) (f : A → Exec S B) (w : World S)
      → Returned P (m w).0
      → ((a : A) (v : World S) → P a → Returned Q (f a v).0)
      → Returned Q ((m >>= f) w).0
  unfolding ◌>>=◌
  bind_from-Returned m f w h k = continue_from-Returned f (m w).0 (m w).1 h k

pub any_time :
    {S : Type 0} (c : Conversion) (w : World S) → Returned (λ _. Unit) (time_or_zero c w).0
unfolding pure raise
any_time (converted z) w = tt
any_time Conversion.value_error w = tt
any_time Conversion.type_error w = tt
any_time Conversion.overflow_error w = tt

-- `known` is whether a value is in the set.
abbrev pub is_known : List String → Value → Bool
is_known subscribed (str s) = contains subscribed s
is_known subscribed v = false

pub known_of_in_set :
    {S : Type 0} (subscribed : List String) (v : Value) (w : World S)
    → Returned (λ known. known ≡ is_known subscribed v) (in_set subscribed v w).0
unfolding in_set pure raise
known_of_in_set subscribed (str s) w = refl
known_of_in_set subscribed (list vs) w = tt
known_of_in_set subscribed (dict fs) w = tt
known_of_in_set subscribed _ w = refl

pub contains-put :
    (d : Dict ℤ) (k : String) (v : ℤ) (j : String)
    → contains (Assoc.keys (Assoc.put d k v)) j ≡ (k == j || contains (Assoc.keys d) j)
contains-put [] k v j = refl
contains-put ((i, w) ∷ d) k v j = ground (arith, contains-put d k v j, eq_iff i k, eq_iff i j)

abbrev pub is_text_of : Value → String → Bool
is_text_of (str t) s = t == s
is_text_of v s = false

contains_text-append :
    (vs : List Value) (v : Value) (s : String)
    → contains_text (vs ++ v ∷ []) s ≡ (contains_text vs s || is_text_of v s)
contains_text-append [] (str t) s = ground arith
contains_text-append [] v s = refl
contains_text-append (str u ∷ vs) v s = ground (arith, contains_text-append vs v s)
contains_text-append (u ∷ vs) v s = contains_text-append vs v s

is_text_of_unknown :
    (subscribed : List String) (v : Value) (b : String)
    → is_known subscribed v ≡ false
    → is_text_of v b ≡ true
    → contains subscribed b ≡ false
is_text_of_unknown subscribed (str s) b h t = ground (arith, eq_iff s b)
is_text_of_unknown subscribed v b h t = cc

text_of_known :
    (subscribed : List String) (v : Value) (b : String)
    → is_known subscribed v ≡ true
    → (text_of v == b) ≡ true
    → contains subscribed b ≡ true
text_of_known subscribed (str s) b h t = ground (arith, eq_iff s b)
text_of_known subscribed v b h t = cc

module _ (E : Env) (subscribed : List String) where
  appended :
      (split : Split) (id : Value) (kept : Bool)
      → is_known subscribed id ≡ false
      → IsSorted subscribed split
      → IsSorted subscribed
          (if kept then record split { unsubscribed = split.unsubscribed ++ id ∷ [] } else split)
  appended split id true h s = record {
    valid = s.valid;
    unsubscribed = λ b t. ground (
      arith,
      t,
      contains_text-append split.unsubscribed id b,
      s.unsubscribed b,
      is_text_of_unknown subscribed id b h,
    );
  }
  appended split id false h s = s

  placed :
      (split : Split) (d : Dict Value) (id : Value) (known : Bool) (w : World E.redis.State)
      → known ≡ is_known subscribed id
      → IsSorted subscribed split
      → Returned (IsSorted subscribed) (place_block E split d id known w).0
  unfolding place_block pure
  placed split d id true w h s =
      bind_from-Returned (λ _. Unit) (IsSorted subscribed) _ _ w (any_time _ w)
        (λ time v _. record {
          valid = λ b t. ground (
            arith,
            t,
            contains-put split.valid (text_of id) time b,
            s.valid b,
            text_of_known subscribed id b (sym h),
          );
          unsubscribed = s.unsubscribed;
        })
  placed split d id false w h s = appended split id (truthy id) (sym h) s

  split_one :
      (split : Split) (v : Value) (w : World E.redis.State)
      → IsSorted subscribed split
      → Returned (IsSorted subscribed) (split_block E subscribed split v w).0
  unfolding split_block raise
  split_one split (dict fs) w s =
      bind_from-Returned (λ known. known ≡ is_known subscribed (get_value (fields_dict fs) "id"))
        (IsSorted subscribed) _ _ w (known_of_in_set subscribed _ w)
        (λ known v h. placed split (fields_dict fs) _ known v h s)
  split_one split _ w s = tt

  pub split_all :
      (split : Split) (vs : Items) (w : World E.redis.State)
      → IsSorted subscribed split
      → Returned (IsSorted subscribed) (split_blocks E subscribed split vs w).0
  unfolding split_blocks pure
  split_all split nil w s = s
  split_all split (item x vs) w s =
      bind_from-Returned (IsSorted subscribed) (IsSorted subscribed) _ _ w (split_one split x w s)
        (λ next v h. split_all next vs v h)

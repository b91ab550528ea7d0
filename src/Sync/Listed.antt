-- ===== src/Sync/Listed.antt =====
-- Which blocks a request to handle_get_updates of app/websockets.py lists, and the two lists that it is
-- split into.
use omnimap_sync.Prelude.{
  ℤ, String, Bool, true, false, not, ◌&&◌, ◌||◌, ◌==◌, eq_iff, List, [], ◌∷◌, ◌++◌, contains,
  is_empty, Dict, ◌≡◌, refl, sym, arith, if◌then◌else◌,
}
use omnimap_sync.Prelude.Assoc
use omnimap_sync.Value.{Value, Items, str, dict, nil, item, truthy}
use omnimap_sync.World.{World, Result, ok, raised, pure, raise}
use omnimap_sync.World.Keeps.{Returned}
use omnimap_sync.Env.{Env}
use omnimap_sync.Manager.Sandbox.{get_value}
use omnimap_sync.Consumer.Handle.{fields_dict}
use omnimap_sync.Sync.V1.{Split, place_block, split_block, split_blocks, new_block_ids, text_of}
use omnimap_sync.Sync.Cover.{
  IsSorted, bind_from-Returned, any_time, known_of_in_set, is_known, is_text_of, contains-put,
}

-- Whether the request lists the block.
abbrev pub lists_one : Value → String → Bool
lists_one (dict fs) b = is_text_of (get_value (fields_dict fs) "id") b
lists_one v b = false

abbrev pub lists : Items → String → Bool
lists nil b = false
lists (item v vs) b = lists_one v b || lists vs b

abbrev pub some_listed : Items → List String → Bool
some_listed blocks [] = false
some_listed blocks (b ∷ bs) = lists blocks b || some_listed blocks bs

-- Those that it does not list.
abbrev pub unlisted : Items → List String → List String
unlisted blocks [] = []
unlisted blocks (b ∷ bs) =
    let rest = unlisted blocks bs in if lists blocks b then rest else b ∷ rest

text_of_known :
    (subscribed : List String) (v : Value) (b : String)
    → is_known subscribed v ≡ true
    → (text_of v == b) ≡ (contains subscribed b && is_text_of v b)
text_of_known subscribed (str s) b h = ground (arith, eq_iff s b)
text_of_known subscribed v b h = cc

none_of_unknown :
    (subscribed : List String) (v : Value) (b : String)
    → is_known subscribed v ≡ false
    → (contains subscribed b && is_text_of v b) ≡ false
none_of_unknown subscribed (str s) b h = ground (arith, eq_iff s b)
none_of_unknown subscribed v b h = ground arith

module _ (E : Env) (subscribed : List String) where
  -- The blocks to compare, with those of a block of the request.
  abbrev pub Adds : Split → (String → Bool) → Split → Type 0
  Adds before listed after =
      (b : String)
      → contains (Assoc.keys after.valid) b
        ≡ (contains (Assoc.keys before.valid) b || (contains subscribed b && listed b))

  unplaced :
      (split : Split) (id : Value) (kept : Bool)
      → is_known subscribed id ≡ false
      → Adds split
          (is_text_of id)
          (if kept then record split { unsubscribed = split.unsubscribed ++ id ∷ [] } else split)
  unplaced split id true h b = ground (arith, none_of_unknown subscribed id b)
  unplaced split id false h b = ground (arith, none_of_unknown subscribed id b)

  placed :
      (split : Split) (d : Dict Value) (id : Value) (known : Bool) (w : World E.redis.State)
      → known ≡ is_known subscribed id
      → Returned (Adds split (is_text_of id)) (place_block E split d id known w).0
  unfolding place_block pure
  placed split d id true w h =
      bind_from-Returned (λ _. Unit) (Adds split (is_text_of id)) _ _ w (any_time _ w)
        (λ time v _ b. ground (
          arith,
          contains-put split.valid (text_of id) time b,
          text_of_known subscribed id b (sym h),
        ))
  placed split d id false w h = unplaced split id (truthy id) (sym h)

  split_one :
      (split : Split) (v : Value) (w : World E.redis.State)
      → Returned (Adds split (lists_one v)) (split_block E subscribed split v w).0
  unfolding split_block raise
  split_one split (dict fs) w =
      bind_from-Returned (λ known. known ≡ is_known subscribed (get_value (fields_dict fs) "id"))
        (Adds split (lists_one (dict fs))) _ _ w (known_of_in_set subscribed _ w)
        (λ known v h. placed split (fields_dict fs) _ known v h)
  split_one split _ w = tt

  extended :
      (split next : Split) (x : Value) (vs : Items) (r : Result Split)
      → Adds split (lists_one x) next
      → Returned (Adds next (lists vs)) r
      → Returned (Adds split (lists (item x vs))) r
  extended split next x vs (ok after) h k = λ b. ground (arith, h b, k b)
  extended split next x vs (raised e) h k = tt

  pub split_blocks-Adds :
      (split : Split) (vs : Items) (w : World E.redis.State)
      → Returned (Adds split (lists vs)) (split_blocks E subscribed split vs w).0
  unfolding split_blocks pure
  split_blocks-Adds split nil w = λ b. ground arith
  split_blocks-Adds split (item x vs) w =
      bind_from-Returned (Adds split (lists_one x)) (Adds split (lists (item x vs))) _ _ w
        (split_one split x w)
        (λ next v h. extended split next x vs _ h (split_blocks-Adds next vs v))

some_of_listed :
    (blocks : Items) (bs : List String) (b : String)
    → (contains bs b && lists blocks b) ≡ true
    → some_listed blocks bs ≡ true
some_of_listed blocks [] b h = cc
some_of_listed blocks (c ∷ bs) b h = ground (arith, eq_iff c b, some_of_listed blocks bs b)

none_of_listed :
    (blocks : Items) (bs : List String)
    → ((b : String) → contains bs b ≡ true → lists blocks b ≡ false)
    → some_listed blocks bs ≡ false
none_of_listed blocks [] h = refl
none_of_listed blocks (c ∷ bs) h =
    ground (arith, h c, eq_iff c c, none_of_listed blocks bs (λ b k. h b (ground arith)))

module _ (subscribed : List String) (blocks : Items) (split : Split)
    (sorted : IsSorted subscribed split)
    (valid : (b : String)
      → contains (Assoc.keys split.valid) b ≡ (contains subscribed b && lists blocks b)) where
  pub is_empty_lem :
      (d : Dict ℤ)
      → ((b : String) → contains (Assoc.keys d) b ≡ (contains subscribed b && lists blocks b))
      → is_empty d ≡ not (some_listed blocks subscribed)
  is_empty_lem [] h = ground (arith, none_of_listed blocks subscribed (λ b k. ground (arith, h b)))
  is_empty_lem ((k, v) ∷ d) h = ground (arith, h k, eq_iff k k, some_of_listed blocks subscribed k)

  pub new_block_ids_lem :
      (bs : List String)
      → ((b : String) → contains bs b ≡ true → contains subscribed b ≡ true)
      → new_block_ids split bs ≡ unlisted blocks bs
  unfolding new_block_ids
  new_block_ids_lem [] h = refl
  new_block_ids_lem (c ∷ bs) h = ground (
    arith,
    new_block_ids_lem bs (λ b k. h b (ground arith)),
    h c,
    eq_iff c c,
    valid c,
    sorted.unsubscribed c,
  )

-- ===== src/Utils/RoundTrip.antt =====
-- What block data stored by `prepare_block_data_for_redis` looks like when
-- `parse_redis_block_data` reads it back.
use omnimap_sync.Prelude.{
  ℕ, String, Bool, true, false, not, ◌&&◌, ◌||◌, ◌==◌, eq_iff, some, List, [], ◌∷◌, ◌≡◌, refl, ap,
  arith, eqb, starts_with_code, leads_numeral, leads_numeral-integer_text, Dict, contains,
  integer_text, Bool-cases, inl, inr, ◌++◌, append-nil, append_assoc, contains-append, ◌∙◌, ◌≢◌,
  All,
}
use omnimap_sync.Prelude.Assoc
use omnimap_sync.Value.{
  Value, Items, Fields, null, bool, int, float, str, list, dict, Runtime, to_str,
}
use omnimap_sync.Utils.{
  convert_items, prepare_value, prepare_block_data_for_redis, parse_value, parse_redis_block_data,
}

-- What the module relies on of `json`.
pub record IsJson (rt : Runtime) : Type 0 where
  pub dumps_true : rt.dumps (bool true) ≡ "true"
  pub dumps_false : rt.dumps (bool false) ≡ "false"
  pub dumps_dict : (fs : Fields) → starts_with_code (rt.dumps (dict fs)) b'{' ≡ true
  pub dumps_list : (vs : Items) → starts_with_code (rt.dumps (list vs)) b'[' ≡ true

-- A text that `parse_redis_block_data` does not take for something else.
abbrev pub is_plain : String → Bool
is_plain s =
    not (s == "null" || s == "true" || s == "false")
    && not (starts_with_code s b'{' || starts_with_code s b'[')

-- The value that is read back: numbers come back as texts.
abbrev pub as_read : Value → Value
as_read (int z) = str (integer_text z)
as_read (float s) = str s
as_read v = v

-- Texts must be plain, and lists and dicts must come back from JSON.
abbrev pub IsStorable : Runtime → Value → Type 0
IsStorable rt (str s) = is_plain s ≡ true
IsStorable rt (float s) = is_plain s ≡ true
IsStorable rt (list vs) = rt.loads (rt.dumps (list vs)) ≡ some (list vs)
IsStorable rt (dict fs) = rt.loads (rt.dumps (dict fs)) ≡ some (dict fs)
IsStorable rt v = Unit

-- A test that tells two texts apart.
eq_false_of_test : (p : String → Bool) (s t : String) → p s ≡ true → p t ≡ false → (s == t) ≡ false
eq_false_of_test p s t h k = elim (Bool-cases (s == t)) [
  | inl e ↦ cc (h, k, ap p ((eq_iff s t).0 e))
  | inr e ↦ e
]

not_open_of_numeral :
    (s : String)
    → leads_numeral s ≡ true
    → (starts_with_code s b'{' || starts_with_code s b'[') ≡ false
not_open_of_numeral String.[] h = refl
not_open_of_numeral (String.◌∷◌ d s) h = ground arith

is_plain_of_numeral : (s : String) → leads_numeral s ≡ true → is_plain s ≡ true
is_plain_of_numeral s h = rw (
  eq_false_of_test leads_numeral s "null" h refl,
  eq_false_of_test leads_numeral s "true" h refl,
  eq_false_of_test leads_numeral s "false" h refl,
  not_open_of_numeral s h,
)

abbrev opens : String → Bool
opens s = starts_with_code s b'{' || starts_with_code s b'['

opens_of_code :
    (s : String) (c : ℕ)
    → (eqb c b'{' || eqb c b'[') ≡ true
    → starts_with_code s c ≡ true
    → opens s ≡ true
opens_of_code String.[] c o h = cc
opens_of_code (String.◌∷◌ d s) c o h = ground arith

module _ (rt : Runtime) where
  -- A plain text is read back as itself.
  parse_value_of_plain : (s : String) → is_plain s ≡ true → parse_value rt s ≡ str s
  unfolding parse_value
  parse_value_of_plain s h = ground arith

  -- A text that opens like a container is handed to `json.loads`.
  parse_value_of_opens :
      (s : String) (v : Value) → opens s ≡ true → rt.loads s ≡ some v → parse_value rt s ≡ v
  unfolding parse_value
  parse_value_of_opens s v o l = rw (
    eq_false_of_test opens s "null" o refl,
    eq_false_of_test opens s "true" o refl,
    eq_false_of_test opens s "false" o refl,
    o,
    l,
  )

module _ (rt : Runtime) (J : IsJson rt) where
  pub parse_value-prepare_value :
      (v : Value) → IsStorable rt v → parse_value rt (prepare_value rt v) ≡ as_read v
  unfolding prepare_value to_str
  parse_value-prepare_value null h = unfold parse_value in refl
  parse_value-prepare_value (bool true) h = rw J.dumps_true (unfold parse_value in refl)
  parse_value-prepare_value (bool false) h = rw J.dumps_false (unfold parse_value in refl)
  parse_value-prepare_value (int z) h =
      parse_value_of_plain rt (integer_text z)
        (is_plain_of_numeral (integer_text z) (leads_numeral-integer_text z))
  parse_value-prepare_value (float s) h = parse_value_of_plain rt s h
  parse_value-prepare_value (str s) h = parse_value_of_plain rt s h
  parse_value-prepare_value (list vs) h =
      parse_value_of_opens rt (rt.dumps (list vs)) (list vs)
        (opens_of_code (rt.dumps (list vs)) b'[' refl (J.dumps_list vs)) h
  parse_value-prepare_value (dict fs) h =
      parse_value_of_opens rt (rt.dumps (dict fs)) (dict fs)
        (opens_of_code (rt.dumps (dict fs)) b'{' refl (J.dumps_dict fs)) h

-- The keys of a Python dict are distinct.
abbrev pub has_distinct : List String → Bool
has_distinct [] = true
has_distinct (k ∷ ks) = not (contains ks k) && has_distinct ks

abbrev pub map_values {ℓ} : {A B : Type ℓ} → (A → B) → Dict A → Dict B
map_values f [] = []
map_values f ((k, v) ∷ d) = (k, f v) ∷ map_values f d

module _ {A B : Type 0} (f : A → B) where
  put_fresh :
      (r : Dict B) (k : String) (v : B)
      → contains (Assoc.keys r) k ≡ false
      → Assoc.put r k v ≡ r ++ (k, v) ∷ []
  put_fresh [] k v h = refl
  put_fresh ((j, w) ∷ r) k v h = ground (arith, put_fresh r k v (ground arith))

  keys-append :
      (r : Dict B) (k : String) (v : B) → Assoc.keys (r ++ (k, v) ∷ []) ≡ Assoc.keys r ++ k ∷ []
  keys-append [] k v = refl
  keys-append ((j, w) ∷ r) k v = ap (◌∷◌ j) (keys-append r k v)

  -- No key of `d` is in `r`.
  abbrev is_apart : Dict B → Dict A → Bool
  is_apart r [] = true
  is_apart r ((k, v) ∷ d) = not (contains (Assoc.keys r) k) && is_apart r d

  is_apart-append :
      (r : Dict B) (k : String) (w : B) (d : Dict A)
      → is_apart r d ≡ true
      → contains (Assoc.keys d) k ≡ false
      → is_apart (r ++ (k, w) ∷ []) d ≡ true
  is_apart-append r k w [] h n = refl
  is_apart-append r k w ((j, v) ∷ d) h n =
      rw (keys-append r k w, contains-append (Assoc.keys r) (k ∷ []) j)
        (ground (arith, eq_iff j k, eq_iff k j, is_apart-append r k w d))

  convert_items-append :
      (r : Dict B) (d : Dict A)
      → has_distinct (Assoc.keys d) ≡ true
      → is_apart r d ≡ true
      → convert_items f r d ≡ r ++ map_values f d
  unfolding convert_items
  convert_items-append r [] h n = rw append-nil
  convert_items-append r ((k, v) ∷ d) h n = rw (put_fresh r k (f v) (ground arith)) (
      convert_items-append (r ++ (k, f v) ∷ []) d (ground arith)
        (is_apart-append r k (f v) d (ground arith) (ground arith))
      ∙ append_assoc r ((k, f v) ∷ []) (map_values f d))

  is_apart_nil : (d : Dict A) → is_apart [] d ≡ true
  is_apart_nil [] = refl
  is_apart_nil ((k, v) ∷ d) = is_apart_nil d

  pub convert_items-eq-map_values :
      (d : Dict A) → has_distinct (Assoc.keys d) ≡ true → convert_items f [] d ≡ map_values f d
  convert_items-eq-map_values d h = convert_items-append [] d h (is_apart_nil d)

  pub keys-map_values : (d : Dict A) → Assoc.keys (map_values f d) ≡ Assoc.keys d
  keys-map_values [] = refl
  keys-map_values ((k, v) ∷ d) = ap (◌∷◌ k) (keys-map_values d)

abbrev pub AllStorable : Runtime → Dict Value → Type 0
AllStorable rt = All (λ e. IsStorable rt e.1)

module _ (rt : Runtime) (J : IsJson rt) where
  map_values_round_trip :
      (d : Dict Value)
      → AllStorable rt d
      → map_values (parse_value rt) (map_values (prepare_value rt) d) ≡ map_values as_read d
  map_values_round_trip [] h = refl
  map_values_round_trip ((k, v) ∷ d) h =
      rw (parse_value-prepare_value rt J v h.0, map_values_round_trip d h.1)

  -- Block data whose keys are distinct, whose texts are plain and whose lists and dicts come back
  -- from JSON, comes back from a Redis hash with its keys in their order, each value as `as_read`
  -- says: None, booleans, lists, dicts and texts as they were, and numbers as texts.
  pub parse-prepare :
      (d : Dict Value)
      → has_distinct (Assoc.keys d) ≡ true
      → AllStorable rt d
      → parse_redis_block_data rt (prepare_block_data_for_redis rt d) ≡ map_values as_read d
  unfolding parse_redis_block_data prepare_block_data_for_redis
  parse-prepare d h all = rw (convert_items-eq-map_values (prepare_value rt) d h) (
      convert_items-eq-map_values (parse_value rt) (map_values (prepare_value rt) d)
        (rw (keys-map_values (prepare_value rt) d) h)
      ∙ map_values_round_trip d all)

abbrev pub is_text : Value → Bool
is_text (str s) = true
is_text _ = false

abbrev pub is_sentinel : String → Bool
is_sentinel s = s == "null" || s == "true" || s == "false"

module _ (rt : Runtime) where
  -- A text that is one of null, true and false, or that opens like a list or a dict and is JSON of
  -- one, is not read back as the text.
  pub parse_value-prepare_value_ne :
      (s : String) (v : Value)
      → (is_sentinel s || opens s) ≡ true
      → (opens s ≡ true → rt.loads s ≡ some v)
      → is_text v ≡ false
      → parse_value rt (prepare_value rt (str s)) ≢ str s
  unfolding prepare_value to_str
  parse_value-prepare_value_ne s v o l c = λ e. elim (Bool-cases (opens s)) [
    | inl y ↦ cc (c, ap is_text e, ap is_text (parse_value_of_opens rt s v y (l y)))
    | inr n ↦ unfold parse_value in ground (arith, e)
  ]

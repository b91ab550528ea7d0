-- ===== src/Utils.antt =====
-- app/utils.py: block data as the strings of a Redis hash, and back.
pub mod RoundTrip
use omnimap_sync.Prelude.{
  String, Bool, true, false, ◌||◌, ◌==◌, Option, none, some, List, [], ◌∷◌, starts_with_code, Dict,
  if◌then◌else◌,
}
use omnimap_sync.Prelude.Assoc
use omnimap_sync.Value.{Value, null, bool, int, float, str, list, dict, Runtime, to_str}

-- `for key, value in d.items(): result[key] = f(value)`
unfoldable pub convert_items : {A B : Type 0} → (A → B) → Dict B → Dict A → Dict B
convert_items f result [] = result
convert_items f result ((k, v) ∷ d) = convert_items f (Assoc.put result k (f v)) d

module _ (rt : Runtime) where
  -- The branches of `prepare_block_data_for_redis`.
  unfoldable pub prepare_value : Value → String
  prepare_value null = "null"
  prepare_value (dict fs) = rt.dumps (dict fs)
  prepare_value (list vs) = rt.dumps (list vs)
  prepare_value (bool b) = rt.dumps (bool b)
  prepare_value v = to_str rt v

  unfoldable pub prepare_block_data_for_redis : Dict Value → Dict String
  unfolding convert_items
  prepare_block_data_for_redis block_data = convert_items prepare_value [] block_data

  abbrev loaded_or : String → Option Value → Value
  loaded_or value none = str value
  loaded_or value (some v) = v

  -- The branches of `parse_redis_block_data`.
  unfoldable pub parse_value : String → Value
  parse_value value =
      if value == "null"
      then null
      else if value == "true"
      then bool true
      else if value == "false"
      then bool false
      else if starts_with_code value b'{' || starts_with_code value b'['
      then loaded_or value (rt.loads value)
      else str value

  unfoldable pub parse_redis_block_data : Dict String → Dict Value
  unfolding convert_items
  parse_redis_block_data redis_data = convert_items parse_value [] redis_data

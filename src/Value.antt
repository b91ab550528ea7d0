-- ===== src/Value.antt =====
-- The Python values that `json.loads` returns and that the service stores and sends, and the
-- functions of the language that the service applies to them.
use omnimap_sync.Prelude.{
  ℤ, pos, negsuc, String, Bool, true, false, not, ◌||◌, ◌==◌, Option, zero, suc, integer_text,
}

-- A float is kept as its `repr`, which names it.
mutual
  pub data Value : Type 0 where
    null : Value
    bool : Bool → Value
    int : ℤ → Value
    float : String → Value
    str : String → Value
    list : Items → Value
    dict : Fields → Value

  pub data Items : Type 0 where
    nil : Items
    item : Value → Items → Items

  pub data Fields : Type 0 where
    end : Fields
    field : String → Value → Fields → Fields

-- `bool(v)`
unfoldable pub truthy : Value → Bool
truthy null = false
truthy (bool b) = b
truthy (int (pos zero)) = false
truthy (int (pos (suc n))) = true
truthy (int (negsuc n)) = true
truthy (float s) = not (s == "0.0" || s == "-0.0")
truthy (str s) = not (s == "")
truthy (list nil) = false
truthy (list (item v vs)) = true
truthy (dict end) = false
truthy (dict (field k v fs)) = true

-- How a conversion such as `int(x)` ends.
pub data Conversion : Type 0 where
  converted : ℤ → Conversion
  value_error type_error overflow_error : Conversion

-- Python's `json` module, and the conversions of the language that go through floats.
pub record Runtime : Type 0 where
  -- json.dumps
  pub dumps : Value → String
  -- json.loads of a text within the interpreter's limits on digits and on nesting, `none` for a
  -- JSONDecodeError
  pub loads : String → Option Value
  -- str(v) of a list or a dict
  pub repr : Value → String
  -- int(float(v))
  pub int_float : Value → Conversion
  -- int(v)
  pub int_of : Value → Conversion

-- str(v)
unfoldable pub to_str : Runtime → Value → String
to_str rt null = "None"
to_str rt (bool true) = "True"
to_str rt (bool false) = "False"
to_str rt (int z) = integer_text z
to_str rt (float s) = s
to_str rt (str s) = s
to_str rt v = rt.repr v

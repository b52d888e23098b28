-- ===== src/Mcp/Scalars.antt =====
-- internal/controller/mcp/normalize_output.go: a scalar of an answer and the type that its schema
-- names.
pub mod Strict
use zentao_mcp.Base.{
  ℕ, Bool, true, false, not, ◌&&◌, ◌||◌, Option, none, some, List, [], ◌∷◌, if◌then◌else◌, is_some,
  ◌≡◌, refl, arith, if_cases,
}
use zentao_mcp.Base.Int.{ℤ}
use zentao_mcp.Base.Text.{Text, codes, text_eq}
use zentao_mcp.Json.{
  Value, null, bool, float, int, str, arr, obj, Items, nil, cons, Fields, end, entry, Floats, at,
}
use zentao_mcp.Json.Numbers.{parse_int, parse_bool}

-- The names of types that the two tests know.
pub data JsonType : Type 0 where
  object : JsonType
  array : JsonType
  string : JsonType
  integer : JsonType
  number : JsonType
  boolean : JsonType
  nothing : JsonType
  other : JsonType

-- The `switch typ` of the code.
unfoldable pub json_type : Text → JsonType
json_type typ =
    if text_eq typ (codes "object")
    then object
    else if text_eq typ (codes "array")
    then array
    else if text_eq typ (codes "string")
    then string
    else if text_eq typ (codes "integer")
    then integer
    else if text_eq typ (codes "number")
    then number
    else if text_eq typ (codes "boolean")
    then boolean
    else if text_eq typ (codes "null")
    then nothing
    else other

-- The types whose cases turn a string into a value.
unfoldable pub is_scalar : JsonType → Bool
is_scalar integer = true
is_scalar number = true
is_scalar boolean = true
is_scalar object = false
is_scalar array = false
is_scalar string = false
is_scalar nothing = false
is_scalar other = false

module _ (fl : Floats) where
  open fl use {F, is_whole, parse_float}

  unfoldable as_int : Option ℤ → Option (Value F)
  as_int none = none
  as_int (some n) = some (int n)

  unfoldable as_float : Option F → Option (Value F)
  as_float none = none
  as_float (some t) = some (float t)

  unfoldable as_bool : Option Bool → Option (Value F)
  as_bool none = none
  as_bool (some b) = some (bool b)

  -- `none` is (value, false).
  unfoldable pub normalize_integer : Value F → Option (Value F)
  unfolding as_int
  normalize_integer (int n) = some (int n)
  normalize_integer (float t) = if is_whole t then some (float t) else none
  normalize_integer (str s) = as_int (parse_int s)
  normalize_integer null = none
  normalize_integer (bool b) = none
  normalize_integer (arr vs) = none
  normalize_integer (obj m) = none

  unfoldable pub normalize_number : Value F → Option (Value F)
  unfolding as_float
  normalize_number (int n) = some (int n)
  normalize_number (float t) = some (float t)
  normalize_number (str s) = as_float (parse_float s)
  normalize_number null = none
  normalize_number (bool b) = none
  normalize_number (arr vs) = none
  normalize_number (obj m) = none

  unfoldable pub normalize_boolean : Value F → Option (Value F)
  unfolding as_bool
  normalize_boolean (bool b) = some (bool b)
  normalize_boolean (str s) = as_bool (parse_bool s)
  normalize_boolean null = none
  normalize_boolean (float t) = none
  normalize_boolean (int n) = none
  normalize_boolean (arr vs) = none
  normalize_boolean (obj m) = none

  unfoldable pub is_object : Value F → Bool
  is_object (obj m) = true
  is_object null = false
  is_object (bool b) = false
  is_object (float t) = false
  is_object (int n) = false
  is_object (str s) = false
  is_object (arr vs) = false

  unfoldable pub is_array : Value F → Bool
  is_array (arr vs) = true
  is_array null = false
  is_array (bool b) = false
  is_array (float t) = false
  is_array (int n) = false
  is_array (str s) = false
  is_array (obj m) = false

  unfoldable pub is_string : Value F → Bool
  is_string (str s) = true
  is_string null = false
  is_string (bool b) = false
  is_string (float t) = false
  is_string (int n) = false
  is_string (arr vs) = false
  is_string (obj m) = false

  unfoldable pub is_boolean : Value F → Bool
  is_boolean (bool b) = true
  is_boolean null = false
  is_boolean (float t) = false
  is_boolean (int n) = false
  is_boolean (str s) = false
  is_boolean (arr vs) = false
  is_boolean (obj m) = false

  unfoldable pub is_nil : Value F → Bool
  is_nil null = true
  is_nil (bool b) = false
  is_nil (float t) = false
  is_nil (int n) = false
  is_nil (str s) = false
  is_nil (arr vs) = false
  is_nil (obj m) = false

  unfoldable pub value_matches_type : Value F → JsonType → Bool
  unfolding is_object is_array is_string is_boolean is_nil normalize_integer normalize_number
  value_matches_type value object = is_object value
  value_matches_type value array = is_array value
  value_matches_type value string = is_string value
  value_matches_type value integer = is_some (normalize_integer value)
  value_matches_type value number = is_some (normalize_number value)
  value_matches_type value boolean = is_boolean value
  value_matches_type value nothing = is_nil value
  value_matches_type value other = false

  unfoldable pub is_strict_integer : Value F → Bool
  is_strict_integer (int n) = true
  is_strict_integer (float t) = is_whole t
  is_strict_integer null = false
  is_strict_integer (bool b) = false
  is_strict_integer (str s) = false
  is_strict_integer (arr vs) = false
  is_strict_integer (obj m) = false

  unfoldable pub is_strict_number : Value F → Bool
  is_strict_number (int n) = true
  is_strict_number (float t) = true
  is_strict_number null = false
  is_strict_number (bool b) = false
  is_strict_number (str s) = false
  is_strict_number (arr vs) = false
  is_strict_number (obj m) = false

  unfoldable pub value_strictly_matches_type : Value F → JsonType → Bool
  unfolding is_object is_array is_string is_boolean is_nil is_strict_integer is_strict_number
  value_strictly_matches_type value object = is_object value
  value_strictly_matches_type value array = is_array value
  value_strictly_matches_type value string = is_string value
  value_strictly_matches_type value integer = is_strict_integer value
  value_strictly_matches_type value number = is_strict_number value
  value_strictly_matches_type value boolean = is_boolean value
  value_strictly_matches_type value nothing = is_nil value
  value_strictly_matches_type value other = false

  -- The scalar cases of the loop of `normalizeValue`; `none` where another case decides.
  unfoldable pub normalize_scalar : Value F → JsonType → Option (Value F)
  unfolding normalize_integer normalize_number normalize_boolean
  normalize_scalar value integer = normalize_integer value
  normalize_scalar value number = normalize_number value
  normalize_scalar value boolean = normalize_boolean value
  normalize_scalar value object = none
  normalize_scalar value array = none
  normalize_scalar value string = none
  normalize_scalar value nothing = none
  normalize_scalar value other = none

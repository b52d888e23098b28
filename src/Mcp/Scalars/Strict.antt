-- ===== src/Mcp/Scalars/Strict.antt =====
-- internal/controller/mcp/normalize_output.go: the two tests of a type against the repair of scalars.
use zentao_mcp.Base.{Bool, true, Option, none, some, ◌≡◌, refl, arith, if_cases}
use zentao_mcp.Base.Int.{ℤ}
use zentao_mcp.Json.{Value, null, bool, float, int, str, arr, obj, Floats}
use zentao_mcp.Json.Numbers.{parse_int, parse_bool}
use zentao_mcp.Mcp.Scalars.{
  JsonType, object, array, string, integer, number, boolean, nothing, other, normalize_integer,
  normalize_number, normalize_boolean, is_boolean, value_matches_type, value_strictly_matches_type,
  is_strict_integer, is_strict_number, normalize_scalar, is_scalar, as_int, as_float, as_bool,
}

module _ (fl : Floats) where
  open fl use {F, is_whole, parse_float}

  strict_integer-kept :
      (v : Value F) → is_strict_integer fl v ≡ true → normalize_integer fl v ≡ some v
  unfolding is_strict_integer normalize_integer
  strict_integer-kept (int n) h = refl
  strict_integer-kept (float t) h = ground arith
  strict_integer-kept null h = absurd (ground arith)
  strict_integer-kept (bool b) h = absurd (ground arith)
  strict_integer-kept (str s) h = absurd (ground arith)
  strict_integer-kept (arr vs) h = absurd (ground arith)
  strict_integer-kept (obj m) h = absurd (ground arith)

  strict_number-kept : (v : Value F) → is_strict_number fl v ≡ true → normalize_number fl v ≡ some v
  unfolding is_strict_number normalize_number
  strict_number-kept (int n) h = refl
  strict_number-kept (float t) h = refl
  strict_number-kept null h = absurd (ground arith)
  strict_number-kept (bool b) h = absurd (ground arith)
  strict_number-kept (str s) h = absurd (ground arith)
  strict_number-kept (arr vs) h = absurd (ground arith)
  strict_number-kept (obj m) h = absurd (ground arith)

  strict_boolean-kept : (v : Value F) → is_boolean fl v ≡ true → normalize_boolean fl v ≡ some v
  unfolding is_boolean normalize_boolean
  strict_boolean-kept (bool b) h = refl
  strict_boolean-kept (int n) h = absurd (ground arith)
  strict_boolean-kept (float t) h = absurd (ground arith)
  strict_boolean-kept null h = absurd (ground arith)
  strict_boolean-kept (str s) h = absurd (ground arith)
  strict_boolean-kept (arr vs) h = absurd (ground arith)
  strict_boolean-kept (obj m) h = absurd (ground arith)

  -- A value that strictly matches a type also matches it.
  pub matches-strict :
      (v : Value F) (typ : JsonType)
      → value_strictly_matches_type fl v typ ≡ true
      → value_matches_type fl v typ ≡ true
  unfolding value_strictly_matches_type value_matches_type
  matches-strict v object h = h
  matches-strict v array h = h
  matches-strict v string h = h
  matches-strict v integer h = ground (arith, strict_integer-kept v h)
  matches-strict v number h = ground (arith, strict_number-kept v h)
  matches-strict v boolean h = h
  matches-strict v nothing h = h
  matches-strict v other h = h

  -- A value that strictly matches "integer", "number" or "boolean" is kept as it is.
  pub normalize_scalar-kept :
      (v : Value F) (typ : JsonType)
      → is_scalar typ ≡ true
      → value_strictly_matches_type fl v typ ≡ true
      → normalize_scalar fl v typ ≡ some v
  unfolding value_strictly_matches_type normalize_scalar is_scalar
  normalize_scalar-kept v integer s h = strict_integer-kept v h
  normalize_scalar-kept v number s h = strict_number-kept v h
  normalize_scalar-kept v boolean s h = strict_boolean-kept v h
  normalize_scalar-kept v object s h = absurd (ground arith)
  normalize_scalar-kept v array s h = absurd (ground arith)
  normalize_scalar-kept v string s h = absurd (ground arith)
  normalize_scalar-kept v nothing s h = absurd (ground arith)
  normalize_scalar-kept v other s h = absurd (ground arith)

  -- A value, if there is one, strictly matches the type.
  abbrev pub Strict : JsonType → Option (Value F) → Type 0
  Strict typ none = Unit
  Strict typ (some w) = value_strictly_matches_type fl w typ ≡ true

  integer-Strict : (v : Value F) → Strict integer (normalize_integer fl v)
  unfolding as_int normalize_integer value_strictly_matches_type is_strict_integer
  integer-Strict (int n) = refl
  integer-Strict (float t) =
      if_cases {A = Option (Value F)} (Strict integer) (is_whole t) (λ h. h) (λ h. tt)
  integer-Strict (str s) = read (parse_int s)
    where
      read : (o : Option ℤ) → Strict integer (as_int fl o)
      read none = tt
      read (some n) = refl
  integer-Strict null = tt
  integer-Strict (bool b) = tt
  integer-Strict (arr vs) = tt
  integer-Strict (obj m) = tt

  number-Strict : (v : Value F) → Strict number (normalize_number fl v)
  unfolding as_float normalize_number value_strictly_matches_type is_strict_number
  number-Strict (int n) = refl
  number-Strict (float t) = refl
  number-Strict (str s) = read (parse_float s)
    where
      read : (o : Option F) → Strict number (as_float fl o)
      read none = tt
      read (some n) = refl
  number-Strict null = tt
  number-Strict (bool b) = tt
  number-Strict (arr vs) = tt
  number-Strict (obj m) = tt

  boolean-Strict : (v : Value F) → Strict boolean (normalize_boolean fl v)
  unfolding as_bool normalize_boolean value_strictly_matches_type is_boolean
  boolean-Strict (bool b) = refl
  boolean-Strict (str s) = read (parse_bool s)
    where
      read : (o : Option Bool) → Strict boolean (as_bool fl o)
      read none = tt
      read (some n) = refl
  boolean-Strict null = tt
  boolean-Strict (float t) = tt
  boolean-Strict (int n) = tt
  boolean-Strict (arr vs) = tt
  boolean-Strict (obj m) = tt

  -- What the cases "integer", "number" and "boolean" of `normalizeValue` return in place of a
  -- value strictly matches the type, so a string becomes a value of it or stays as it is.
  pub normalize_scalar-Strict :
      (v : Value F) (typ : JsonType) → Strict typ (normalize_scalar fl v typ)
  unfolding normalize_scalar
  normalize_scalar-Strict v integer = integer-Strict v
  normalize_scalar-Strict v number = number-Strict v
  normalize_scalar-Strict v boolean = boolean-Strict v
  normalize_scalar-Strict v object = tt
  normalize_scalar-Strict v array = tt
  normalize_scalar-Strict v string = tt
  normalize_scalar-Strict v nothing = tt
  normalize_scalar-Strict v other = tt

-- ===== src/Zentao/Arguments/Positive.antt =====
-- internal/service/zentao/values.go: the ids that argInts reads.
use zentao_mcp.Base.{ℕ, ◌<◌, Option, none, some, List, [], ◌∷◌, arith, All, if_cases, ltb}
use zentao_mcp.Base.Int.{ℤ, to_nat}
use zentao_mcp.Base.Text.{Text, trim_space}
use zentao_mcp.Json.{Value, null, bool, float, int, str, arr, obj, Items, nil, cons, Fields, Floats}
use zentao_mcp.Json.Numbers.{parse_int}
use zentao_mcp.Zentao.Values.{field, to_int}
use zentao_mcp.Zentao.Arguments.{
  keep_positive, parts_to_ints, items_to_ints, value_to_ints, arg_ints, fields_func,
}

abbrev pub Positive : List ℕ → Type 0
Positive = All (λ n. 0 < n)

keep_positive-Positive : (z : Option ℤ) (ns : List ℕ) → Positive ns → Positive (keep_positive z ns)
unfolding keep_positive
keep_positive-Positive none ns p = p
keep_positive-Positive (some z) ns p =
    if_cases {A = List ℕ} Positive (ltb 0 (to_nat z)) (λ h. (ground arith, p)) (λ h. p)

parts_to_ints-Positive : (ps : List Text) → Positive (parts_to_ints ps)
unfolding parts_to_ints
parts_to_ints-Positive [] = tt
parts_to_ints-Positive (p ∷ ps) =
    keep_positive-Positive (parse_int (trim_space p)) (parts_to_ints ps) (parts_to_ints-Positive ps)

module _ (fl : Floats) where
  open fl use {F}

  items_to_ints-Positive : (vs : Items F) → Positive (items_to_ints fl vs)
  unfolding items_to_ints
  items_to_ints-Positive nil = tt
  items_to_ints-Positive (cons v vs) =
      keep_positive-Positive (to_int fl v) (items_to_ints fl vs) (items_to_ints-Positive vs)

  value_to_ints-Positive : (v : Value F) → Positive (value_to_ints fl v)
  unfolding value_to_ints
  value_to_ints-Positive null = tt
  value_to_ints-Positive (arr vs) = items_to_ints-Positive vs
  value_to_ints-Positive (str s) = parts_to_ints-Positive (fields_func [] s)
  value_to_ints-Positive (bool b) = keep_positive-Positive (to_int fl (bool b)) [] tt
  value_to_ints-Positive (float t) = keep_positive-Positive (to_int fl (float t)) [] tt
  value_to_ints-Positive (int n) = keep_positive-Positive (to_int fl (int n)) [] tt
  value_to_ints-Positive (obj m) = keep_positive-Positive (to_int fl (obj m)) [] tt

  -- Every id that argInts reads, from an array, a text or a single value, is positive.
  pub arg_ints-Positive : (names : List Text) (m : Fields F) → Positive (arg_ints fl names m)
  unfolding arg_ints
  arg_ints-Positive names m = value_to_ints-Positive (field fl names m)

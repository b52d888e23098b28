-- ===== src/Zentao/Values.antt =====
-- internal/service/zentao/values.go: reading fields and arguments that come in many encodings.
pub mod Aliases
use zentao_mcp.Base.{
  ℕ, Bool, true, false, not, ◌&&◌, Option, none, some, List, [], ◌∷◌, ◌++◌, ltb, leb, ◌==◌,
  if◌then◌else◌, length, take,
}
use zentao_mcp.Base.Int.{ℤ, pos, negsuc}
use zentao_mcp.Base.Text.{Text, codes, text_eq, trim_space}
use zentao_mcp.Json.{
  Value, null, bool, float, int, str, arr, obj, nil, cons, Fields, end, entry, Floats, at,
}
use zentao_mcp.Json.Numbers.{format_int, parse_int}

abbrev pub user_ref_fields : List Text
user_ref_fields =
    codes "account" ∷ codes "realname" ∷ codes "realName" ∷ codes "name" ∷ codes "id" ∷ []

-- `clamp`
unfoldable pub clamp : ℤ → (lo hi : ℕ) → ℕ
clamp (pos v) lo hi = if ltb v lo then lo else if ltb hi v then hi else v
clamp (negsuc v) lo hi = lo

-- `truncate`, at a limit that is not negative.
unfoldable pub truncate : Text → ℕ → Text
truncate s limit =
    if limit == 0 then s else if leb (length s) limit then s else take limit s ++ codes "..."

module _ (fl : Floats) where
  open fl use {F, truncate as to_whole, small_int, format_float, parse_float, sprint}

  unfoldable pub plain_string : Value F → Text
  plain_string null = []
  plain_string (str s) = s
  plain_string (bool true) = codes "true"
  plain_string (bool false) = codes "false"
  plain_string (float t) = elim (small_int t) [ some n ↦ format_int n | none ↦ format_float t ]
  plain_string (int n) = sprint (int n)
  plain_string (arr vs) = sprint (arr vs)
  plain_string (obj m) = sprint (obj m)

  -- The first of the keys that holds a readable text.
  unfoldable pub user_ref_from : List Text → Fields F → Text
  user_ref_from [] m = []
  user_ref_from (k ∷ ks) m =
      let rest = user_ref_from ks m in
      let s = trim_space (plain_string (at k m)) in
      if not (text_eq s []) && not (text_eq s (codes "0")) then s else rest

  unfoldable pub user_ref : Fields F → Text
  user_ref m = user_ref_from user_ref_fields m

  unfoldable pub as_string : Value F → Text
  as_string (obj m) = user_ref m
  as_string null = plain_string null
  as_string (str s) = s
  as_string (bool b) = plain_string (bool b)
  as_string (float t) = plain_string (float t)
  as_string (int n) = plain_string (int n)
  as_string (arr vs) = plain_string (arr vs)

  unfoldable pub float_to_int : Option F → Option ℤ
  float_to_int none = none
  float_to_int (some t) = some (to_whole t)

  -- The case of a string in `toInt`.
  unfoldable pub text_to_int : Text → Option ℤ
  text_to_int s =
      let t = trim_space s in
      if text_eq t []
      then none
      else elim (parse_int t) [ some i ↦ some i | none ↦ float_to_int (parse_float t) ]

  -- `toInt`; `none` is (0, false).
  unfoldable mutual
    unfolding text_to_int

    pub to_int : Value F → Option ℤ
    to_int (float t) = some (to_whole t)
    to_int (str s) = text_to_int s
    to_int (bool true) = some (pos 1)
    to_int (bool false) = some (pos 0)
    to_int (obj m) = to_int_id m
    to_int (arr vs) = none
    to_int null = none
    to_int (int n) = none

    -- Of the field "id" of a reference.
    pub to_int_id : Fields F → Option ℤ
    to_int_id end = none
    to_int_id (entry k v m) = if text_eq k (codes "id") then to_int v else to_int_id m

  -- `v, _ := toInt(x)`
  unfoldable pub int_or_zero : Option ℤ → ℤ
  int_or_zero none = pos 0
  int_or_zero (some n) = n

  unfoldable pub is_null : Value F → Bool
  is_null null = true
  is_null (bool b) = false
  is_null (float t) = false
  is_null (int n) = false
  is_null (str s) = false
  is_null (arr vs) = false
  is_null (obj m) = false

  unfoldable pub is_blank : Value F → Bool
  is_blank (str s) = text_eq (trim_space s) []
  is_blank (obj m) = text_eq (user_ref m) []
  is_blank (arr nil) = true
  is_blank (arr (cons v vs)) = false
  is_blank null = false
  is_blank (bool b) = false
  is_blank (float t) = false
  is_blank (int n) = false

  -- The loop of `field`, with `fallback` so far.
  unfoldable pub field_from : Value F → List Text → Fields F → Value F
  unfolding is_null is_blank
  field_from fallback [] m = fallback
  field_from fallback (n ∷ ns) m =
      let v = at n m in
      let absent = field_from fallback ns m in
      let blank = field_from (if is_null fallback then v else fallback) ns m in
      if is_null v then absent else if is_blank v then blank else v

  unfoldable pub field : List Text → Fields F → Value F
  field names m = field_from null names m

  unfoldable pub field_string : List Text → Fields F → Text
  field_string names m = trim_space (as_string (field names m))

  unfoldable pub field_int : List Text → Fields F → ℤ
  field_int names m = int_or_zero (to_int (field names m))

  unfoldable pub arg_string : List Text → Fields F → Text
  arg_string names m = trim_space (as_string (field names m))

  unfoldable pub arg_int : Text → ℤ → Fields F → ℤ
  unfolding is_null
  arg_int name def m =
      let v = at name m in if is_null v then def else elim (to_int v) [ some n ↦ n | none ↦ def ]

-- ===== src/Zentao/Arguments.antt =====
-- internal/service/zentao/values.go: arguments of other types, scores, users and ranked counters.
pub mod Ranking
pub mod Positive
use zentao_mcp.Base.{
  ℕ, zero, suc, Bool, true, false, not, ◌&&◌, ◌||◌, Option, none, some, List, [], ◌∷◌, ◌++◌, map,
  if◌then◌else◌, ltb, leb, ◌==◌, length, take,
}
use zentao_mcp.Base.Int.{ℤ, to_nat}
use zentao_mcp.Base.Text.{Text, codes, text_eq, trim_space}
use zentao_mcp.Base.Assoc.{Assoc, lookup, insert}
use zentao_mcp.Json.{
  Value, null, bool, float, int, str, arr, obj, Items, nil, cons, Fields, Floats, at,
}
use zentao_mcp.Json.Numbers.{parse_int, parse_bool}
use zentao_mcp.Zentao.Values.{
  field, field_string, is_null, to_int, plain_string, as_string, user_ref_fields,
}
use zentao_mcp.Base.Strings.{text_less}

-- The numbers above zero: `ok && n > 0`.
unfoldable pub keep_positive : Option ℤ → List ℕ → List ℕ
keep_positive none ns = ns
keep_positive (some z) ns = let n = to_nat z in if ltb 0 n then n ∷ ns else ns

-- The separators of `argInts`.
unfoldable pub is_separator : ℕ → Bool
is_separator c = c == b',' || c == b' ' || c == b';'

-- strings.FieldsFunc: `part` holds the characters of the field so far, `rest` is the text.
unfoldable pub fields_func : Text → Text → List Text
unfolding is_separator
fields_func part [] = if text_eq part [] then [] else part ∷ []
fields_func part (c ∷ s) =
    let cut = fields_func [] s in
    let on = fields_func (part ++ c ∷ []) s in
    if not (is_separator c) then on else if text_eq part [] then cut else part ∷ cut

unfoldable pub parts_to_ints : List Text → List ℕ
unfolding keep_positive
parts_to_ints [] = []
parts_to_ints (p ∷ ps) = keep_positive (parse_int (trim_space p)) (parts_to_ints ps)

-- `NameCount`
pub record NameCount : Type 0 where
  pub name : Text
  pub count : ℕ

unfoldable pub counts_of : Assoc ℕ → List NameCount
counts_of [] = []
counts_of ((name, count) ∷ counts) =
    let rest = counts_of counts in
    if text_eq name [] then rest else record { name = name; count = count } ∷ rest

-- The order of `sort.Slice` in `topN`.
unfoldable pub ranks_before : NameCount → NameCount → Bool
ranks_before a b = if not (a.count == b.count) then ltb b.count a.count else text_less a.name b.name

unfoldable pub insert_ranked : NameCount → List NameCount → List NameCount
unfolding ranks_before
insert_ranked e [] = e ∷ []
insert_ranked e (x ∷ xs) =
    let rest = insert_ranked e xs in if ranks_before x e then x ∷ rest else e ∷ x ∷ xs

unfoldable pub ranked : List NameCount → List NameCount
unfolding insert_ranked
ranked [] = []
ranked (e ∷ es) = insert_ranked e (ranked es)

unfoldable pub top_n : Assoc ℕ → ℤ → List NameCount
unfolding counts_of ranked
top_n counts n =
    let out = ranked (counts_of counts) in
    let limit = to_nat n in if ltb 0 limit && ltb limit (length out) then take limit out else out

unfoldable pub count_at : Option ℕ → ℕ
count_at none = 0
count_at (some n) = n

-- `bump`, which returns the counters.
unfoldable pub bump : Assoc ℕ → Text → Assoc ℕ
unfolding count_at
bump counts key =
    let k = if text_eq key [] then codes "(empty)" else key in
    insert k (suc (count_at (lookup k counts))) counts

module _ (fl : Floats) where
  open fl use {F, parse_float, is_zero}

  unfoldable pub items_to_ints : Items F → List ℕ
  unfolding keep_positive
  items_to_ints nil = []
  items_to_ints (cons v vs) = keep_positive (to_int fl v) (items_to_ints vs)

  -- `argInts` of the value that it finds.
  unfoldable pub value_to_ints : Value F → List ℕ
  unfolding items_to_ints parts_to_ints keep_positive
  value_to_ints null = []
  value_to_ints (arr vs) = items_to_ints vs
  value_to_ints (str s) = parts_to_ints (fields_func [] s)
  value_to_ints (bool b) = keep_positive (to_int fl (bool b)) []
  value_to_ints (float t) = keep_positive (to_int fl (float t)) []
  value_to_ints (int n) = keep_positive (to_int fl (int n)) []
  value_to_ints (obj m) = keep_positive (to_int fl (obj m)) []

  unfoldable pub arg_ints : List Text → Fields F → List ℕ
  unfolding value_to_ints
  arg_ints names m = value_to_ints (field fl names m)

  unfoldable pub bool_or : Bool → Option Bool → Bool
  bool_or def none = def
  bool_or def (some b) = b

  -- `argBool` of the value that it finds.
  unfoldable pub value_to_bool : Bool → Value F → Bool
  unfolding bool_or
  value_to_bool def (bool b) = b
  value_to_bool def (str s) = bool_or def (parse_bool (trim_space s))
  value_to_bool def (float t) = not (is_zero t)
  value_to_bool def null = def
  value_to_bool def (int n) = def
  value_to_bool def (arr vs) = def
  value_to_bool def (obj m) = def

  unfoldable pub arg_bool : Text → Bool → Fields F → Bool
  unfolding value_to_bool
  arg_bool name def m = value_to_bool def (at name m)

  -- `toFloat`; `none` is (0, false).
  unfoldable pub to_float : Value F → Option F
  to_float (float t) = some t
  to_float (str s) = let t = trim_space s in if text_eq t [] then none else parse_float t
  to_float null = none
  to_float (bool b) = none
  to_float (int n) = none
  to_float (arr vs) = none
  to_float (obj m) = none

  is_zero_score : Option F → Bool
  is_zero_score none = false
  is_zero_score (some t) = is_zero t

  unfoldable pub comment_score : Fields F → Text
  unfolding to_float is_zero_score
  comment_score action =
      let raw = field_string fl (codes "aiScore" ∷ codes "score" ∷ []) action in
      if text_eq raw [] then [] else if is_zero_score (to_float (str raw)) then [] else raw

  -- `lower` is unicode.ToLower, which strings.ToLower applies to each character.
  module _ (lower : ℕ → ℕ) where
    unfoldable pub same_user : Text → Text → Bool
    same_user s want = text_eq (map lower (trim_space s)) want

    -- The loop over the fields of a user reference.
    unfoldable pub match_ref : List Text → Fields F → Text → Bool
    unfolding same_user
    match_ref [] m want = false
    match_ref (k ∷ ks) m want = same_user (plain_string fl (at k m)) want || match_ref ks m want

    unfoldable pub match_value : Value F → Text → Bool
    unfolding match_ref same_user
    match_value (obj m) want = match_ref user_ref_fields m want
    match_value null want = same_user (as_string fl null) want
    match_value (bool b) want = same_user (as_string fl (bool b)) want
    match_value (float t) want = same_user (as_string fl (float t)) want
    match_value (int n) want = same_user (as_string fl (int n)) want
    match_value (str s) want = same_user (as_string fl (str s)) want
    match_value (arr vs) want = same_user (as_string fl (arr vs)) want

    unfoldable pub match_user : Value F → Text → Bool
    unfolding match_value
    match_user v want =
        if text_eq want [] then true else match_value v (map lower (trim_space want))

-- ===== src/Json.antt =====
-- Values of encoding/json as Go holds them in `any`: what a tool gets as arguments and what the
-- upstream server answers. `F` is float64, `int` a Go integer of any width.
pub mod Numbers
use zentao_mcp.Base.{ℕ, ◌+◌, Bool, true, false, Option, none, some, List, [], ◌∷◌, if◌then◌else◌}
use zentao_mcp.Base.Int.{ℤ}
use zentao_mcp.Base.Text.{Text, text_eq}

mutual
  pub data Value (F : Type 0) : Type 0 where
    null : Value F
    bool : Bool → Value F
    float : F → Value F
    int : ℤ → Value F
    str : Text → Value F
    arr : Items F → Value F
    obj : Fields F → Value F

  pub data Items (F : Type 0) : Type 0 where
    nil : Items F
    cons : Value F → Items F → Items F

  -- A map[string]any, in the order in which `range` meets its entries.
  pub data Fields (F : Type 0) : Type 0 where
    end : Fields F
    entry : Text → Value F → Fields F → Fields F

-- What the code uses of float64 and of package fmt.
pub record Floats : Type 1 where
  pub F : Type 0
  -- int(t)
  pub truncate : F → ℤ
  -- int64(t), if t is a whole number below 1e15 in size
  pub small_int : F → Option ℤ
  -- strconv.FormatFloat(t, 'f', -1, 64)
  pub format_float : F → Text
  -- strconv.ParseFloat(s, 64)
  pub parse_float : Text → Option F
  pub is_zero : F → Bool
  -- math.Trunc(t) == t
  pub is_whole : F → Bool
  -- fmt.Sprint
  pub sprint : Value F → Text

module _ {F : Type 0} where
  -- `m[k]`, with `ok`
  unfoldable pub get : Text → Fields F → Option (Value F)
  get k end = none
  get k (entry j v m) = if text_eq j k then some v else get k m

  -- `m[k]` alone
  unfoldable pub at : Text → Fields F → Value F
  unfolding get
  at k m = elim (get k m) [ none ↦ null | some v ↦ v ]

  abbrev pub to_list : Items F → List (Value F)
  to_list nil = []
  to_list (cons v vs) = v ∷ to_list vs

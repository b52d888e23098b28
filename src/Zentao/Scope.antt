-- ===== src/Zentao/Scope.antt =====
-- internal/service/zentao/client.go: which collection a tool reads.
mod Choice
pub mod Agreement
use zentao_mcp.Base.{
  ℕ, zero, suc, Bool, true, false, not, ◌&&◌, ◌||◌, ◌⊎◌, inl, inr, Option, none, some, List, [],
  ◌∷◌, ◌++◌, map, ltb, leb, ◌==◌, if◌then◌else◌, length,
}
use zentao_mcp.Base.Int.{ℤ, pos, negsuc, to_nat}
use zentao_mcp.Base.Text.{Text, codes, text_eq, trim_space}
use zentao_mcp.Json.{Fields, Floats}
use zentao_mcp.Json.Numbers.{format_int}
use zentao_mcp.Zentao.Values.{arg_string, arg_int}

abbrev pub product : Text
product = codes "product"

abbrev pub project : Text
project = codes "project"

abbrev pub execution : Text
execution = codes "execution"

-- The errors, without their text: `errMissingScope`, `errUnknownScope`, `errUnknownObject`, and the
-- three uses of `errInvalidArgument`.
pub data ScopeError : Type 0 where
  missing_scope : ScopeError
  unknown_scope : ScopeError
  unknown_object : ScopeError
  several_scopes : ScopeError
  id_conflict : ScopeError
  scope_conflict : ScopeError

unfoldable pub one_of : List Text → Text → Bool
one_of [] s = false
one_of (t ∷ ts) s = text_eq s t || one_of ts s

abbrev product_lists : List Text
product_lists = codes "bugs" ∷ codes "stories" ∷ codes "testcases" ∷ codes "releases" ∷ []

abbrev project_lists : List Text
project_lists =
    codes "bugs"
    ∷ codes "stories"
    ∷ codes "testcases"
    ∷ codes "testtasks"
    ∷ codes "builds"
    ∷ codes "executions"
    ∷ []

abbrev execution_lists : List Text
execution_lists =
    codes "bugs" ∷ codes "stories" ∷ codes "testcases" ∷ codes "tasks" ∷ codes "builds" ∷ []

-- `allowed[scope]`
unfoldable pub allowed : Text → Option (List Text)
allowed scope =
    if text_eq scope product
    then some product_lists
    else if text_eq scope project
    then some project_lists
    else if text_eq scope execution
    then some execution_lists
    else none

unfoldable pub path_of : Text → ℤ → Text → Text
path_of scope id collection =
    codes "/" ++ scope ++ codes "s/" ++ format_int id ++ codes "/" ++ collection

unfoldable pub collection_path : Text → ℤ → Text → ScopeError ⊎ Text
unfolding allowed one_of path_of
collection_path scope id collection =
    if to_nat id == 0 then inl missing_scope else elim (allowed scope) [
      | none ↦ inl unknown_scope
      | some collections ↦
          if one_of collections collection
          then inr (path_of scope id collection)
          else inl unknown_scope
    ]

-- `scopeAliases`
abbrev pub scope_aliases : List (Text × Text)
scope_aliases =
    (codes "productID", product)
    ∷ (codes "projectID", project)
    ∷ (codes "executionID", execution)
    ∷ []

-- The local variables of the loop of `scopeSelector`.
pub record Alias : Type 0 where
  pub scope : Text
  pub id : ℕ
  pub seen : List Text

-- The switch at the end of `scopeSelector`.
unfoldable pub checked_scope : Text → ℤ → ScopeError ⊎ (Text × ℤ)
unfolding one_of
checked_scope scope id =
    if one_of (product ∷ project ∷ execution ∷ []) scope then inr (scope, id) else inl unknown_scope

unfoldable pub is_zero_int : ℤ → Bool
is_zero_int (pos n) = n == 0
is_zero_int (negsuc n) = false

-- `scopeSelector` after the loop over the aliases.
unfoldable pub choose_scope : Text → ℤ → Text → Alias → ScopeError ⊎ (Text × ℤ)
unfolding checked_scope is_zero_int
choose_scope scope id default_scope a =
    let wanted = if text_eq scope [] then default_scope else scope in
    if ltb 1 (length a.seen)
    then inl several_scopes
    else if ltb 0 a.id
    then (if ltb 0 (to_nat id) && not (to_nat id == a.id)
        then inl id_conflict
        else if not (text_eq scope []) && not (text_eq scope a.scope)
        then inl scope_conflict
        else inr (a.scope, pos a.id))
    else if text_eq wanted [] && is_zero_int id
    then inr ([], pos 0)
    else checked_scope wanted id

abbrev pub no_alias : Alias
no_alias = record { scope = []; id = 0; seen = [] }

-- `lower` is unicode.ToLower, which strings.ToLower applies to each character.
module _ (lower : ℕ → ℕ) where
  unfoldable pub folded : Text → Text
  folded s = map lower (trim_space s)

  -- The collection and the wrapper key of an object type.
  unfoldable pub resolve_object : Text → ScopeError ⊎ (Text × Text)
  unfolding folded one_of
  resolve_object object_type =
      let s = folded object_type in
      if one_of (codes "bug" ∷ codes "bugs" ∷ []) s
      then inr (codes "bugs", codes "bug")
      else if one_of (codes "task" ∷ codes "tasks" ∷ []) s
      then inr (codes "tasks", codes "task")
      else if one_of
          (codes "story" ∷ codes "stories" ∷ codes "requirement" ∷ codes "requirements" ∷ []) s
      then inr (codes "stories", codes "story")
      else if one_of (codes "testcase" ∷ codes "testcases" ∷ codes "case" ∷ []) s
      then inr (codes "testcases", codes "testcase")
      else inl unknown_object

  unfoldable pub object_path : Text → ℤ → ScopeError ⊎ (Text × Text)
  unfolding resolve_object
  object_path object_type id = elim (resolve_object object_type) [
    | inl e ↦ inl e
    | inr r ↦ inr (codes "/" ++ r.0 ++ codes "/" ++ format_int id, r.1)
  ]

  unfoldable pub normalize_scope : Text → Text
  unfolding folded one_of
  normalize_scope scope =
      let s = folded scope in
      if one_of (codes "product" ∷ codes "products" ∷ codes "产品" ∷ []) s
      then product
      else if one_of (codes "project" ∷ codes "projects" ∷ codes "项目" ∷ []) s
      then project
      else if one_of
          (codes "execution"
            ∷ codes "executions"
            ∷ codes "sprint"
            ∷ codes "iteration"
            ∷ codes "执行"
            ∷ codes "迭代"
            ∷ [])
          s
      then execution
      else s

  module _ (fl : Floats) where
    open fl use {F}

    -- The value of an alias, 0 when it gives none.
    unfoldable pub alias_value : Text → Fields F → ℕ
    alias_value name args = to_nat (arg_int fl name (pos 0) args)

    unfoldable pub scan_aliases : List (Text × Text) → Fields F → Alias → Alias
    unfolding alias_value
    scan_aliases [] args a = a
    scan_aliases ((name, scope) ∷ rest) args a =
        let v = alias_value name args in
        let skipped = scan_aliases rest args a in
        let taken =
          scan_aliases rest args (record { scope = scope; id = v; seen = a.seen ++ name ∷ [] }) in
        if v == 0 then skipped else taken

    unfoldable pub scope_selector : Fields F → Text → ScopeError ⊎ (Text × ℤ)
    unfolding normalize_scope scan_aliases choose_scope
    scope_selector args default_scope =
        let scope = normalize_scope (arg_string fl (codes "scope" ∷ []) args) in
        let id = arg_int fl (codes "scopeID") (pos 0) args in
        choose_scope scope id default_scope (scan_aliases scope_aliases args no_alias)

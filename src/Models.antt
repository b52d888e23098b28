-- ===== src/Models.antt =====
-- internal/models/operation_matcher.go: which operations of the OpenAPI document become tools.
-- `matches` is regexp.Regexp.MatchString, `Regex` a compiled expression.
use zentao_mcp.Base.{
  Bool, true, false, not, ◌&&◌, ◌||◌, List, [], ◌∷◌, if◌then◌else◌, ◌≡◌, refl, arith,
}
use zentao_mcp.Base.Text.{Text, text_eq}

module _ (Regex : Type 0) where
  -- `CompiledRule`
  pub record CompiledRule : Type 0 where
    pub methods : List Text
    pub regex : Regex

  pub record OperationMatcher : Type 0 where
    pub allow : List CompiledRule
    pub block : List CompiledRule

  abbrev pub new_operation_matcher : (allow block : List CompiledRule) → OperationMatcher
  new_operation_matcher allow block = record { allow = allow; block = block }

-- `slices.Contains`
unfoldable pub contains : List Text → Text → Bool
contains [] s = false
contains (t ∷ ts) s = text_eq t s || contains ts s

module _ {Regex : Type 0} (matches : Regex → Text → Bool) where
  -- The loop over the rules that allow.
  unfoldable pub scan_allow : List (CompiledRule Regex) → (method path : Text) → Bool
  unfolding contains
  scan_allow [] method path = false
  scan_allow (rule ∷ rules) method path =
      let rest = scan_allow rules method path in
      if not (contains rule.methods method)
      then rest
      else if matches rule.regex path
      then true
      else rest

  -- The loop over the rules that block, and the result.
  unfoldable pub scan_block :
      List (CompiledRule Regex) → (allowed : Bool) → (method path : Text) → Bool
  unfolding contains
  scan_block [] allowed method path = allowed
  scan_block (rule ∷ rules) allowed method path =
      let rest = scan_block rules allowed method path in
      if not (contains rule.methods method)
      then rest
      else if matches rule.regex path
      then false
      else rest

  unfoldable pub is_allowed : OperationMatcher Regex → (method path : Text) → Bool
  unfolding scan_allow scan_block
  is_allowed m method path = scan_block m.block (scan_allow m.allow method path) method path

  -- The rules that apply to an operation.
  unfoldable pub applies : (method path : Text) → CompiledRule Regex → Bool
  applies method path rule = contains rule.methods method && matches rule.regex path

  unfoldable pub some_applies : List (CompiledRule Regex) → (method path : Text) → Bool
  unfolding applies
  some_applies [] method path = false
  some_applies (rule ∷ rules) method path =
      applies method path rule || some_applies rules method path

  scan_allow_lem :
      (rules : List (CompiledRule Regex)) (method path : Text)
      → scan_allow rules method path ≡ some_applies rules method path
  unfolding scan_allow some_applies
  scan_allow_lem [] method path = refl
  scan_allow_lem (rule ∷ rules) method path = ground (arith, scan_allow_lem rules method path)

  scan_block_lem :
      (rules : List (CompiledRule Regex)) (allowed : Bool) (method path : Text)
      → scan_block rules allowed method path ≡ (allowed && not (some_applies rules method path))
  unfolding scan_block some_applies
  scan_block_lem [] allowed method path = ground arith
  scan_block_lem (rule ∷ rules) allowed method path =
      ground (arith, scan_block_lem rules allowed method path)

  -- An operation is allowed exactly when one of the allowing rules applies to it and none of the
  -- blocking rules does, so the order of the rules does not matter.
  pub is_allowed_iff :
      (m : OperationMatcher Regex) (method path : Text)
      → is_allowed m method path
        ≡ (some_applies m.allow method path && not (some_applies m.block method path))
  unfolding is_allowed
  is_allowed_iff m method path = ground (
    arith,
    scan_allow_lem m.allow method path,
    scan_block_lem m.block (scan_allow m.allow method path) method path,
  )

-- ===== src/Tests/ToolTests.antt =====
-- internal/models/operation_matcher.go and internal/controller/mcp/normalize_output.go on concrete
-- inputs.
use zentao_mcp.Base.{ℕ, ◌≡◌, refl, Bool, true, false, not, ◌&&◌, [], ◌∷◌, none, ◌==◌}
use zentao_mcp.Base.Int.{pos}
use zentao_mcp.Base.Text.{Text, codes, text_eq, has_prefix}
use zentao_mcp.Json.{float, str, Floats}
use zentao_mcp.Json.Numbers.{parse_int}
use zentao_mcp.Models.{
  OperationMatcher, is_allowed, scan_allow, scan_block, some_applies, applies, contains,
  is_allowed_iff,
}
use zentao_mcp.Mcp.Scalars.{
  integer, normalize_scalar, normalize_integer, value_strictly_matches_type, value_matches_type,
}
use zentao_mcp.Mcp.Scalars.Strict.{Strict, normalize_scalar-Strict, matches-strict}

program : Unit {0}
unfolding is_allowed scan_allow scan_block some_applies applies contains text_eq has_prefix
    normalize_scalar normalize_integer value_strictly_matches_type value_matches_type parse_int
program = tt

-- A rule by prefix stands for its expression.
abbrev starts : Text → Text → Bool
starts p path = has_prefix path p

abbrev rules : OperationMatcher Text
rules = record {
  allow = record { methods = codes "GET" ∷ codes "POST" ∷ []; regex = codes "/" } ∷ [];
  block = record { methods = codes "POST" ∷ []; regex = codes "/users" } ∷ [];
}

blocks_users : is_allowed starts rules (codes "POST") (codes "/users/1") ≡ false
unfolding program
blocks_users = refl

is_allowed_iff_example : is_allowed starts rules (codes "GET") (codes "/users") ≡ (
    some_applies starts rules.allow (codes "GET") (codes "/users")
    && not (some_applies starts rules.block (codes "GET") (codes "/users")))
is_allowed_iff_example = is_allowed_iff starts rules (codes "GET") (codes "/users")

-- Whole numbers for float64.
abbrev whole : Floats
whole = record {
  F = ℕ;
  truncate = pos;
  small_int = λ n. none;
  format_float = λ n. [];
  parse_float = λ s. none;
  is_zero = λ n. n == 0;
  is_whole = λ n. true;
  sprint = λ v. [];
}

normalize_scalar-Strict_example :
    Strict whole integer (normalize_scalar whole (str (codes "12")) integer)
normalize_scalar-Strict_example = normalize_scalar-Strict whole (str (codes "12")) integer

matches-strict_example : value_matches_type whole (float 3) integer ≡ true
unfolding program
matches-strict_example = matches-strict whole (float 3) integer refl

-- ===== src/Bugindex.antt =====
-- internal/service/bugindex: the records, the queries and the hits of the in-memory bug index.
pub mod Tokenize
pub mod Build
pub mod Search
use zentao_mcp.Base.{ℕ, Bool, List}
use zentao_mcp.Base.Int.{ℤ}
use zentao_mcp.Base.Text.{Text}

-- What the package uses of Go's libraries and the model takes as a parameter: float64 with package
-- math, and the tables of package unicode.
pub record Arithmetic : Type 1 where
  pub F : Type 0
  -- float64(n)
  pub of_nat : ℕ → F
  -- The constant n / d.
  pub ratio : (n d : ℕ) → F
  pub add : F → F → F
  pub sub : F → F → F
  pub mul : F → F → F
  pub div : F → F → F
  -- math.Log
  pub log : F → F
  -- math.Round(x*100) / 100
  pub round2 : F → F
  pub less : F → F → Bool
  pub leq : F → F → Bool
  pub same : F → F → Bool
  -- unicode.ToLower
  pub lower : ℕ → ℕ
  -- Two characters are equal under strings.EqualFold.
  pub same_letter : ℕ → ℕ → Bool
  -- `\p{Han}`
  pub is_han : ℕ → Bool

pub record Doc : Type 0 where
  pub id : ℤ
  pub product : ℤ
  pub product_name : Text
  pub module_id : ℤ
  pub title : Text
  pub body : Text
  pub tags : List Text
  pub severity : ℤ
  pub kind : Text
  pub status : Text
  pub resolution : Text
  pub opened_date : Text
  pub resolved_date : Text

-- `Query`
pub record SearchQuery : Type 0 where
  pub text : Text
  pub product : ℤ
  pub kind : Text
  pub resolution : Text
  pub opened_after : Text
  pub opened_before : Text
  pub fixed_only : Bool
  pub prefer_fixed : Bool
  pub limit : ℤ

pub record Hit (F : Type 0) : Type 0 where
  pub id : ℤ
  pub score : F
  pub matched_keys : List Text

pub record Stats : Type 0 where
  pub documents : ℕ
  pub candidates : ℕ
  pub returned : ℕ
  pub terms : ℕ

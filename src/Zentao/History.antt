-- ===== src/Zentao/History.antt =====
-- internal/service/zentao/history.go: the options, the requests and the records of the lookup of
-- similar bugs.
pub mod Verify
pub mod Corpus
pub mod Lookup
use zentao_mcp.Base.{
  ℕ, ◌*◌, ◌^◌, Bool, true, false, Option, ◌⊎◌, inr, List, [], ◌∷◌, if◌then◌else◌, ltb,
}
use zentao_mcp.Base.Int.{ℤ, pos, is_positive}
use zentao_mcp.Base.Results.{◌>>=◌}
use zentao_mcp.Base.Text.{Text, codes}
use zentao_mcp.Base.Strings.{to_lower}
use zentao_mcp.Json.{Fields}
use zentao_mcp.Zentao.Values.{clamp, arg_string, arg_int}
use zentao_mcp.Zentao.Arguments.{arg_bool}
use zentao_mcp.Zentao.Dates.{InvalidArgument, normalize_day}
use zentao_mcp.Zentao.Runtime.{Runtime}

-- Durations are in nanoseconds.
abbrev pub default_index_refresh : ℕ
default_index_refresh = 6 * 3600 * 10 ^ 9

abbrev pub min_index_refresh : ℕ
min_index_refresh = 15 * 60 * 10 ^ 9

abbrev pub default_index_body_chars : ℕ
default_index_body_chars = 400

abbrev pub default_index_products : ℕ
default_index_products = 400

abbrev pub default_index_per_scope : ℕ
default_index_per_scope = 4000

abbrev pub max_failed_scan_percent : ℕ
max_failed_scan_percent = 20

abbrev pub default_similar_limit : ℕ
default_similar_limit = 8

abbrev pub max_similar_limit : ℕ
max_similar_limit = 25

abbrev pub over_fetch : ℕ
over_fetch = 8

abbrev pub max_verify_candidate : ℕ
max_verify_candidate = 60

abbrev pub steps_clip : ℕ
steps_clip = 420

abbrev pub fix_note_clip : ℕ
fix_note_clip = 420

pub record IndexOptions : Type 0 where
  pub account : Text
  pub password : Text
  pub refresh : ℤ
  pub body_chars : ℤ
  pub max_products : ℤ
  pub max_bugs_per_product : ℤ

unfoldable pub positive_or : ℕ → ℤ → ℤ
positive_or d n = if is_positive n then n else pos d

unfoldable pub at_least : ℕ → ℤ → ℤ
at_least n (pos m) = if ltb m n then pos n else pos m
at_least n (ℤ.negsuc m) = pos n

-- `normalized`
unfoldable pub normalized : IndexOptions → IndexOptions
unfolding positive_or at_least
normalized o = record o {
  refresh = at_least min_index_refresh (positive_or default_index_refresh o.refresh);
  body_chars = positive_or default_index_body_chars o.body_chars;
  max_products = positive_or default_index_products o.max_products;
  max_bugs_per_product = positive_or default_index_per_scope o.max_bugs_per_product;
}

pub record HistoryRequest : Type 0 where
  pub symptom : Text
  pub product : ℤ
  pub kind : Text
  pub resolution : Text
  pub opened_after : Text
  pub opened_before : Text
  pub fixed_only : Bool
  pub limit : ℕ

-- `S` is the float64 of a score.
pub record SimilarBug (S : Type 0) : Type 0 where
  pub id : ℤ
  pub score : S
  pub product : ℤ
  pub product_name : Text
  pub title : Text
  pub kind : Text
  pub status : Text
  pub resolution : Text
  pub severity : ℤ
  pub opened_date : Text
  pub resolved_date : Text
  pub resolved_by : Text
  pub matched_keys : List Text
  pub steps : Text
  pub fix_note : Text
  pub comments : ℕ
  pub reopens : ℕ

module _ (rt : Runtime) where
  open rt use {floats, calendar, lower}

  unfoldable pub history_request :
      Fields floats.F → (opened_after opened_before : Text) → HistoryRequest
  unfolding to_lower
  history_request args opened_after opened_before = record {
    symptom = arg_string floats (codes "symptom" ∷ codes "text" ∷ codes "keyword" ∷ []) args;
    product =
        arg_int floats (codes "productID") (arg_int floats (codes "product") (pos 0) args) args;
    kind = to_lower lower (arg_string floats (codes "type" ∷ []) args);
    resolution = to_lower lower (arg_string floats (codes "resolution" ∷ []) args);
    opened_after = opened_after;
    opened_before = opened_before;
    fixed_only = arg_bool floats (codes "fixedOnly") false args;
    limit =
        clamp (arg_int floats (codes "limit") (pos default_similar_limit) args) 1 max_similar_limit;
  }

  unfoldable pub history_request_from : Fields floats.F → InvalidArgument ⊎ HistoryRequest
  unfolding history_request
  history_request_from args = do
    opened_after ←
        normalize_day floats calendar (codes "openedAfter")
          (arg_string floats (codes "openedAfter" ∷ []) args)
    opened_before ←
        normalize_day floats calendar (codes "openedBefore")
          (arg_string floats (codes "openedBefore" ∷ []) args)
    inr (history_request args opened_after opened_before)

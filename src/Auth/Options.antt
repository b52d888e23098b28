-- ===== src/Auth/Options.antt =====
-- ZentaoAuthOptions of internal/middleware/zentao_token_manager.go. A duration is a number of
-- nanoseconds; a time is one too, counted from the zero time of the program's clock.
use zentao_mcp.Base.{ℕ, ◌*◌}
use zentao_mcp.Base.Int.{ℤ, or_default}

abbrev pub second : ℕ
second = 1000000000

abbrev pub minute : ℕ
minute = 60000000000

abbrev pub hour : ℕ
hour = 3600000000000

abbrev pub login_backoff_base : ℕ
login_backoff_base = 15000000000

abbrev pub login_backoff_max : ℕ
login_backoff_max = 600000000000

-- The options as the configuration gives them.
pub record RawOptions : Type 0 where
  pub failure_limit : ℤ
  pub failure_window : ℤ
  pub token_ttl : ℤ
  pub failure_ttl : ℤ
  pub max_cache_entries : ℤ

-- The options in force.
pub record Options : Type 0 where
  pub failure_limit : ℕ
  pub failure_window : ℕ
  pub token_ttl : ℕ
  pub failure_ttl : ℕ
  pub max_cache_entries : ℕ

unfoldable pub normalized : RawOptions → Options
unfolding or_default
normalized o = record {
  failure_limit = or_default 2 o.failure_limit;
  failure_window = or_default (10 * minute) o.failure_window;
  token_ttl = or_default (24 * hour) o.token_ttl;
  failure_ttl = or_default (30 * minute) o.failure_ttl;
  max_cache_entries = or_default 2048 o.max_cache_entries;
}

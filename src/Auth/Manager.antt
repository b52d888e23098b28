-- ===== src/Auth/Manager.antt =====
-- ZentaoTokenManager of internal/middleware/zentao_token_manager.go.
--
-- `token` holds the mutex twice: from the top of its loop to the login, and from the answer of the
-- login to its return. Each critical section is one function here, `enter` and `finish`, and
-- Manager/World.antt lets those of all goroutines take turns in any order. What the code waits for
-- between the two, the answer of the upstream server, is an argument of `finish`.
pub mod Enter
pub mod Finish
pub mod World
pub mod Sound
pub mod Ready
pub mod Flight
pub mod Budget
pub mod Calls
pub mod Sessions
pub mod Backoff
use zentao_mcp.Base.{
  ℕ, zero, suc, ◌+◌, ◌-◌, ◌*◌, ◌/◌, ◌%◌, ◌^◌, min, max, Bool, true, false, not, ◌&&◌, ◌||◌, Option,
  none, some, List, [], ◌∷◌, ◌++◌, map, ltb, leb, ◌==◌, if◌then◌else◌, is_some, length,
}
use zentao_mcp.Base.Text.{Text, codes, text_eq, has_prefix, trim_space}
use zentao_mcp.Base.Assoc.{Assoc, lookup, insert, delete, drop_where}
use zentao_mcp.Auth.Options.{Options, RawOptions, normalized, login_backoff_base, login_backoff_max}
use zentao_mcp.Auth.Errors.{AuthError, cancelled, auth_throttle_error, is_rejection}

pub record TokenEntry : Type 0 where
  pub token : Text
  pub password_hash : Text
  pub expires_at : ℕ
  pub last_used : ℕ

pub record FailureEntry : Type 0 where
  pub err : AuthError
  pub until : ℕ
  pub count : ℕ
  pub expires_at : ℕ

pub record AccountFailureEntry : Type 0 where
  pub count : ℕ
  pub until : ℕ

-- The channels of `inflight` carry no data: the map is the set of its keys.
pub record TokenManager : Type 0 where
  pub base_url : Text
  pub tokens : Assoc TokenEntry
  pub failures : Assoc FailureEntry
  pub account_failures : Assoc AccountFailureEntry
  pub inflight : Assoc (Unit {0})
  pub opts : Options

unfoldable pub new_token_manager : Text → RawOptions → TokenManager
new_token_manager base_url options = record {
  base_url = base_url;
  tokens = [];
  failures = [];
  account_failures = [];
  inflight = [];
  opts = normalized options;
}

pub record Credentials : Type 0 where
  pub account : Text
  pub password : Text

-- What one call of `token` computes before its loop.
pub record Request : Type 0 where
  pub key : Text
  pub protection_key : Text
  pub fkey : Text
  pub hash : Text
  pub stale : Text

hex_digit : ℕ → ℕ
hex_digit n = if ltb n 10 then b'0' + n else b'a' + n - 10

-- hex.EncodeToString
unfoldable pub hex : List ℕ → Text
unfolding hex_digit
hex [] = []
hex (b ∷ bs) = hex_digit (b / 16) ∷ hex_digit (b % 16) ∷ hex bs

unfoldable pub cache_key : TokenManager → Text → Text
cache_key m account = m.base_url ++ 0 ∷ account

unfoldable pub failure_key : Text → List ℕ → Text
unfolding hex
failure_key key hash = key ++ codes "#" ++ hex hash

-- `lower_rune` is the Unicode table behind `strings.ToLower`, `sha256` the digest as bytes.
module _ (lower_rune : ℕ → ℕ) (sha256 : Text → List ℕ) where
  unfoldable pub request : TokenManager → Credentials → Text → Request
  unfolding cache_key failure_key trim_space
  request m creds stale = record {
    key = cache_key m creds.account;
    protection_key = cache_key m (map lower_rune (trim_space creds.account));
    fkey = failure_key (cache_key m creds.account) (sha256 creds.password);
    hash = sha256 creds.password;
    stale = stale;
  }

unfoldable pub cleanup_locked : ℕ → TokenManager → TokenManager
cleanup_locked now m = record m {
  tokens = drop_where (λ k t. leb t.expires_at now) m.tokens;
  failures = drop_where (λ k f. leb f.expires_at now) m.failures;
  account_failures =
      drop_where (λ k f. not (is_some (lookup k m.inflight)) && leb f.until now) m.account_failures;
}

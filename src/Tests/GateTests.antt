-- ===== src/Tests/GateTests.antt =====
-- internal/middleware/auth_transport.go and zentao_authenticator.go on concrete inputs.
use zentao_mcp.Base.{
  ℕ, ◌+◌, ◌≤◌, ◌≡◌, refl, ◌⊎◌, false, ◌&&◌, Option, none, some, [], if◌then◌else◌, is_some,
}
use zentao_mcp.Base.Text.{Text, codes, text_eq, byte_len, trim_space}
use zentao_mcp.Auth.Errors.{AuthError, empty}
use zentao_mcp.Auth.Manager.{Credentials}
use zentao_mcp.Auth.Manager.Finish.{Outcome, logged_in}
use zentao_mcp.Auth.Context.{Context, Headers, authorize, get_credentials, with_credentials}
use zentao_mcp.Auth.Transport.{
  Request, nil, Credential, Reply, response, round_trip, round_trip_with_managed_token,
  round_trip_with_token, first_attempt, retry, send_again, can_replay, can_clone, is_unauthorized,
}
use zentao_mcp.Auth.Transport.Attempts.{round_trip-sent}
use zentao_mcp.Auth.Authenticator.{
  handled, rejected, serve, admit, check, check_credentials, finish_check, is_incomplete,
  is_oversized, write_auth_error,
}
use zentao_mcp.Auth.Authenticator.Gate.{Passes, serve_verified}

program : Unit {0}
unfolding round_trip round_trip_with_managed_token round_trip_with_token first_attempt retry
    send_again can_replay can_clone is_unauthorized get_credentials text_eq serve admit check
    check_credentials finish_check is_incomplete is_oversized authorize with_credentials byte_len
    trim_space
program = tt

abbrev nobody : Context
nobody = record { authorization = none; from_token_header = none; credentials = none }

abbrev alice : Credentials
alice = record { account = codes "alice"; password = codes "pw" }

abbrev by_alice : Request
by_alice = record { context = record nobody { credentials = some alice }; body = nil }

-- A server that refuses every token, and counts the requests.
abbrev refusing : Credential → ℕ → Reply × ℕ
refusing c n = (
  response (record { status_code = 401; auth_failed = false; retry_after = none; body = empty }),
  n + 1,
)

abbrev any_token : Credentials → Text → ℕ → Outcome × ℕ
any_token c stale n = (logged_in (codes "t"), n)

sends_twice : (round_trip refusing any_token by_alice 0).1 ≡ 2
unfolding program
sends_twice = refl

round_trip-sent_example :
    (round_trip refusing any_token by_alice 0).1
    ≤ 0 + (if can_replay by_alice.body && is_some (get_credentials by_alice.context) then 2 else 1)
round_trip-sent_example =
    round_trip-sent refusing any_token (λ n. n) (λ c n. refl) (λ c t n. refl) by_alice 0

abbrev headers : Headers
headers = record {
  zentao_account = codes " alice ";
  zentao_password = codes "pw";
  token = [];
  authorization = [];
}

abbrev open_limiter : ℕ → Option AuthError × ℕ
open_limiter n = (none, n + 1)

-- A manager that knows one account.
abbrev log_in : Credentials → ℕ → Option AuthError × ℕ
unfolding text_eq
log_in c n = (if text_eq c.account (codes "alice") then none else some AuthError.cancelled, n)

abbrev validate : Text → ℕ → Option AuthError × ℕ
validate token n = (some AuthError.cancelled, n)

lets_alice_in :
    (serve open_limiter log_in validate headers nobody 0).0
    ≡ handled (record nobody { credentials = some alice })
unfolding program
lets_alice_in = refl

serve_verified_example :
    ((e : AuthError) × ((open_limiter 0).0 ≡ some e)
      × (serve open_limiter log_in validate headers nobody 0
          ≡ (rejected (write_auth_error e), (open_limiter 0).1)))
    ⊎ (((open_limiter 0).0 ≡ none)
        × Passes open_limiter log_in validate headers
            (open_limiter 0).1
            (serve open_limiter log_in validate headers nobody 0))
unfolding get_credentials
serve_verified_example = serve_verified open_limiter log_in validate headers nobody 0 refl

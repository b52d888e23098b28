-- ===== src/Auth/Errors.antt =====
-- The errors of internal/middleware. A JSON body that the code writes itself is a constructor with
-- the values put into it, not its text.
use zentao_mcp.Base.{ℕ, ◌+◌, ◌-◌, ◌*◌, ◌/◌, max, Bool, false, ◌||◌, ◌==◌}
use zentao_mcp.Base.Text.{Text}
use zentao_mcp.Auth.Options.{second}

pub data Body : Type 0 where
  empty : Body
  raw : Text → Body
  -- {"error": message, "retryAfterSeconds": seconds}
  throttled : Text → ℕ → Body
  -- {"error": "…", "status": status}: the answer was too long to keep
  omitted : ℕ → Body
  -- {"error": "…"}: the same, of an answer that carries a failure in its fields
  omitted_refusal : Body

-- ZentaoLoginError
pub record LoginError : Type 0 where
  pub status_code : ℕ
  pub body : Body
  pub retry_after : ℕ

-- `error`: `errors.As(err, &loginErr)` is the match on `login`.
pub data AuthError : Type 0 where
  login : LoginError → AuthError
  -- ctx.Err()
  cancelled : AuthError
  -- any other error, with its message
  other : Text → AuthError

-- int((wait+time.Second-1)/time.Second), at least 1. A wait that is negative in the source comes
-- to 1 there, and is 0 here, which comes to 1 too.
unfoldable pub wait_seconds : ℕ → ℕ
wait_seconds wait = max 1 ((wait + second - 1) / second)

unfoldable pub auth_throttle_error : Text → ℕ → AuthError
unfolding wait_seconds
auth_throttle_error message wait = login (record {
  status_code = 429;
  body = throttled message (wait_seconds wait);
  retry_after = wait_seconds wait * second;
})

-- The answers that count against an account: 400, 401 and 403.
unfoldable pub is_rejection : AuthError → Bool
is_rejection (login e) = e.status_code == 400 || e.status_code == 401 || e.status_code == 403
is_rejection cancelled = false
is_rejection (other s) = false

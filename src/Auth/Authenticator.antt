-- ===== src/Auth/Authenticator.antt =====
-- internal/middleware/zentao_authenticator.go: the gate before the MCP protocol handler.
pub mod Gate
use zentao_mcp.Base.{
  ℕ, ◌+◌, ◌-◌, ◌/◌, ◌<◌, max, Bool, true, false, not, ◌&&◌, ◌||◌, Option, none, some, [], ◌∷◌, ltb,
  ◌==◌, if◌then◌else◌,
}
use zentao_mcp.Base.Text.{Text, codes, text_eq, trim_space, byte_len}
use zentao_mcp.Auth.Errors.{AuthError, LoginError, cancelled, other, empty, wait_seconds}
use zentao_mcp.Auth.Manager.{Credentials}
use zentao_mcp.Auth.Login.{Answer, unanswered, answered}
use zentao_mcp.Auth.Context.{
  Context, Headers, authorize, is_set, get_credentials, get_authorization, with_credentials,
  with_authorization_source,
}

-- What `writeZentaoAuthError` sends: the header X-Zentao-Auth-Failed is always "1", and
-- `retry_after` is both the header of that name and the field of the body.
pub record Refusal : Type 0 where
  pub status : ℕ
  pub message : Text
  pub retry_after : Option ℕ

unavailable : Refusal
unavailable = record { status = 502; message = codes "禅道认证服务暂时不可用，请稍后重试"; retry_after = none }

unfoldable pub classify : ℕ → Refusal
unfolding unavailable
classify code =
    if code == 400 || code == 401 || code == 403
    then record { status = 401; message = codes "禅道认证失败，请检查账号、密码或 token"; retry_after = none }
    else if code == 429
    then record { status = 429; message = codes "登录或请求触发保护，请稍后重试"; retry_after = none }
    else unavailable

unfoldable pub write_auth_error : AuthError → Refusal
unfolding wait_seconds unavailable
write_auth_error (AuthError.login e) = record (classify e.status_code) {
  retry_after = if ltb 0 e.retry_after then some (wait_seconds e.retry_after) else none;
}
write_auth_error cancelled = unavailable
write_auth_error (other s) = unavailable

unfoldable pub unauthorized : AuthError
unauthorized = AuthError.login (record { status_code = 401; body = empty; retry_after = 0 })

-- `validateToken`, of the answer to GET /user. `profile` decodes the account in it; `none` is a body
-- that cannot be decoded.
unfoldable pub validate_token : (Text → Option Text) → Answer → Option AuthError
unfolding unauthorized
validate_token profile (unanswered message) = some (other message)
validate_token profile (answered status body) =
    if status == 200
    then elim (profile body) [
      | none ↦ some (other (codes "decode"))
      | some account ↦ if text_eq account [] then some unauthorized else none
    ]
    else some (AuthError.login (record { status_code = status; body = empty; retry_after = 0 }))

-- What becomes of a request: the handler is called with a context, or the request is refused, by
-- `writeZentaoAuthError` or by the bare 401 of AuthorizationHandler.
pub data Served : Type 0 where
  handled : Context → Served
  rejected : Refusal → Served
  bare_unauthorized : Served

abbrev pub differ : Bool → Bool → Bool
differ true b = not b
differ false b = b

-- Neither a pair of account and password nor any token.
unfoldable pub is_incomplete : Headers → Bool
is_incomplete h =
    differ (is_set h.zentao_account) (is_set h.zentao_password)
    || (text_eq h.zentao_account []
        && text_eq h.zentao_password []
        && text_eq h.token []
        && text_eq h.authorization [])

unfoldable pub is_oversized : Credentials → Bool
is_oversized c =
    text_eq c.account [] || ltb 128 (byte_len c.account) || ltb 4096 (byte_len c.password)

-- `S` is the state that the checks change: the limiters, the token manager, the upstream server.
-- `allow` is `a.requests.allow(ip)`, `log_in` is `TokenWithLoginGuard` with the guard of the logins,
-- `validate` is the request of `validateToken`.
module _ {S : Type 0} (allow : S → Option AuthError × S)
    (log_in : Credentials → S → Option AuthError × S)
    (validate : Text → S → Option AuthError × S) where
  unfoldable pub finish_check : Context → Option AuthError × S → Served × S
  finish_check ctx (some e, s) = (rejected (write_auth_error e), s)
  finish_check ctx (none, s) = (handled ctx, s)

  -- The inner handler, for a caller with an account and a password.
  unfoldable pub check_credentials : Context → Credentials → S → Served × S
  check_credentials ctx c s =
      let creds = record c { account = trim_space c.account } in
      if is_oversized creds
      then (rejected (write_auth_error unauthorized), s)
      else finish_check (with_credentials ctx creds.account creds.password) (log_in creds s)

  unfoldable pub check_token : Context → S → Served × S
  check_token ctx s =
      let token = get_authorization ctx in
      if text_eq token [] || ltb 4096 (byte_len token)
      then (rejected (write_auth_error unauthorized), s)
      else finish_check (with_authorization_source ctx true) (validate token s)

  unfoldable pub check : Context → S → Served × S
  check ctx s = elim (get_credentials ctx) [
    | some c ↦ check_credentials ctx c s
    | none ↦ check_token ctx s
  ]

  unfoldable pub admit : Headers → Context → Option AuthError × S → Served × S
  admit h ctx (some e, s) = (rejected (write_auth_error e), s)
  admit h ctx (none, s) =
      if is_incomplete h
      then (rejected (write_auth_error unauthorized), s)
      else elim (authorize h ctx) [ none ↦ (bare_unauthorized, s) | some ctx' ↦ check ctx' s ]

  unfoldable pub serve : Headers → Context → S → Served × S
  serve h ctx s = admit h ctx (allow s)

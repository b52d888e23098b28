-- ===== src/Auth/Transport.antt =====
-- internal/middleware/auth_transport.go: how a request to the upstream server gets its token.
--
-- `S` is the world that the calls change: the upstream server and the token manager. `base` is the
-- wrapped RoundTripper, `token` is ZentaoTokenManager.token (with "" for `Token`, and the rejected
-- token for `Refresh`).
pub mod Attempts
use zentao_mcp.Base.{
  ℕ, ◌/◌, ◌<◌, max, Bool, true, false, not, ◌&&◌, ◌||◌, Option, none, some, [], ◌∷◌, ltb, ◌==◌,
  if◌then◌else◌,
}
use zentao_mcp.Base.Text.{Text, codes, text_eq}
use zentao_mcp.Auth.Options.{second}
use zentao_mcp.Auth.Errors.{
  AuthError, LoginError, cancelled, other, Body, empty, raw, throttled, omitted, omitted_refusal,
}
use zentao_mcp.Auth.Manager.{Credentials}
use zentao_mcp.Auth.Manager.Finish.{Outcome, logged_in, failed}
use zentao_mcp.Auth.Context.{Context, get_credentials, get_authorization, is_from_token_header}

-- `req.Body`: nil, http.NoBody, a body with GetBody (which may fail), and one without.
pub data RequestBody : Type 0 where
  nil : RequestBody
  no_body : RequestBody
  replayable : Option Text → RequestBody
  stream : RequestBody

pub record Request : Type 0 where
  pub context : Context
  pub body : RequestBody

-- The header that an attempt carries.
pub data Credential : Type 0 where
  token_header : Text → Credential
  bearer : Text → Credential
  anonymous : Credential

-- `auth_failed` is the header X-Zentao-Auth-Failed, `retry_after` the one of that name.
pub record Response : Type 0 where
  pub status_code : ℕ
  pub auth_failed : Bool
  pub retry_after : Option ℕ
  pub body : Body

pub data Reply : Type 0 where
  response : Response → Reply
  error : AuthError → Reply

unfoldable pub can_replay : RequestBody → Bool
can_replay nil = true
can_replay no_body = true
can_replay (replayable b) = true
can_replay stream = false

-- Whether `cloneRequestForAttempt` gives a request: it fails only where GetBody does.
unfoldable pub can_clone : RequestBody → Bool
can_clone nil = true
can_clone no_body = true
can_clone (replayable none) = false
can_clone (replayable (some b)) = true
can_clone stream = true

or_unauthorized : Body → Body
or_unauthorized empty = raw (codes "{\"error\":\"Unauthorized\"}")
or_unauthorized (raw s) = if text_eq s [] then raw (codes "{\"error\":\"Unauthorized\"}") else raw s
or_unauthorized (throttled message seconds) = throttled message seconds
or_unauthorized (omitted status) = omitted status
or_unauthorized omitted_refusal = omitted_refusal

unfoldable pub login_error_response : AuthError → Reply
unfolding or_unauthorized
login_error_response (AuthError.login e) = response (record {
  status_code = e.status_code;
  auth_failed = true;
  retry_after = if ltb 0 e.retry_after then some (max 1 (e.retry_after / second)) else none;
  body = or_unauthorized e.body;
})
login_error_response cancelled = error cancelled
login_error_response (other s) = error (other s)

unfoldable pub is_unauthorized : Reply → Bool
is_unauthorized (response r) = r.status_code == 401
is_unauthorized (error e) = false

module _ {S : Type 0} (base : Credential → S → Reply × S)
    (token : Credentials → Text → S → Outcome × S) where
  unfoldable pub round_trip_with_token : Request → Text → Bool → S → Reply × S
  round_trip_with_token req tok from_token_header s =
      if can_clone req.body
      then base (if from_token_header then token_header tok else bearer tok) s
      else (error (other (codes "get body")), s)

  unfoldable pub send_again : Request → Outcome × S → Reply × S
  send_again req (failed e, s) = (login_error_response e, s)
  send_again req (logged_in tok, s) = round_trip_with_token req tok true s

  -- After the first attempt, with the token that it used.
  unfoldable pub retry : Request → Credentials → Text → Reply × S → Reply × S
  retry req creds tok (r, s) =
      if is_unauthorized r && can_replay req.body
      then send_again req (token creds tok s)
      else (r, s)

  unfoldable pub first_attempt : Request → Credentials → Outcome × S → Reply × S
  first_attempt req creds (failed e, s) = (login_error_response e, s)
  first_attempt req creds (logged_in tok, s) =
      retry req creds tok (round_trip_with_token req tok true s)

  unfoldable pub round_trip_with_managed_token : Request → Credentials → S → Reply × S
  round_trip_with_managed_token req creds s = first_attempt req creds (token creds [] s)

  unfoldable pub round_trip : Request → S → Reply × S
  round_trip req s = elim (get_credentials req.context) [
    | some creds ↦ round_trip_with_managed_token req creds s
    | none ↦
        if text_eq (get_authorization req.context) []
        then base anonymous s
        else round_trip_with_token req (get_authorization req.context)
            (is_from_token_header req.context) s
  ]

-- ===== src/Auth/Login.antt =====
-- `login` and `loginAt` of internal/middleware/zentao_token_manager.go: one login at the upstream
-- server, over its two endpoints. `post` is the answer of an endpoint to the request with the
-- credentials; `decode` is `json.Unmarshal` into the fields that the code reads.
use zentao_mcp.Base.{
  ℕ, ◌≤◌, ◌<◌, ◌≡◌, refl, inl, inr, ◌⊎◌, if_cases, Bool-cases, Bool, false, not, ◌&&◌, ◌||◌, Option,
  none, some, List, [], ◌∷◌, map, ltb, leb, ◌==◌, if◌then◌else◌, arith,
}
use zentao_mcp.Base.Text.{Text, codes, text_eq, byte_len}
use zentao_mcp.Auth.Errors.{AuthError, other, cancelled, Body, raw, omitted, omitted_refusal}
use zentao_mcp.Auth.Manager.Finish.{Outcome, logged_in, failed}

-- `unanswered` is any error on the way to a response: of the URL, the request, the transport, or
-- while the body was read. The body is what was read of it.
pub data Answer : Type 0 where
  unanswered : Text → Answer
  answered : (status : ℕ) → (body : Text) → Answer

-- `error` is the raw JSON of that field, empty if it is missing.
pub record LoginData : Type 0 where
  pub status : Text
  pub token : Text
  pub error : Text

-- The server has no such endpoint.
abbrev pub is_missing : Answer → Bool
is_missing (unanswered message) = false
is_missing (answered status body) = status == 404 || status == 405

abbrev pub max_kept_body : ℕ
max_kept_body = 4096

refusal : ℕ → Body → Outcome
refusal status body =
    failed (AuthError.login (record { status_code = status; body = body; retry_after = 0 }))

-- Only an endpoint that the server does not have sends the loop to the next one.
unfoldable pub tries_next : AuthError → Bool
tries_next (AuthError.login e) = e.status_code == 404 || e.status_code == 405
tries_next cancelled = false
tries_next (other s) = false

unfoldable pub or_next : Outcome → Outcome → Outcome
unfolding tries_next
or_next (logged_in t) next = logged_in t
or_next (failed e) next = if tries_next e then next else failed e

abbrev pub body_size : Body → ℕ
body_size (raw s) = byte_len s
body_size b = 0

abbrev pub Careful : Outcome → Type 0
Careful (logged_in t) = text_eq t [] ≡ false
Careful (failed (AuthError.login e)) =
    (body_size e.body ≤ max_kept_body) × ((e.status_code < 200) ⊎ (300 ≤ e.status_code))
Careful (failed cancelled) = Unit {0}
Careful (failed (other s)) = Unit {0}

module _ (lower_rune : ℕ → ℕ) (decode : Text → Option LoginData) where
  -- A 2xx answer whose fields say that the login failed.
  reports_failure : LoginData → Bool
  reports_failure d =
      let status = map lower_rune d.status in
      text_eq status (codes "fail")
      || text_eq status (codes "failed")
      || text_eq status (codes "error")
      || (not (text_eq d.error [])
          && not (text_eq d.error (codes "null"))
          && not (text_eq d.error (codes "\"\""))
          && not (text_eq d.error (codes "false")))

  judge : Text → Option LoginData → Outcome
  unfolding reports_failure refusal
  judge body none = failed (other (codes "parse login response"))
  judge body (some d) =
      if reports_failure d
      then refusal 401 (if ltb max_kept_body (byte_len body) then omitted_refusal else raw body)
      else if text_eq d.token []
      then failed (other (codes "login response missing token"))
      else logged_in d.token

  unfoldable pub login_at : Answer → Outcome
  unfolding judge refusal
  login_at (unanswered message) = failed (other message)
  login_at (answered status body) =
      if ltb status 200 || leb 300 status
      then refusal status (if ltb max_kept_body (byte_len body) then omitted status else raw body)
      else judge body (decode body)

  -- The loop over the endpoints, the first of which is named.
  unfoldable pub login_from : (Text → Answer) → Text → List Text → Outcome
  unfolding login_at or_next
  login_from post endpoint [] = login_at (post endpoint)
  login_from post endpoint (next ∷ rest) =
      let others = login_from post next rest in or_next (login_at (post endpoint)) others

  unfoldable pub login : (Text → Answer) → Outcome
  unfolding login_from
  login post = login_from post (codes "tokens") (codes "users/login" ∷ [])

  refusal-Careful :
      (status : ℕ) (b : Body)
      → body_size b ≤ max_kept_body
      → (status < 200) ⊎ (300 ≤ status)
      → Careful (refusal status b)
  unfolding refusal
  refusal-Careful status b s h = (s, h)

  kept_size :
      (body : Text) (b : Body)
      → body_size b ≡ 0
      → body_size (if ltb max_kept_body (byte_len body) then b else raw body) ≤ max_kept_body
  kept_size body b z =
      if_cases (λ x. body_size x ≤ max_kept_body) (ltb max_kept_body (byte_len body))
        (λ _. omega arith) (λ h. ground arith)

  judge-Careful : (body : Text) (d : Option LoginData) → Careful (judge body d)
  unfolding judge
  judge-Careful body none = tt
  judge-Careful body (some d) =
      if_cases Careful (reports_failure d)
        (λ _. refusal-Careful 401 _ (kept_size body omitted_refusal refl) (omega arith))
        (λ _. if_cases Careful (text_eq d.token []) (λ _. tt) (λ h. h))

  login_at-Careful : (a : Answer) → Careful (login_at a)
  unfolding login_at
  login_at-Careful (unanswered m) = tt
  login_at-Careful (answered status body) =
      if_cases Careful (ltb status 200 || leb 300 status)
        (λ h. refusal-Careful status _ (kept_size body (omitted status) refl) (ground arith))
        (λ _. judge-Careful body (decode body))

  or_next-Careful : (o next : Outcome) → Careful o → Careful next → Careful (or_next o next)
  unfolding or_next
  or_next-Careful (logged_in t) next h n = h
  or_next-Careful (failed e) next h n = if_cases Careful (tries_next e) (λ _. n) (λ _. h)

  login_from-Careful :
      (post : Text → Answer) (endpoint : Text) (rest : List Text)
      → Careful (login_from post endpoint rest)
  unfolding login_from
  login_from-Careful post endpoint [] = login_at-Careful (post endpoint)
  login_from-Careful post endpoint (next ∷ rest) =
      or_next-Careful (login_at (post endpoint)) _ (login_at-Careful (post endpoint))
        (login_from-Careful post next rest)

  -- A login hands out a token only if it is not empty; a login error that it reports, and that the
  -- manager then keeps, holds at most 4096 bytes of the answer and never a success status.
  pub login-Careful : (post : Text → Answer) → Careful (login post)
  unfolding login
  login-Careful post = login_from-Careful post (codes "tokens") (codes "users/login" ∷ [])

  or_next-judge :
      (body : Text) (d : Option LoginData) (n : Outcome) → or_next (judge body d) n ≡ judge body d
  unfolding or_next judge tries_next refusal
  or_next-judge body none n = refl
  or_next-judge body (some d) n = ground arith

  or_next-login_at :
      (a : Answer) (n : Outcome) → or_next (login_at a) n ≡ (if is_missing a then n else login_at a)
  unfolding or_next login_at tries_next refusal
  or_next-login_at (unanswered m) n = refl
  or_next-login_at (answered status body) n = elim (Bool-cases (ltb status 200 || leb 300 status)) [
    | inl h ↦ rw h (ground arith)
    | inr h ↦ rw h (ground (arith, or_next-judge body (decode body) n))
  ]

  -- The answer of the second endpoint counts if the first one is not there, by 404 or 405, and in
  -- no other case: a rejection, a network failure and an answer that cannot be read cause no second
  -- request.
  pub login_second :
      (post : Text → Answer)
      → login post ≡ (
          if is_missing (post (codes "tokens"))
          then login_at (post (codes "users/login"))
          else login_at (post (codes "tokens")))
  unfolding login login_from
  login_second post =
      or_next-login_at (post (codes "tokens")) (login_at (post (codes "users/login")))

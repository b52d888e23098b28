-- ===== src/Auth/Authenticator/Gate.antt =====
-- What passes the gate, and how the rest is turned away.
use zentao_mcp.Base.{
  ℕ, ◌≤◌, ◌≡◌, refl, ◌⊎◌, inl, inr, Bool, true, false, ◌||◌, Option, none, some, [], ltb, if_cases,
  Bool-cases, arith, ◌++◌, ◌∷◌, ◌==◌,
}
use zentao_mcp.Base.Text.{Text, codes, text_eq, has_prefix, trim_space, byte_len}
use zentao_mcp.Auth.Errors.{AuthError, cancelled, other, wait_seconds}
use zentao_mcp.Auth.Manager.{Credentials}
use zentao_mcp.Auth.Context.{
  Context, Headers, authorize, cut_prefix, with_authorization, get_credentials, get_authorization,
  with_credentials, with_authorization_source,
}
use zentao_mcp.Auth.Authenticator.{
  Refusal, classify, write_auth_error, unauthorized, Served, handled, rejected, bare_unauthorized,
  is_incomplete, is_oversized, finish_check, check_credentials, check_token, check, admit, serve,
}

-- A refusal is a 401, a 429 or a 502, whatever the upstream server answered, and never asks for a
-- retry in less than a second.
abbrev pub is_patient : Option ℕ → Bool
is_patient none = true
is_patient (some seconds) = ltb 0 seconds

abbrev pub IsTame : Refusal → Type 0
IsTame r =
    ((r.status ≡ 401) ⊎ (r.status ≡ 429) ⊎ (r.status ≡ 502)) × (is_patient r.retry_after ≡ true)

classify_status :
    (code : ℕ)
    → ((classify code).status ≡ 401)
      ⊎ ((classify code).status ≡ 429)
      ⊎ ((classify code).status ≡ 502)
unfolding classify
classify_status code = ground arith

pub write_auth_error-IsTame : (e : AuthError) → IsTame (write_auth_error e)
unfolding write_auth_error wait_seconds
write_auth_error-IsTame (AuthError.login e) = (classify_status e.status_code, ground arith)
write_auth_error-IsTame cancelled = (inr (inr refl), refl)
write_auth_error-IsTame (other s) = (inr (inr refl), refl)

-- The token of a header, without a prefix "Bearer ".
abbrev pub Bears : (header token : Text) → Type 0
Bears header token =
    (header ≡ codes "Bearer " ++ token)
    ⊎ ((token ≡ header) × (has_prefix header (codes "Bearer ") ≡ false))

cut_prefix_lem :
    (whole s p : Text)
    → (s ≡ p ++ cut_prefix whole s p) ⊎ ((cut_prefix whole s p ≡ whole) × (has_prefix s p ≡ false))
unfolding cut_prefix has_prefix
cut_prefix_lem whole s [] = inl refl
cut_prefix_lem whole [] (d ∷ p) = inr (refl, refl)
cut_prefix_lem whole (c ∷ s) (d ∷ p) = elim (Bool-cases (c == d)) [
  | inr differs ↦ inr (ground (arith, differs), ground (arith, differs))
  | inl same ↦ elim (cut_prefix_lem whole s p) [
    | inl cut ↦ inl (ground (arith, same, cut))
    | inr (kept, differs) ↦ inr (ground (arith, same, kept), ground (arith, same, differs))
  ]
]

cut_prefix-Bears : (header : Text) → Bears header (cut_prefix header header (codes "Bearer "))
cut_prefix-Bears header = cut_prefix_lem header header (codes "Bearer ")

-- The headers that AuthorizationHandler takes, of those that name a caller.
data Chosen (h : Headers) (ctx : Context) : Type 0 where
  password :
      text_eq h.zentao_account [] ≡ false
      → text_eq h.zentao_password [] ≡ false
      → authorize h ctx ≡ some (with_credentials ctx h.zentao_account h.zentao_password)
      → Chosen h ctx
  token :
      text_eq h.zentao_account [] ≡ true
      → text_eq h.zentao_password [] ≡ true
      → text_eq h.token [] ≡ false
      → authorize h ctx ≡ some (with_authorization_source (with_authorization ctx h.token) true)
      → Chosen h ctx
  authorization :
      text_eq h.zentao_account [] ≡ true
      → text_eq h.zentao_password [] ≡ true
      → text_eq h.token [] ≡ true
      → authorize h ctx
        ≡ some (with_authorization_source (with_authorization ctx h.authorization) false)
      → Chosen h ctx

authorize-Chosen : (h : Headers) (ctx : Context) → is_incomplete h ≡ false → Chosen h ctx
unfolding authorize is_incomplete
authorize-Chosen h ctx whole = elim (Bool-cases (text_eq h.zentao_account [])) [
  | inr a ↦
      let p : text_eq h.zentao_password [] ≡ false = ground (arith, a, whole) in
      password a p (ground (arith, a, p))
  | inl a ↦
      let p : text_eq h.zentao_password [] ≡ true = ground (arith, a, whole) in
      elim (Bool-cases (text_eq h.token [])) [
        | inr t ↦ token a p t (ground (arith, a, p, t))
        | inl t ↦ authorization a p t (ground (arith, a, p, t, whole))
      ]
]

-- The credentials that the two headers of a request state.
abbrev pub stated : Headers → Credentials
stated h = record { account = trim_space h.zentao_account; password = h.zentao_password }

module _ {S : Type 0} (allow : S → Option AuthError × S)
    (log_in : Credentials → S → Option AuthError × S) (validate : Text → S → Option AuthError × S)
    (h : Headers) where
  -- The account and the password of the headers were checked in the state `s`, and the check ended
  -- in `s'`.
  abbrev pub ByPassword : S → Context → S → Type 0
  ByPassword s ctx s' =
      (text_eq h.zentao_account [] ≡ false)
      × (text_eq h.zentao_password [] ≡ false)
      × (log_in (stated h) s ≡ (none, s'))
      × (ctx.credentials ≡ some (stated h))
      × (is_oversized (stated h) ≡ false)

  -- The token of the headers was checked: that of `Token`, or without one that of `Authorization`.
  abbrev pub ByToken : S → Context → S → Type 0
  ByToken s ctx s' =
      (text_eq h.zentao_account [] ≡ true)
      × (text_eq h.zentao_password [] ≡ true)
      × ((token : Text) × (((text_eq h.token [] ≡ false) × Bears h.token token)
            ⊎ ((text_eq h.token [] ≡ true) × Bears h.authorization token))
          × (validate token s ≡ (none, s'))
          × (ctx.authorization ≡ some token)
          × (text_eq token [] ≡ false)
          × (byte_len token ≤ 4096)
          × (ctx.from_token_header ≡ some true))

  abbrev pub Passes : S → Served × S → Type 0
  Passes s (handled ctx, s') = ByPassword s ctx s' ⊎ ByToken s ctx s'
  Passes s (rejected r, s') = IsTame r
  Passes s (bare_unauthorized, s') = ⊥

  finish_check-Passes :
      (s : S) (ctx : Context) (p : Option AuthError × S)
      → (p.0 ≡ none → ByPassword s ctx p.1 ⊎ ByToken s ctx p.1)
      → Passes s (finish_check allow log_in validate ctx p)
  unfolding finish_check
  finish_check-Passes s ctx (some e, s') v = write_auth_error-IsTame e
  finish_check-Passes s ctx (none, s') v = v refl

  none_pair : (p : Option AuthError × S) → p.0 ≡ none → p ≡ (none, p.1)
  none_pair (some e, s) q = cc
  none_pair (none, s) q = refl

  password-Passes :
      (s : S) (ctx : Context)
      → text_eq h.zentao_account [] ≡ false
      → text_eq h.zentao_password [] ≡ false
      → Passes s
          (check allow log_in validate (with_credentials ctx h.zentao_account h.zentao_password) s)
  unfolding check check_credentials with_credentials get_credentials
  password-Passes s ctx a p =
      rw (a, p, check)
        (if_cases {A = Served × S} (Passes s) (is_oversized (stated h))
          (λ _. write_auth_error-IsTame unauthorized)
          (λ fits.
            finish_check-Passes s _ (log_in (stated h) s)
              (λ q. inl (a, p, none_pair (log_in (stated h) s) q, refl, fits))))

  token-Passes :
      (s : S) (ctx : Context) (header : Text) (b : Bool)
      → get_credentials ctx ≡ none
      → text_eq h.zentao_account [] ≡ true
      → text_eq h.zentao_password [] ≡ true
      → ((token : Text)
          → Bears header token
          → ((text_eq h.token [] ≡ false) × Bears h.token token)
            ⊎ ((text_eq h.token [] ≡ true) × Bears h.authorization token))
      → Passes s (
          check allow log_in validate
            (with_authorization_source (with_authorization ctx header) b)
            s)
  unfolding check check_token with_authorization with_authorization_source get_authorization
      get_credentials
  token-Passes s ctx header b new a p chosen =
      let token : Text = cut_prefix header header (codes "Bearer ") in
      rw (new, check)
        (if_cases {A = Served × S} (Passes s) (text_eq token [] || ltb 4096 (byte_len token))
          (λ _. write_auth_error-IsTame unauthorized)
          (λ fits. finish_check-Passes s _ (validate token s) (λ q. inr (
            a,
            p,
            (
              token,
              chosen token (cut_prefix-Bears header),
              none_pair (validate token s) q,
              refl,
              ground arith,
              ground arith,
              refl,
            ),
          ))))

  -- Without the two headers, or with one of them, the rest of AuthorizationHandler.
  admit-Passes :
      (ctx : Context) (s : S)
      → get_credentials ctx ≡ none
      → Passes s (admit allow log_in validate h ctx (none, s))
  unfolding admit
  admit-Passes ctx s new =
      if_cases {A = Served × S} (Passes s) (is_incomplete h)
        (λ _. write_auth_error-IsTame unauthorized)
        (λ whole. elim (authorize-Chosen h ctx whole) [
          | password a p e ↦ rw e (password-Passes s ctx a p)
          | token a p t e ↦ rw e (token-Passes s ctx h.token true new a p (λ x b. inl (t, b)))
          | authorization a p t e ↦
              rw e (token-Passes s ctx h.authorization false new a p (λ x b. inr (t, b)))
        ])

  -- The handler behind the gate is called only after the limiter of requests let the address
  -- through, on a request that names no caller yet. If the two headers of account and password are
  -- set, it is called only after the token manager accepted just them, with the account trimmed, and
  -- its context carries them. Otherwise neither is set, and it is called only after the upstream
  -- server accepted the token of the header Token, or without one that of Authorization, without a
  -- prefix "Bearer ", and its context carries this token. Every other request is refused by
  -- `writeZentaoAuthError`, so with the header that marks a failed login, by a 401, a 429 or a 502.
  pub serve_verified :
      (ctx : Context) (s : S)
      → get_credentials ctx ≡ none
      → ((e : AuthError) × ((allow s).0 ≡ some e)
          × (serve allow log_in validate h ctx s ≡ (rejected (write_auth_error e), (allow s).1)))
        ⊎ (((allow s).0 ≡ none) × Passes (allow s).1 (serve allow log_in validate h ctx s))
  unfolding serve admit
  serve_verified ctx s new = go (allow s)
    where
      go :
          (p : Option AuthError × S)
          → ((e : AuthError) × (p.0 ≡ some e)
              × (admit allow log_in validate h ctx p ≡ (rejected (write_auth_error e), p.1)))
            ⊎ ((p.0 ≡ none) × Passes p.1 (admit allow log_in validate h ctx p))
      go (some e, t) = inl (e, refl, refl)
      go (none, t) = inr (refl, admit-Passes ctx t new)

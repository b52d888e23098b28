-- ===== src/Auth/Transport/Attempts.antt =====
-- How often a request goes out to the upstream server.
use zentao_mcp.Base.{
  ℕ, ◌+◌, ◌≤◌, ◌≡◌, inl, inr, Bool, true, false, ◌&&◌, [], if◌then◌else◌, if_cases, is_some,
  Bool-cases, Option-cases, arith,
}
use zentao_mcp.Base.Text.{Text, text_eq}
use zentao_mcp.Auth.Manager.{Credentials}
use zentao_mcp.Auth.Manager.Finish.{Outcome, logged_in, failed}
use zentao_mcp.Auth.Context.{get_credentials, get_authorization, is_from_token_header}
use zentao_mcp.Auth.Transport.{
  Request, Credential, anonymous, Reply, can_replay, can_clone, is_unauthorized,
  round_trip_with_token, send_again, retry, first_attempt, round_trip_with_managed_token,
  round_trip,
}

-- `sent` counts the requests of a world; a lookup of a token sends none of them.
module _ {S : Type 0} (base : Credential → S → Reply × S)
    (token : Credentials → Text → S → Outcome × S) (sent : S → ℕ)
    (one_more : (c : Credential) (s : S) → sent (base c s).1 ≡ sent s + 1)
    (no_more : (c : Credentials) (t : Text) (s : S) → sent (token c t s).1 ≡ sent s) where
  with_token-sent :
      (req : Request) (tok : Text) (from : Bool) (s : S)
      → sent (round_trip_with_token base token req tok from s).1 ≤ sent s + 1
  unfolding round_trip_with_token
  with_token-sent req tok from s =
      if_cases {A = Reply × S} (λ p. sent p.1 ≤ sent s + 1) (can_clone req.body)
        (λ _. omega (arith, one_more _ s)) (λ _. omega arith)

  send_again-sent :
      (req : Request) (p : Outcome × S) → sent (send_again base token req p).1 ≤ sent p.1 + 1
  unfolding send_again
  send_again-sent req (failed e, s) = omega arith
  send_again-sent req (logged_in tok, s) = with_token-sent req tok true s

  retry-sent :
      (req : Request) (creds : Credentials) (tok : Text) (p : Reply × S)
      → sent (retry base token req creds tok p).1
        ≤ sent p.1 + (if is_unauthorized p.0 && can_replay req.body then 1 else 0)
  unfolding retry
  retry-sent req creds tok (r, s) = elim (Bool-cases (is_unauthorized r && can_replay req.body)) [
    | inl e ↦ rw e (omega (arith, send_again-sent req (token creds tok s), no_more creds tok s))
    | inr e ↦ rw e (omega arith)
  ]

  first_attempt-sent :
      (req : Request) (creds : Credentials) (p : Outcome × S)
      → sent (first_attempt base token req creds p).1
        ≤ sent p.1 + (if can_replay req.body then 2 else 1)
  unfolding first_attempt
  first_attempt-sent req creds (failed e, s) = ground arith
  first_attempt-sent req creds (logged_in tok, s) = ground (
    arith,
    retry-sent req creds tok (round_trip_with_token base token req tok true s),
    with_token-sent req tok true s,
  )

  -- A request goes out at most twice, and at most once if it cannot be replayed or carries no
  -- account and password.
  pub round_trip-sent :
      (req : Request) (s : S)
      → sent (round_trip base token req s).1
        ≤ sent s + (if can_replay req.body && is_some (get_credentials req.context) then 2 else 1)
  unfolding round_trip round_trip_with_managed_token
  round_trip-sent req s = elim (Option-cases (get_credentials req.context)) [
    | inr (creds, e) ↦
        rw (e, round_trip)
          (ground (arith, first_attempt-sent req creds (token creds [] s), no_more creds [] s))
    | inl e ↦
        rw (e, round_trip)
          (if_cases {A = Reply × S}
            (λ p. sent p.1 ≤ sent s + (if can_replay req.body && false then 2 else 1))
            (text_eq (get_authorization req.context) []) (λ _. ground (arith, one_more anonymous s))
            (λ _. ground (
              arith,
              with_token-sent req (get_authorization req.context) (is_from_token_header req.context)
                  s,
            )))
  ]

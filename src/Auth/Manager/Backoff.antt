-- ===== src/Auth/Manager/Backoff.antt =====
-- How long the manager holds off after failed logins.
use zentao_mcp.Base.{
  ℕ, zero, suc, ◌+◌, ◌-◌, ◌*◌, ◌⊎◌, inl, inr, none, List, All, is_some, Option-cases, ◌≤◌, ◌<◌, ◌≡◌,
  refl, min, Bool, true, false, Option, some, arith, if_cases, ◌≢◌, ◌∙◌,
}
use zentao_mcp.Base.Text.{Text, text_eq_refl}
use zentao_mcp.Auth.Manager.World.{World, Event, run}
use zentao_mcp.Auth.Manager.Calls.{Before, run-HasFailure}
use zentao_mcp.Base.Assoc.{lookup, lookup-insert, lookup-drop_where}
use zentao_mcp.Auth.Options.{login_backoff_max, second}
use zentao_mcp.Auth.Errors.{AuthError, is_rejection}
use zentao_mcp.Auth.Manager.{TokenManager, Request, FailureEntry, cleanup_locked}
use zentao_mcp.Auth.Manager.Enter.{login, enter, miss, backed_off}
use zentao_mcp.Auth.Manager.Finish.{
  backoff_wait, failure_count, failure_entry, failed, settle, settle_failure, count_rejection,
  drop_unused, record_failure, drop_token, finish,
}

backoff_wait_six : (n : ℕ) → 6 ≤ n → backoff_wait n ≡ login_backoff_max
unfolding backoff_wait
backoff_wait_six n h = let e : min n 6 ≡ 6 = omega arith in rw e

backoff_wait-suc_lem : (n : ℕ) → backoff_wait (suc n) ≡ min (2 * backoff_wait n) login_backoff_max
backoff_wait-suc_lem zero = unfold backoff_wait in refl
backoff_wait-suc_lem (suc zero) = unfold backoff_wait in refl
backoff_wait-suc_lem (suc (suc zero)) = unfold backoff_wait in refl
backoff_wait-suc_lem (suc (suc (suc zero))) = unfold backoff_wait in refl
backoff_wait-suc_lem (suc (suc (suc (suc zero)))) = unfold backoff_wait in refl
backoff_wait-suc_lem (suc (suc (suc (suc (suc zero))))) = unfold backoff_wait in refl
backoff_wait-suc_lem (suc (suc (suc (suc (suc (suc n)))))) =
    backoff_wait_six _ (omega arith)
    ∙ (let e : backoff_wait (suc (suc (suc (suc (suc (suc n)))))) ≡ login_backoff_max =
          backoff_wait_six _ (omega arith) in
        omega arith)

lookup-finish_failed :
    (m : TokenManager) (r : Request) (err : AuthError) (now : ℕ)
    → (f : FailureEntry) × (lookup r.fkey (finish r (failed err) true now m).failures ≡ some f)
      × (f.until ≡ now + backoff_wait (failure_count r.fkey m))
      × (f.count ≡ failure_count r.fkey m + 1)
      × (f.until ≤ f.expires_at)
unfolding finish settle settle_failure count_rejection drop_unused record_failure drop_token
    failure_entry failure_count
lookup-finish_failed m r err now = (
  failure_entry r.fkey err now (drop_token r m),
  if_cases {A = TokenManager}
      (λ x. lookup r.fkey x.failures ≡ some (failure_entry r.fkey err now (drop_token r m)))
      (is_rejection err) (λ _. stored) (λ _. stored),
  refl,
  refl,
  omega arith,
)
  where
    stored :
        lookup r.fkey (record_failure r.fkey err now (drop_token r m)).failures
        ≡ some (failure_entry r.fkey err now (drop_token r m))
    stored = rw lookup-insert (rw (text_eq_refl r.fkey))

-- A failed login that its caller was still waiting for holds off its account and password: until
-- its wait is over and as long as no other login has ended, whatever calls and cleanings come in
-- between, a call for them starts no login and asks no guard.
pub enter-finish_failed :
    {G : Type 0} (m : TokenManager) (r : Request) (err : AuthError) (alive : Bool) (now later : ℕ)
    (pending : List Request) (events : List Event) (guard : Option (G → Option AuthError × G))
    (g : G)
    → All (Before (now + backoff_wait (failure_count r.fkey m))) events
    → later < now + backoff_wait (failure_count r.fkey m)
    → let w : World = record { manager = finish r (failed err) true now m; pending = pending } in
      let out = enter (run w events).manager r alive later guard g in (out.0 ≢ login) × (out.2 ≡ g)
unfolding enter miss backed_off cleanup_locked
enter-finish_failed m r err false now later pending events guard g b h = (λ e. cc, refl)
enter-finish_failed m r err true now later pending events guard g b h =
    let w : World = record { manager = finish r (failed err) true now m; pending = pending } in
    let m' = (run w events).manager in
    let (f, found, until, count, kept) = lookup-finish_failed m r err now in
    let there : lookup r.fkey m'.failures ≡ some f =
      run-HasFailure r.fkey f _ w events (omega (arith, until, kept)) b found in
    let held : lookup r.fkey (cleanup_locked later m').failures ≡ some f =
      lookup-drop_where _ r.fkey m'.failures there (ground arith) in
    ground arith

failure_count-lookup :
    (k : Text) (m : TokenManager) (f : FailureEntry)
    → lookup k m.failures ≡ some f
    → failure_count k m ≡ f.count
unfolding failure_count
failure_count-lookup k m f h = ground arith

backoff_wait-le : (n : ℕ) → backoff_wait n ≤ login_backoff_max
unfolding backoff_wait
backoff_wait-le n = ground arith

first_wait :
    (k : Text) (m : TokenManager)
    → lookup k m.failures ≡ none
    → (now : ℕ) → now + backoff_wait (failure_count k m) ≡ now + 15 * second
unfolding failure_count backoff_wait
first_wait k m h now = rw (h, failure_count) refl

-- The time to hold off after a failed login that its caller was still waiting for begins at 15
-- seconds, if no failure is on record, and never exceeds ten minutes. If another such login for the
-- same account and password fails before the record runs out, whatever calls and cleanings came in
-- between and if no other login ended, it is doubled, to ten minutes at most.
pub finish_failed-doubles :
    (m : TokenManager) (r s : Request) (e1 e2 : AuthError) (now later : ℕ) (f1 : FailureEntry)
    (pending : List Request) (events : List Event)
    → s.fkey ≡ r.fkey
    → lookup r.fkey (finish r (failed e1) true now m).failures ≡ some f1
    → All (Before f1.expires_at) events
    → let w : World = record { manager = finish r (failed e1) true now m; pending = pending } in
      let m2 = finish s (failed e2) true later (run w events).manager in
      ((is_some (lookup r.fkey m.failures) ≡ true) ⊎ (f1.until ≡ now + 15 * second))
      × (f1.until ≤ now + login_backoff_max)
      × ((f2 : FailureEntry) × (lookup s.fkey m2.failures ≡ some f2)
          × (f2.until ≡ later + min (2 * (f1.until - now)) login_backoff_max))
finish_failed-doubles m r s e1 e2 now later f1 pending events k h b =
    let w : World = record { manager = finish r (failed e1) true now m; pending = pending } in
    let m' = (run w events).manager in
    let (f, found, until, count, kept) = lookup-finish_failed m r e1 now in
    let q : f ≡ f1 = ground (arith, found, h) in
    let until1 : f1.until ≡ now + backoff_wait (failure_count r.fkey m) =
      ground (arith, q, until) in
    let count1 : f1.count ≡ failure_count r.fkey m + 1 = ground (arith, q, count) in
    let there : lookup r.fkey m'.failures ≡ some f1 =
      run-HasFailure r.fkey f1 f1.expires_at w events (omega arith) b h in
    let (f2, found2, until2, count2, kept2) = lookup-finish_failed m' s e2 later in
    let again : failure_count s.fkey m' ≡ suc (failure_count r.fkey m) =
      rw k (failure_count-lookup r.fkey m' f1 there ∙ count1 ∙ omega arith) in
    let wait : backoff_wait (failure_count s.fkey m')
        ≡ min (2 * backoff_wait (failure_count r.fkey m)) login_backoff_max =
      rw again (backoff_wait-suc_lem (failure_count r.fkey m)) in
    (
      elim (Option-cases (lookup r.fkey m.failures)) [
        | inl none_yet ↦ inr (rw until1 (first_wait r.fkey m none_yet now))
        | inr (f0, known) ↦ inl (rw known refl)
      ],
      omega (arith, until1, backoff_wait-le (failure_count r.fkey m)),
      (f2, found2, omega (arith, until1, until2, wait)),
    )

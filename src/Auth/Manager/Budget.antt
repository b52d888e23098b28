-- ===== src/Auth/Manager/Budget.antt =====
-- The upstream server locks an account after a few rejected logins. This is what the manager
-- promises about them: within one failure window an account is never rejected more often than the
-- limit allows, unless it logs in between.
use zentao_mcp.Base.{
  ℕ, ◌+◌, ◌≤◌, ◌<◌, ◌≡◌, refl, inl, inr, Bool, true, false, not, ◌&&◌, ◌||◌, Option, none, some,
  List, [], ◌∷◌, leb, ◌==◌, is_some, arith, get_elem?, All, if◌then◌else◌, Bool-cases, Option-cases,
}
use zentao_mcp.Base.Text.{Text, text_eq, text_eq_iff}
use zentao_mcp.Base.Assoc.{lookup, lookup-insert, lookup-delete, lookup-drop_where, Values-lookup}
use zentao_mcp.Auth.Errors.{is_rejection}
use zentao_mcp.Auth.Options.{Options}
use zentao_mcp.Auth.Manager.{TokenManager, Request, AccountFailureEntry, cleanup_locked}
use zentao_mcp.Auth.Manager.Enter.{
  Verdict, Way, by_hit, by_refusal, by_wait, by_login, touch, reserve, protect, is_protected, enter,
  enter-Way,
}
use zentao_mcp.Auth.Manager.Finish.{
  Outcome, logged_in, failed, settle, settle_success, settle_failure, count_rejection, live_count,
  drop_unused, without_unused, clear_failures, make_token_room_locked, store_token, record_failure,
  drop_token, finish,
}
use zentao_mcp.Auth.Manager.World.{World, Event, call, reply, clean, answering, enrol, step}
use zentao_mcp.Auth.Manager.Ready.{settle-opts, lookup-settle_ne}
use zentao_mcp.Auth.Manager.Flight.{Inv, step-Inv}

abbrev pub time_of : Event → ℕ
time_of (call r alive now guard) = now
time_of (reply i o alive now) = now
time_of (clean now) = now

-- How an answer changes the number of rejections in a row.
abbrev pub tally_outcome : Outcome → ℕ → ℕ
tally_outcome (logged_in t) n = 0
tally_outcome (failed e) n = if is_rejection e then n + 1 else n

abbrev pub tally_reply : Text → Option Request → Outcome → ℕ → ℕ
tally_reply k none o n = n
tally_reply k (some r) o n = if text_eq r.protection_key k then tally_outcome o n else n

abbrev pub tally : Text → World → Event → ℕ → ℕ
tally k w (call r alive now guard) n = n
tally k w (reply i o alive now) n = tally_reply k (get_elem? w.pending i) o n
tally k w (clean now) n = n

-- The upstream rejections of the account in a run, counted anew after each login that succeeds.
unfoldable pub rejections : Text → World → List Event → ℕ → ℕ
rejections k w [] n = n
rejections k w (e ∷ es) n = rejections k (step w e) es (tally k w e n)

-- The entry accounts for `n` rejections, and holds until `t`.
abbrev holds : ℕ → ℕ → Option AccountFailureEntry → Bool
holds n t none = n == 0
holds n t (some f) = n == 0 || leb n f.count && leb t f.until

holds_zero : (n t : ℕ) (o : Option AccountFailureEntry) → (n == 0) ≡ true → holds n t o ≡ true
holds_zero n t none h = h
holds_zero n t (some f) h = rw h

module _ (k : Text) where
  holds-cleanup :
      (n t now : ℕ) (m : TokenManager)
      → now < t
      → holds n t (lookup k m.account_failures) ≡ true
      → holds n t (lookup k (cleanup_locked now m).account_failures) ≡ true
  unfolding cleanup_locked
  holds-cleanup n t now m lt h = elim (Bool-cases (n == 0)) [
    | inl z ↦ holds_zero n t _ z
    | inr p ↦ elim (Option-cases (lookup k m.account_failures)) [
      | inl e ↦ absurd (ground arith)
      | inr (f, e) ↦ ground (
        arith,
        lookup-drop_where (λ j a. not (is_some (lookup j m.inflight)) && leb a.until now) k
            m.account_failures {v = f},
      )
    ]
  ]

  holds-reserve :
      (n t now : ℕ) (m : TokenManager) (r : Request)
      → holds n t (lookup k m.account_failures) ≡ true
      → holds n t (lookup k (reserve m r now).account_failures) ≡ true
  unfolding reserve protect is_protected
  holds-reserve n t now m r h = ground (
    arith,
    text_eq_iff r.protection_key k,
    lookup-insert r.protection_key k (record { count = 0; until = now + m.opts.failure_window })
        m.account_failures,
  )

  holds-settle :
      (n from now : ℕ) (m : TokenManager) (r : Request) (o : Outcome) (alive : Bool)
      → from ≤ now
      → now < from + m.opts.failure_window
      → text_eq r.protection_key k ≡ true
      → holds n (from + m.opts.failure_window) (lookup k m.account_failures) ≡ true
      → holds
          (tally_outcome o n)
          (from + m.opts.failure_window)
          (lookup k (settle r o alive now m).account_failures)
        ≡ true
  unfolding settle settle_success settle_failure count_rejection drop_unused without_unused
      clear_failures make_token_room_locked store_token record_failure drop_token live_count
  holds-settle n from now m r (logged_in t) alive le lt e h =
      holds_zero 0 (from + m.opts.failure_window)
        (lookup k (settle r (logged_in t) alive now m).account_failures) refl
  holds-settle n from now m r (failed err) alive le lt e h = ground (
    arith,
    text_eq_iff r.protection_key k,
    lookup-delete r.protection_key k m.account_failures,
    lookup-insert r.protection_key k
        (record {
          count = live_count r.protection_key now m + 1;
          until = now + m.opts.failure_window;
        })
        m.account_failures,
  )

-- No critical section changes the options.
Way-opts :
    (w : World) (r : Request) (now : ℕ) {u : Verdict} {m : TokenManager}
    → Way w.manager r now u m
    → (enrol w r u m).manager.opts ≡ w.manager.opts
unfolding enrol touch reserve
Way-opts w r now (by_hit e c) = refl
Way-opts w r now (by_refusal e) = refl
Way-opts w r now (by_wait b) = refl
Way-opts w r now (by_login c l b i n) = refl

step-opts : (w : World) (e : Event) → (step w e).manager.opts ≡ w.manager.opts
unfolding step enter enrol cleanup_locked finish
step-opts w (call r true now guard) =
    Way-opts (record w { manager = cleanup_locked now w.manager }) r now
      (enter-Way w.manager r now (answering guard) tt)
step-opts w (call r false now guard) = refl
step-opts w (reply i o alive now) = elim (Option-cases (get_elem? w.pending i)) [
  | inl e ↦ rw (e, step)
  | inr (r, e) ↦ rw (e, step) (settle-opts r o alive now w.manager)
]
step-opts w (clean now) = refl

-- The window that begins at `from`.
abbrev pub InWindow : ℕ → Options → Event → Type 0
InWindow from o e = (from ≤ time_of e) × (time_of e < from + o.failure_window)

module _ (k : Text) where
  Way-holds :
      (n t : ℕ) (w : World) (r : Request) (now : ℕ) {u : Verdict} {m : TokenManager}
      → Way w.manager r now u m
      → holds n t (lookup k w.manager.account_failures) ≡ true
      → holds n t (lookup k (enrol w r u m).manager.account_failures) ≡ true
  unfolding enrol touch
  Way-holds n t w r now (by_hit e c) h = h
  Way-holds n t w r now (by_refusal e) h = h
  Way-holds n t w r now (by_wait b) h = h
  Way-holds n t w r now (by_login c l b i f) h = holds-reserve k n t now w.manager r h

  reply-holds :
      (n from now : ℕ) (m : TokenManager) (r : Request) (o : Outcome) (alive : Bool)
      → from ≤ now
      → now < from + m.opts.failure_window
      → holds n (from + m.opts.failure_window) (lookup k m.account_failures) ≡ true
      → holds
          (tally_reply k (some r) o n)
          (from + m.opts.failure_window)
          (lookup k (finish r o alive now m).account_failures)
        ≡ true
  unfolding finish
  reply-holds n from now m r o alive le lt h = elim (Bool-cases (text_eq r.protection_key k)) [
    | inl e ↦ rw e (holds-settle k n from now m r o alive le lt e h)
    | inr e ↦ rw (e, lookup-settle_ne r o alive now m k e) h
  ]

  step-holds :
      (n from : ℕ) (w : World) (e : Event)
      → InWindow from w.manager.opts e
      → holds n (from + w.manager.opts.failure_window) (lookup k w.manager.account_failures) ≡ true
      → holds
          (tally k w e n)
          (from + w.manager.opts.failure_window)
          (lookup k (step w e).manager.account_failures)
        ≡ true
  unfolding step enter enrol
  step-holds n from w (call r true now guard) (le, lt) h =
      Way-holds n (from + w.manager.opts.failure_window)
        (record w { manager = cleanup_locked now w.manager }) r now
        (enter-Way w.manager r now (answering guard) tt)
        (holds-cleanup k n (from + w.manager.opts.failure_window) now w.manager lt h)
  step-holds n from w (call r false now guard) (le, lt) h = h
  step-holds n from w (reply i o alive now) (le, lt) h =
      elim (Option-cases (get_elem? w.pending i)) [
        | inl e ↦ rw (e, step) h
        | inr (r, e) ↦ rw (e, step) (reply-holds n from now w.manager r o alive le lt h)
      ]
  step-holds n from w (clean now) (le, lt) h =
      holds-cleanup k n (from + w.manager.opts.failure_window) now w.manager lt h

  run-holds :
      (n from : ℕ) (w : World) (es : List Event)
      → All (InWindow from w.manager.opts) es
      → holds n (from + w.manager.opts.failure_window) (lookup k w.manager.account_failures) ≡ true
      → Inv w
      → rejections k w es n ≤ w.manager.opts.failure_limit
  unfolding rejections step
  run-holds n from w [] t h v = elim (Option-cases (lookup k w.manager.account_failures)) [
    | inl e ↦ ground (arith, v.sound.limit_pos)
    | inr (f, e) ↦ ground (
      arith,
      v.sound.limit_pos,
      Values-lookup (λ f. f.count ≤ w.manager.opts.failure_limit) k w.manager.account_failures
          {v = f} v.sound.counts,
    )
  ]
  run-holds n from w (e ∷ es) t h v =
      let p = step-opts w e in
      rw p at (
        run-holds (tally k w e n) from (step w e) es (rw p t.1) (rw p (step-holds n from w e t.0 h))
          (step-Inv w e v))

  -- However the goroutines of a manager that keeps its invariant take turns, during one failure
  -- window the upstream server rejects at most `failure_limit` logins for an account, counted from
  -- the beginning of the window or from the account's last login that succeeded in it.
  pub rejections-le-limit :
      (from : ℕ) (w : World) (es : List Event)
      → All (InWindow from w.manager.opts) es
      → Inv w
      → rejections k w es 0 ≤ w.manager.opts.failure_limit
  rejections-le-limit from w es t v =
      run-holds 0 from w es t
        (holds_zero 0 (from + w.manager.opts.failure_window) (lookup k w.manager.account_failures)
          refl)
        v

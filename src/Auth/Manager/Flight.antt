-- ===== src/Auth/Manager/Flight.antt =====
-- The invariant of the goroutines that share a manager.
use zentao_mcp.Base.{
  ℕ, zero, suc, ◌≡◌, refl, inl, inr, Bool, true, false, ◌||◌, none, some, List, [], ◌∷◌, is_some,
  arith, get_elem?, erase_at, All, All-erase_at, All-get, All-map, if◌then◌else◌, if_cases,
  Option-cases,
}
use zentao_mcp.Base.Text.{Text, text_eq, text_eq_iff, text_eq_refl, text_eq_comm}
use zentao_mcp.Base.Assoc.{lookup, lookup-insert, lookup-delete}
use zentao_mcp.Auth.Errors.{AuthError, is_rejection}
use zentao_mcp.Auth.Manager.{TokenManager, Request, cleanup_locked, new_token_manager}
use zentao_mcp.Base.Int.{or_default-pos}
use zentao_mcp.Auth.Options.{RawOptions, normalized}
use zentao_mcp.Auth.Manager.Enter.{
  Verdict, Way, by_hit, by_refusal, by_wait, by_login, touch, reserve, locked_out, no_room, is_busy,
  enter, enter-Way,
}
use zentao_mcp.Auth.Manager.Finish.{
  Outcome, logged_in, failed, settle, settle_success, settle_failure, record_failure, drop_token,
  clear_failures, finish,
}
use zentao_mcp.Auth.Manager.World.{World, Event, call, reply, clean, answering, enrol, step, run}
use zentao_mcp.Auth.Manager.Sound.{
  IsSound, cleanup-IsSound, touch-IsSound, reserve-IsSound, drop_token-IsSound,
  record_failure-IsSound, count_rejection-IsSound, drop_unused-IsSound, clear_failures-IsSound,
  store-IsSound,
}
use zentao_mcp.Auth.Manager.Ready.{
  ready, ready-cleanup, ready-reserve, ready-reserve_self, settle-inflight, ready-finish,
}

-- Some of the requests is for the account.
abbrev pub flies : Text → List Request → Bool
flies k [] = false
flies k (r ∷ rs) = text_eq r.protection_key k || flies k rs

-- No two of the requests are for one account.
abbrev pub Distinct : List Request → Type 0
Distinct [] = Unit {0}
Distinct (r ∷ rs) = (flies r.protection_key rs ≡ false) × Distinct rs

pub record Inv (w : World) : Type 0 where
  pub sound : IsSound w.manager
  pub running : All (λ r. ready w.manager r.protection_key ≡ true) w.pending
  pub distinct : Distinct w.pending
  pub known : (k : Text) → is_some (lookup k w.manager.inflight) ≡ flies k w.pending

flies-get :
    (k : Text) (rs : List Request) (i : ℕ) {r : Request}
    → get_elem? rs i ≡ some r
    → text_eq r.protection_key k ≡ true
    → flies k rs ≡ true
flies-get k [] i e h = absurd (ground arith)
flies-get k (q ∷ rs) zero e h = ground arith
flies-get k (q ∷ rs) (suc i) {r} e h = ground (arith, flies-get k rs i {r = r} e h)

-- Without the request at an index, its account flies no more, and the others do as before.
flies-erase_at :
    (k : Text) (rs : List Request) (i : ℕ) {r : Request}
    → Distinct rs
    → get_elem? rs i ≡ some r
    → flies k (erase_at rs i) ≡ (if text_eq r.protection_key k then false else flies k rs)
flies-erase_at k [] i d e = absurd (ground arith)
flies-erase_at k (q ∷ rs) zero {r} d e = ground (arith, text_eq_iff r.protection_key k)
flies-erase_at k (q ∷ rs) (suc i) {r} d e = ground (
  arith,
  text_eq_iff r.protection_key k,
  text_eq_iff q.protection_key k,
  text_eq_refl k,
  flies-get q.protection_key rs i {r = r},
  text_eq_refl r.protection_key,
  flies-erase_at k rs i {r = r} d.1,
)

flies-erase_at_absent :
    (k : Text) (rs : List Request) (i : ℕ) → flies k rs ≡ false → flies k (erase_at rs i) ≡ false
flies-erase_at_absent k [] i h = h
flies-erase_at_absent k (q ∷ rs) zero h = ground arith
flies-erase_at_absent k (q ∷ rs) (suc i) h = ground (arith, flies-erase_at_absent k rs i)

Distinct-erase_at : (rs : List Request) (i : ℕ) → Distinct rs → Distinct (erase_at rs i)
Distinct-erase_at [] i d = tt
Distinct-erase_at (q ∷ rs) zero d = d.1
Distinct-erase_at (q ∷ rs) (suc i) d =
    (flies-erase_at_absent q.protection_key rs i d.0, Distinct-erase_at rs i d.1)

-- The requests are for other accounts than `k`.
All-others :
    (P Q : Request → Type 0) (k : Text) (rs : List Request)
    → ((q : Request) → text_eq k q.protection_key ≡ false → P q → Q q)
    → flies k rs ≡ false
    → All P rs
    → All Q rs
All-others P Q k [] f h a = tt
All-others P Q k (q ∷ rs) f h a = (
  f q (ground (arith, text_eq_comm k q.protection_key)) a.0,
  All-others P Q k rs f (ground arith) a.1,
)

settle_failure-IsSound :
    (r : Request) (e : AuthError) (now : ℕ) (m : TokenManager)
    → ready m r.protection_key ≡ true
    → IsSound m
    → IsSound (settle_failure r e now m)
unfolding settle_failure
settle_failure-IsSound r e now m h s =
    if_cases IsSound (is_rejection e)
      (λ _. elim (Option-cases (lookup r.protection_key m.account_failures)) [
        | inl x ↦ absurd (ground arith)
        | inr (f, x) ↦ count_rejection-IsSound r.protection_key now m f x (ground arith) s
      ])
      (λ _. drop_unused-IsSound r.protection_key m s)

settle-IsSound :
    (r : Request) (o : Outcome) (alive : Bool) (now : ℕ) (m : TokenManager)
    → ready m r.protection_key ≡ true
    → IsSound m
    → IsSound (settle r o alive now m)
unfolding settle settle_success record_failure drop_token
settle-IsSound r (logged_in t) alive now m h s =
    store-IsSound r t now (clear_failures r m) (clear_failures-IsSound r m s)
settle-IsSound r (failed e) alive now m h s =
    settle_failure-IsSound r e now _
      (if_cases (λ n. ready n r.protection_key ≡ true) alive (λ _. h) (λ _. h))
      (if_cases IsSound alive
        (λ _. record_failure-IsSound r.fkey e now (drop_token r m) (drop_token-IsSound r m s))
        (λ _. drop_token-IsSound r m s))

finish-IsSound :
    (r : Request) (o : Outcome) (alive : Bool) (now : ℕ) (m : TokenManager)
    → ready m r.protection_key ≡ true
    → IsSound m
    → IsSound (finish r o alive now m)
unfolding finish
finish-IsSound r o alive now m h s =
    let t = settle-IsSound r o alive now m h s in
    record {
      limit_pos = t.limit_pos;
      room_pos = t.room_pos;
      counts = t.counts;
      tokens_fit = t.tokens_fit;
      failures_fit = t.failures_fit;
      accounts_fit = t.accounts_fit;
    }

clean-Inv :
    (now : ℕ) (w : World) → Inv w → Inv (record w { manager = cleanup_locked now w.manager })
unfolding cleanup_locked
clean-Inv now w v = record {
  sound = cleanup-IsSound now w.manager v.sound;
  running = All-map _ _ w.pending (λ r. ready-cleanup now w.manager r.protection_key) v.running;
  distinct = v.distinct;
  known = v.known;
}

-- A critical section that leaves `inflight` and the account failures as they are.
quiet-Inv :
    (w : World) (m : TokenManager)
    → m.inflight ≡ w.manager.inflight
    → m.account_failures ≡ w.manager.account_failures
    → m.opts ≡ w.manager.opts
    → IsSound m
    → Inv w
    → Inv (record w { manager = m })
quiet-Inv w m i a o s v = record {
  sound = s;
  running = All-map _ _ w.pending (λ r h. rw (i, a, o) h) v.running;
  distinct = v.distinct;
  known = λ k. rw i (v.known k);
}

inflight-reserve :
    (w : World) (r : Request) (now : ℕ)
    → Inv w
    → (k : Text) → is_some (lookup k (reserve w.manager r now).inflight) ≡ flies k (r ∷ w.pending)
unfolding reserve
inflight-reserve w r now v k =
    ground (arith, lookup-insert r.protection_key k tt w.manager.inflight, v.known k)

inflight-finish :
    (w : World) (i : ℕ) (r : Request) (o : Outcome) (alive : Bool) (now : ℕ) (k : Text)
    → get_elem? w.pending i ≡ some r
    → Inv w
    → is_some (lookup k (finish r o alive now w.manager).inflight) ≡ flies k (erase_at w.pending i)
unfolding finish
inflight-finish w i r o alive now k e v = ground (
  arith,
  settle-inflight r o alive now w.manager,
  lookup-delete r.protection_key k (settle r o alive now w.manager).inflight,
  flies-erase_at k w.pending i {r = r} v.distinct e,
  v.known k,
)

reserve-Inv :
    (w : World) (r : Request) (now : ℕ)
    → locked_out w.manager r now ≡ none
    → is_busy w.manager r ≡ false
    → no_room w.manager r now ≡ none
    → Inv w
    → Inv (record { manager = reserve w.manager r now; pending = r ∷ w.pending })
unfolding is_busy
reserve-Inv w r now l i n v = record {
  sound = reserve-IsSound w.manager r now n v.sound;
  running = (
    ready-reserve_self w.manager r now v.sound.limit_pos l,
    All-map _ _ w.pending (λ q. ready-reserve w.manager r now q.protection_key v.sound.limit_pos)
        v.running,
  );
  distinct = (ground (arith, v.known r.protection_key), v.distinct);
  known = inflight-reserve w r now v;
}

enrol-Inv :
    (w : World) (r : Request) (now : ℕ) {u : Verdict} {m : TokenManager}
    → Way w.manager r now u m
    → Inv w
    → Inv (enrol w r u m)
unfolding enrol touch
enrol-Inv w r now (by_hit e c) v =
    quiet-Inv w (touch w.manager r e now) refl refl refl (touch-IsSound w.manager r e now c v.sound)
      v
enrol-Inv w r now (by_refusal e) v = v
enrol-Inv w r now (by_wait b) v = v
enrol-Inv w r now (by_login c l b i n) v = reserve-Inv w r now l i n v

reply-Inv :
    (w : World) (i : ℕ) (r : Request) (o : Outcome) (alive : Bool) (now : ℕ)
    → get_elem? w.pending i ≡ some r
    → Inv w
    → Inv (record { manager = finish r o alive now w.manager; pending = erase_at w.pending i })
reply-Inv w i r o alive now e v = record {
  sound = finish-IsSound r o alive now w.manager (All-get _ w.pending i v.running e) v.sound;
  running =
      All-others _ _ r.protection_key (erase_at w.pending i)
        (λ q. ready-finish r o alive now w.manager q.protection_key)
        (ground (
          arith,
          flies-erase_at r.protection_key w.pending i {r = r} v.distinct,
          text_eq_refl r.protection_key,
        ))
        (All-erase_at _ w.pending i v.running);
  distinct = Distinct-erase_at w.pending i v.distinct;
  known = λ k. inflight-finish w i r o alive now k e v;
}

-- Every critical section of every goroutine keeps the invariant.
pub step-Inv : (w : World) (e : Event) → Inv w → Inv (step w e)
unfolding step enter enrol
step-Inv w (call r true now guard) v =
    enrol-Inv (record w { manager = cleanup_locked now w.manager }) r now
      (enter-Way w.manager r now (answering guard) tt) (clean-Inv now w v)
step-Inv w (call r false now guard) v = v
step-Inv w (reply i o alive now) v = elim (Option-cases (get_elem? w.pending i)) [
  | inl e ↦ rw (e, step) v
  | inr (r, e) ↦ rw (e, step) (reply-Inv w i r o alive now e v)
]
step-Inv w (clean now) v = clean-Inv now w v

pub run-Inv : (w : World) (es : List Event) → Inv w → Inv (run w es)
unfolding run
run-Inv w [] v = v
run-Inv w (e ∷ es) v = run-Inv (step w e) es (step-Inv w e v)

abbrev pub start : Text → RawOptions → World
start base_url options = record { manager = new_token_manager base_url options; pending = [] }

pub start-Inv : (base_url : Text) (options : RawOptions) → Inv (start base_url options)
unfolding new_token_manager normalized lookup
start-Inv base_url options = record {
  sound = record {
    limit_pos = or_default-pos 2 options.failure_limit (omega arith);
    room_pos = or_default-pos 2048 options.max_cache_entries (omega arith);
    counts = tt;
    tokens_fit = omega arith;
    failures_fit = omega arith;
    accounts_fit = omega arith;
  };
  running = tt;
  distinct = tt;
  known = λ k. refl;
}

-- Whatever the goroutines do, in whatever order and with whatever answers from the upstream
-- server: no account has two logins in flight, the accounts in flight are exactly those of the
-- waiting logins, each of them may still fail once without reaching the limit, and no account has
-- more than the limit of failures on record. None of the three caches holds more than
-- `max_cache_entries` entries.
pub run-start-Inv :
    (base_url : Text) (options : RawOptions) (es : List Event)
    → Inv (run (start base_url options) es)
run-start-Inv base_url options es = run-Inv _ es (start-Inv base_url options)

-- ===== src/Auth/Manager/Ready.antt =====
-- A login in flight keeps its place: its entries stay, whatever other critical sections run.
use zentao_mcp.Base.{
  ℕ, ◌+◌, ◌<◌, ◌≡◌, inl, inr, Bool, true, false, not, ◌&&◌, leb, Option, none, some, ltb, is_some,
  arith, Option-cases,
}
use zentao_mcp.Base.Text.{Text, text_eq, text_eq_refl}
use zentao_mcp.Base.Assoc.{lookup, lookup-insert, lookup-delete, lookup-drop_where}
use zentao_mcp.Auth.Manager.{TokenManager, AccountFailureEntry, Request, cleanup_locked}
use zentao_mcp.Auth.Manager.Enter.{locked_out, protect, reserve, is_protected}
use zentao_mcp.Auth.Manager.Finish.{
  Outcome, logged_in, failed, settle, settle_success, settle_failure, count_rejection, drop_unused,
  without_unused, clear_failures, make_token_room_locked, store_token, record_failure, drop_token,
  finish, live_count,
}

abbrev pub below : ℕ → Option AccountFailureEntry → Bool
below n none = false
below n (some f) = ltb f.count n

-- The key is in flight, and its account may still fail once.
abbrev pub ready : TokenManager → Text → Bool
ready m k =
    is_some (lookup k m.inflight) && below m.opts.failure_limit (lookup k m.account_failures)

pub ready-cleanup :
    (now : ℕ) (m : TokenManager) (k : Text)
    → ready m k ≡ true
    → ready (cleanup_locked now m) k ≡ true
unfolding cleanup_locked
ready-cleanup now m k h = elim (Option-cases (lookup k m.account_failures)) [
  | inl e ↦ ground arith
  | inr (f, e) ↦ ground (
    arith,
    lookup-drop_where (λ j a. not (is_some (lookup j m.inflight)) && leb a.until now) k
        m.account_failures {v = f},
  )
]

pub ready-reserve :
    (m : TokenManager) (r : Request) (now : ℕ) (k : Text)
    → 0 < m.opts.failure_limit
    → ready m k ≡ true
    → ready (reserve m r now) k ≡ true
unfolding reserve protect is_protected
ready-reserve m r now k p h = ground (
  arith,
  lookup-insert r.protection_key k tt m.inflight,
  lookup-insert r.protection_key k (record { count = 0; until = now + m.opts.failure_window })
      m.account_failures,
)

pub ready-reserve_self :
    (m : TokenManager) (r : Request) (now : ℕ)
    → 0 < m.opts.failure_limit
    → locked_out m r now ≡ none
    → ready (reserve m r now) r.protection_key ≡ true
unfolding reserve protect is_protected locked_out
ready-reserve_self m r now p h = ground (
  arith,
  text_eq_refl r.protection_key,
  lookup-insert r.protection_key r.protection_key tt m.inflight,
  lookup-insert r.protection_key r.protection_key
      (record { count = 0; until = now + m.opts.failure_window }) m.account_failures,
)

-- What `settle` leaves alone.
pub settle-inflight :
    (r : Request) (o : Outcome) (alive : Bool) (now : ℕ) (m : TokenManager)
    → (settle r o alive now m).inflight ≡ m.inflight
unfolding settle settle_success settle_failure count_rejection drop_unused clear_failures
    make_token_room_locked store_token record_failure drop_token
settle-inflight r o alive now m = ground arith

pub settle-opts :
    (r : Request) (o : Outcome) (alive : Bool) (now : ℕ) (m : TokenManager)
    → (settle r o alive now m).opts ≡ m.opts
unfolding settle settle_success settle_failure count_rejection drop_unused clear_failures
    make_token_room_locked store_token record_failure drop_token
settle-opts r o alive now m = ground arith

pub lookup-settle_ne :
    (r : Request) (o : Outcome) (alive : Bool) (now : ℕ) (m : TokenManager) (k : Text)
    → text_eq r.protection_key k ≡ false
    → lookup k (settle r o alive now m).account_failures ≡ lookup k m.account_failures
unfolding settle settle_success settle_failure count_rejection drop_unused without_unused
    clear_failures make_token_room_locked store_token record_failure drop_token live_count
lookup-settle_ne r (logged_in t) alive now m k h =
    ground (arith, lookup-delete r.protection_key k m.account_failures)
lookup-settle_ne r (failed err) alive now m k h = ground (
  arith,
  lookup-delete r.protection_key k m.account_failures,
  lookup-insert r.protection_key k
      (record {
        count = live_count r.protection_key now m + 1;
        until = now + m.opts.failure_window;
      })
      m.account_failures,
)

pub ready-finish :
    (r : Request) (o : Outcome) (alive : Bool) (now : ℕ) (m : TokenManager) (k : Text)
    → text_eq r.protection_key k ≡ false
    → ready m k ≡ true
    → ready (finish r o alive now m) k ≡ true
unfolding finish
ready-finish r o alive now m k ne h = ground (
  arith,
  settle-inflight r o alive now m,
  settle-opts r o alive now m,
  lookup-settle_ne r o alive now m k ne,
  lookup-delete r.protection_key k (settle r o alive now m).inflight,
)

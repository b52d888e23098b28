-- ===== src/Auth/Manager/Enter.antt =====
-- The first critical section of `token`: from the top of its loop to the start of a login.
use zentao_mcp.Base.{
  ℕ, ◌+◌, ◌-◌, Bool, true, false, not, ◌&&◌, Option, none, some, [], ◌∷◌, ltb, leb, if◌then◌else◌,
  is_some, length, ◌≡◌, inl, inr, Bool-cases, Option-cases,
}
use zentao_mcp.Base.Text.{Text, codes, text_eq}
use zentao_mcp.Base.Assoc.{Assoc, lookup, insert}
use zentao_mcp.Auth.Errors.{AuthError, cancelled, auth_throttle_error}
use zentao_mcp.Auth.Manager.{TokenManager, TokenEntry, AccountFailureEntry, Request, cleanup_locked}

-- The entry of a session that the caller may go on using.
unfoldable pub cached : TokenManager → Request → Option TokenEntry
cached m r = elim (lookup r.key m.tokens) [
  | none ↦ none
  | some e ↦
      if text_eq e.password_hash r.hash && not (text_eq e.token r.stale) then some e else none
]

unfoldable pub locked_out : TokenManager → Request → ℕ → Option AuthError
locked_out m r now = elim (lookup r.protection_key m.account_failures) [
  | none ↦ none
  | some f ↦
      if leb m.opts.failure_limit f.count
      then some (auth_throttle_error (codes "该账号登录失败次数达到保护上限，请检查正式/测试环境和密码，冷却后再试") (f.until - now))
      else none
]

unfoldable pub backed_off : TokenManager → Request → ℕ → Option AuthError
backed_off m r now = elim (lookup r.fkey m.failures) [
  | none ↦ none
  | some f ↦ if ltb now f.until then some f.err else none
]

unfoldable pub is_busy : TokenManager → Request → Bool
is_busy m r = is_some (lookup r.protection_key m.inflight)

unfoldable pub is_protected : TokenManager → Request → Bool
is_protected m r = is_some (lookup r.protection_key m.account_failures)

-- The shortest time until one of the entries runs out, or `wait` if that is shorter.
unfoldable pub shortest_wait : ℕ → ℕ → Assoc AccountFailureEntry → ℕ
shortest_wait now wait [] = wait
shortest_wait now wait ((k, f) ∷ fs) =
    shortest_wait now (if ltb (f.until - now) wait then f.until - now else wait) fs

unfoldable pub no_room : TokenManager → Request → ℕ → Option AuthError
no_room m r now =
    if not (is_protected m r) && leb m.opts.max_cache_entries (length m.account_failures)
    then some (
        auth_throttle_error (codes "登录保护缓存已满，请稍后重试")
          (shortest_wait now m.opts.failure_window m.account_failures))
    else none

-- What the caller does when the first critical section ends.
pub data Verdict : Type 0 where
  hit : Text → Verdict
  refused : AuthError → Verdict
  wait : Verdict
  login : Verdict

unfoldable pub touch : TokenManager → Request → TokenEntry → ℕ → TokenManager
touch m r e now = record m { tokens = insert r.key (record e { last_used = now }) m.tokens }

-- The map of account failures with an entry for the account.
unfoldable pub protect : TokenManager → Request → ℕ → Assoc AccountFailureEntry
protect m r now =
    if is_protected m r
    then m.account_failures
    else insert r.protection_key (record { count = 0; until = now + m.opts.failure_window })
        m.account_failures

unfoldable pub reserve : TokenManager → Request → ℕ → TokenManager
reserve m r now = record m {
  account_failures = protect m r now;
  inflight = insert r.protection_key tt m.inflight;
}

-- A guard is a function with a state of its own, `G`: here the limiter of password logins.
module _ {G : Type 0} where
  after_guard : TokenManager → Request → ℕ → Option AuthError × G → Verdict × TokenManager × G
  after_guard m r now (some e, g) = (refused e, m, g)
  after_guard m r now (none, g) = (login, reserve m r now, g)

  unfoldable pub admit :
      TokenManager
      → Request
      → ℕ
      → Option (G → Option AuthError × G)
      → G
      → Verdict × TokenManager × G
  unfolding after_guard
  admit m r now none g = (login, reserve m r now, g)
  admit m r now (some guard) g = after_guard m r now (guard g)

  -- The checks behind the cache, in their order.
  unfoldable pub miss :
      TokenManager
      → Request
      → ℕ
      → Option (G → Option AuthError × G)
      → G
      → Verdict × TokenManager × G
  miss m r now guard g = elim (locked_out m r now) [
    | some e ↦ (refused e, m, g)
    | none ↦ elim (backed_off m r now) [
      | some e ↦ (refused e, m, g)
      | none ↦
          if is_busy m r
          then (wait, m, g)
          else elim (no_room m r now) [ some e ↦ (refused e, m, g) | none ↦ admit m r now guard g ]
    ]
  ]

  -- The first critical section, at the caller's turn. `alive` is `ctx.Err() == nil`.
  unfoldable pub enter :
      TokenManager
      → Request
      → (alive : Bool) → ℕ
      → Option (G → Option AuthError × G)
      → G
      → Verdict × TokenManager × G
  enter m r false now guard g = (refused cancelled, m, g)
  enter m r true now guard g =
      let c = cleanup_locked now m in
      elim (cached c r) [ some e ↦ (hit e.token, touch c r e now, g) | none ↦ miss c r now guard g ]

-- The ways out of the first critical section, with the checks that led there. `m` has been cleaned.
pub data Way (m : TokenManager) (r : Request) (now : ℕ) : Verdict → TokenManager → Type 0 where
  by_hit : (e : TokenEntry) → cached m r ≡ some e → Way m r now (hit e.token) (touch m r e now)
  by_refusal : (e : AuthError) → Way m r now (refused e) m
  by_wait : is_busy m r ≡ true → Way m r now wait m
  by_login :
      cached m r ≡ none
      → locked_out m r now ≡ none
      → backed_off m r now ≡ none
      → is_busy m r ≡ false
      → no_room m r now ≡ none
      → Way m r now login (reserve m r now)

module _ {G : Type 0} where
  admit-Way :
      (m : TokenManager) (r : Request) (now : ℕ) (guard : Option (G → Option AuthError × G)) (g : G)
      → Way m r now login (reserve m r now)
      → Way m r now (admit m r now guard g).0 (admit m r now guard g).1
  unfolding admit
  admit-Way m r now none g w = w
  admit-Way m r now (some guard) g w = go (guard g)
    where
      go :
          (a : Option AuthError × G)
          → Way m r now (after_guard m r now a).0 (after_guard m r now a).1
      go (none, g') = w
      go (some e, g') = by_refusal e

  miss-Way :
      (m : TokenManager) (r : Request) (now : ℕ) (guard : Option (G → Option AuthError × G)) (g : G)
      → cached m r ≡ none
      → Way m r now (miss m r now guard g).0 (miss m r now guard g).1
  unfolding miss
  miss-Way m r now guard g c = elim (Option-cases (locked_out m r now)) [
    | inr (e, h) ↦ rw (h, miss) (by_refusal e)
    | inl l ↦
        rw (l, miss)
          (elim (Option-cases (backed_off m r now)) [
            | inr (e, h) ↦ rw (h, miss) (by_refusal e)
            | inl b ↦
                rw (b, miss)
                  (elim (Bool-cases (is_busy m r)) [
                    | inl h ↦ rw (h, miss) (by_wait h)
                    | inr i ↦
                        rw (i, miss)
                          (elim (Option-cases (no_room m r now)) [
                            | inr (e, h) ↦ rw (h, miss) (by_refusal e)
                            | inl n ↦ rw (n, miss) (admit-Way m r now guard g (by_login c l b i n))
                          ])
                  ])
          ])
  ]

  pub enter-Way :
      (m : TokenManager) (r : Request) (now : ℕ) (guard : Option (G → Option AuthError × G)) (g : G)
      → Way
          (cleanup_locked now m)
          r
          now
          (enter m r true now guard g).0
          (enter m r true now guard g).1
  unfolding enter
  enter-Way m r now guard g = elim (Option-cases (cached (cleanup_locked now m) r)) [
    | inr (e, h) ↦ rw (h, enter) (by_hit e h)
    | inl h ↦ rw (h, enter) (miss-Way (cleanup_locked now m) r now guard g h)
  ]

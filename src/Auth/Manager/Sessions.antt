-- ===== src/Auth/Manager/Sessions.antt =====
-- Cached sessions: what a caller is given, and what becomes of it.
use zentao_mcp.Base.{
  ℕ, ◌+◌, ◌<◌, ◌≡◌, refl, inl, inr, ◌⊎◌, Bool, true, false, Option, some, if_cases, List, [], ◌∷◌,
  All, leb, is_some, arith, Bool-cases, sym,
}
use zentao_mcp.Base.Text.{Text, text_eq, text_eq_iff, text_eq_refl}
use zentao_mcp.Base.Assoc.{
  Assoc, lookup, lookup-insert, lookup-drop_where, drop_where, Values, Values-lookup,
}
use zentao_mcp.Auth.Errors.{AuthError}
use zentao_mcp.Auth.Manager.{TokenManager, TokenEntry, Request, cleanup_locked}
use zentao_mcp.Auth.Manager.Enter.{
  Verdict, hit, cached, locked_out, backed_off, is_busy, no_room, miss, enter, Way, by_hit,
  by_refusal, by_wait, by_login, enter-Way,
}
use zentao_mcp.Auth.Manager.World.{World, Event, run}
use zentao_mcp.Auth.Manager.Calls.{Before, run-HasSession, cached-lookup}
use mathlib.Core.List.{Mem, mem-cons_self, eq-or-mem_of_mem-cons, mem-cons_of_mem}
use mathlib.Core.Path.{subst}
use mathlib.Core.Logic.{∥∥₁_elim, ∥∥₁_prop}
use zentao_mcp.Auth.Manager.Finish.{
  logged_in, failed, settle, settle_success, settle_failure, count_rejection, drop_unused,
  clear_failures, make_token_room_locked, store_token, record_failure, drop_token, without_token,
  finish,
}

module _ {ℓ} {V : Type ℓ} (drop : V → Bool) where
  -- What is left of a map satisfies the negation of what dropped the rest.
  drop_where-Values : (m : Assoc V) → Values (λ v. drop v ≡ false) (drop_where (λ k v. drop v) m)
  unfolding drop_where
  drop_where-Values [] = tt
  drop_where-Values ((k, v) ∷ m) = elim (Bool-cases (drop v)) [
    | inl e ↦ rw e (drop_where-Values m)
    | inr e ↦ rw e (e, drop_where-Values m)
  ]

-- A key that is found is found in an entry of the map.
lookup-Mem : {V : Type 0} (k : Text) (v : V) (m : Assoc V) → lookup k m ≡ some v → Mem (k, v) m
unfolding lookup
lookup-Mem k v [] h = absurd (ground arith)
lookup-Mem {V} k v ((i, w) ∷ m) h = elim (Bool-cases (text_eq i k)) [
  | inl same ↦
      let q : (i, w) ≡ (k, v) = ground (arith, text_eq_iff i k) in
      subst (λ x. Mem (k, v) (x ∷ m)) (sym q) mem-cons_self
  | inr other ↦ mem-cons_of_mem (i, w) (lookup-Mem k v m (ground arith))
]

Mem-drop_where :
    {V : Type 0} (drop : Text → V → Bool) (x : Text × V) (m : Assoc V)
    → Mem x (drop_where drop m)
    → Mem x m
unfolding drop_where
Mem-drop_where drop x [] h = h
Mem-drop_where {V} drop x ((k, v) ∷ m) h =
    if_cases {A = Assoc V} (λ l. Mem x l → Mem x ((k, v) ∷ m)) (drop k v) {x = drop_where drop m}
      {y = (k, v) ∷ drop_where drop m}
      (λ dropped g. mem-cons_of_mem (k, v) (Mem-drop_where drop x m g))
      (λ kept g. ∥∥₁_elim (eq-or-mem_of_mem-cons g) ∥∥₁_prop (λ d. elim d [
        | inl same ↦ subst (λ y. Mem x (y ∷ m)) same mem-cons_self
        | inr there ↦ mem-cons_of_mem (k, v) (Mem-drop_where drop x m there)
      ]))
      h

-- The session of a request that it may go on using.
abbrev pub Session : TokenManager → Request → ℕ → TokenEntry → Type 0
Session m r now e =
    Mem (r.key, e) m.tokens
    × (e.password_hash ≡ r.hash)
    × (text_eq e.token r.stale ≡ false)
    × (now < e.expires_at)

cached-Session :
    (m : TokenManager) (r : Request) (now : ℕ) (e : TokenEntry)
    → cached (cleanup_locked now m) r ≡ some e
    → Session m r now e
unfolding cached cleanup_locked
cached-Session m r now e h =
    let kept = drop_where (λ k t. leb t.expires_at now) m.tokens in
    let found : lookup r.key kept ≡ some e = cached-lookup (cleanup_locked now m) r e h in
    let alive : leb e.expires_at now ≡ false =
      Values-lookup (λ t. leb t.expires_at now ≡ false) r.key kept {v = e}
        (drop_where-Values (λ t. leb t.expires_at now) m.tokens) found in
    (
      Mem-drop_where _ (r.key, e) m.tokens (lookup-Mem r.key e kept found),
      ground (arith, text_eq_iff e.password_hash r.hash, found, h),
      ground (arith, found, h),
      ground (arith, alive),
    )

-- A call that ends with a hit used a session.
Way-Session :
    (m : TokenManager) (r : Request) (now : ℕ) (t : Text) {v : Verdict} {m' : TokenManager}
    → Way (cleanup_locked now m) r now v m'
    → v ≡ hit t
    → (e : TokenEntry) × Session m r now e × (e.token ≡ t)
Way-Session m r now t (by_hit e c) h = (e, cached-Session m r now e c, cc)
Way-Session m r now t (by_refusal e) h = cc
Way-Session m r now t (by_wait b) h = cc
Way-Session m r now t (by_login c l b i n) h = cc

-- A call is given a token only from an entry of the map of sessions, under the key of its account,
-- that was stored under the same password, has not run out, and is not the token that the caller
-- saw rejected.
pub enter-hit_valid :
    {G : Type 0} (m : TokenManager) (r : Request) (alive : Bool) (now : ℕ)
    (guard : Option (G → Option AuthError × G)) (g : G) (t : Text)
    → (enter m r alive now guard g).0 ≡ hit t
    → (e : TokenEntry) × Session m r now e × (e.token ≡ t)
unfolding enter
enter-hit_valid m r false now guard g t h = cc
enter-hit_valid m r true now guard g t h = Way-Session m r now t (enter-Way m r now guard g) h

cached_of :
    (m : TokenManager) (r : Request) (e : TokenEntry)
    → lookup r.key m.tokens ≡ some e
    → e.password_hash ≡ r.hash
    → text_eq e.token r.stale ≡ false
    → cached m r ≡ some e
unfolding cached
cached_of m r e l h n = ground (arith, text_eq_iff e.password_hash r.hash)

abbrev session : Request → Text → ℕ → TokenManager → TokenEntry
session r t now m = record {
  token = t;
  password_hash = r.hash;
  expires_at = now + m.opts.token_ttl;
  last_used = now;
}

lookup-finish_logged_in :
    (m : TokenManager) (r : Request) (t : Text) (alive : Bool) (now : ℕ)
    → lookup r.key (finish r (logged_in t) alive now m).tokens ≡ some (session r t now m)
unfolding finish settle settle_success store_token make_token_room_locked clear_failures
lookup-finish_logged_in m r t alive now = rw lookup-insert (rw (text_eq_refl r.key))

-- After a login that succeeds the account has a session: as long as it has not run out and no other
-- login has ended, whatever calls and cleanings come in between, each call with the same account
-- and password is given its token, whatever the guard, except a call that reports this very token
-- as rejected.
pub enter-finish_logged_in :
    {G : Type 0} (m : TokenManager) (r s : Request) (t : Text) (alive : Bool) (now later : ℕ)
    (pending : List Request) (events : List Event) (guard : Option (G → Option AuthError × G))
    (g : G)
    → s.key ≡ r.key
    → s.hash ≡ r.hash
    → text_eq t s.stale ≡ false
    → All (Before (now + m.opts.token_ttl)) events
    → later < now + m.opts.token_ttl
    → let w : World = record { manager = finish r (logged_in t) alive now m; pending = pending } in
      (enter (run w events).manager s true later guard g).0 ≡ hit t
unfolding enter cleanup_locked
enter-finish_logged_in m r s t alive now later pending events guard g k h n b le =
    let w : World = record { manager = finish r (logged_in t) alive now m; pending = pending } in
    let m' = (run w events).manager in
    let (used, there) =
      run-HasSession r.key (session r t now m) w events b
        (now, lookup-finish_logged_in m r t alive now) in
    let e : TokenEntry = record (session r t now m) { last_used = used } in
    let found : lookup s.key (cleanup_locked later m').tokens ≡ some e =
      lookup-drop_where _ s.key m'.tokens (rw k there) (ground arith) in
    rw (cached_of (cleanup_locked later m') s e found (sym h) n, enter)

-- A failed login with another password leaves the account's session alone.
pub tokens-finish_failed :
    (m : TokenManager) (r : Request) (err : AuthError) (alive : Bool) (now : ℕ) (e : TokenEntry)
    → lookup r.key m.tokens ≡ some e
    → text_eq e.password_hash r.hash ≡ false
    → (finish r (failed err) alive now m).tokens ≡ m.tokens
unfolding finish settle settle_failure count_rejection drop_unused record_failure drop_token
    without_token
tokens-finish_failed m r err alive now e h n = ground arith

-- The guard is asked only where a login is about to start: a cached session, a failure that is on
-- record and a login in flight leave its state as it was.
pub enter_guard :
    {G : Type 0} (m : TokenManager) (r : Request) (alive : Bool) (now : ℕ)
    (guard : Option (G → Option AuthError × G)) (g : G)
    → let c = cleanup_locked now m in
      is_some (cached c r) ≡ true
        ⊎ is_some (locked_out c r now) ≡ true
        ⊎ is_some (backed_off c r now) ≡ true
        ⊎ is_busy c r ≡ true
        ⊎ is_some (no_room c r now) ≡ true
      → (enter m r alive now guard g).2 ≡ g
unfolding enter miss
enter_guard m r true now guard g h = ground arith
enter_guard m r false now guard g h = refl

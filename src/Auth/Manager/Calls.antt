-- ===== src/Auth/Manager/Calls.antt =====
-- What the calls between two answers of the upstream server leave as it is: sessions and failures.
use zentao_mcp.Base.{
  ℕ, ◌<◌, ◌≤◌, ◌≡◌, refl, sym, ◌∙◌, ap, true, false, inl, inr, Option, some, none, List, [], ◌∷◌,
  arith, All, Bool-cases, Option-cases,
}
use zentao_mcp.Base.Text.{Text, text_eq, text_eq_iff}
use zentao_mcp.Base.Assoc.{lookup, lookup-insert, lookup-drop_where}
use zentao_mcp.Auth.Manager.{TokenManager, TokenEntry, FailureEntry, Request, cleanup_locked}
use zentao_mcp.Auth.Manager.Enter.{
  Verdict, hit, refused, wait, login, cached, touch, reserve, enter, Way, by_hit, by_refusal,
  by_wait, by_login, enter-Way,
}
use zentao_mcp.Auth.Manager.World.{World, Event, call, reply, clean, answering, enrol, step, run}

-- The event is a call or a cleaning at a time before `d`, so no login ends with it.
abbrev pub Before : ℕ → Event → Type 0
Before d (call r alive now guard) = now < d
Before d (reply i o alive now) = ⊥
Before d (clean now) = now < d

-- The session of a key, whenever it was last used.
abbrev pub HasSession : Text → TokenEntry → TokenManager → Type 0
HasSession k e m = (used : ℕ) × (lookup k m.tokens ≡ some (record e { last_used = used }))

abbrev pub HasFailure : Text → FailureEntry → TokenManager → Type 0
HasFailure k f m = lookup k m.failures ≡ some f

cleanup_locked-HasSession :
    (k : Text) (e : TokenEntry) (m : TokenManager) (now : ℕ)
    → now < e.expires_at
    → HasSession k e m
    → HasSession k e (cleanup_locked now m)
unfolding cleanup_locked
cleanup_locked-HasSession k e m now h (used, l) =
    (used, lookup-drop_where _ k m.tokens l (ground arith))

cleanup_locked-HasFailure :
    (k : Text) (f : FailureEntry) (m : TokenManager) (now : ℕ)
    → now < f.expires_at
    → HasFailure k f m
    → HasFailure k f (cleanup_locked now m)
unfolding cleanup_locked
cleanup_locked-HasFailure k f m now h l = lookup-drop_where _ k m.failures l (ground arith)

pub cached-lookup :
    (m : TokenManager) (r : Request) (e : TokenEntry)
    → cached m r ≡ some e
    → lookup r.key m.tokens ≡ some e
unfolding cached
cached-lookup m r e h = elim (Option-cases (lookup r.key m.tokens)) [
  | inl x ↦ absurd (ground arith)
  | inr (f, x) ↦ ground arith
]

abbrev used_at : ℕ → Option TokenEntry → Option TokenEntry
used_at now none = none
used_at now (some e) = some (record e { last_used = now })

touch-HasSession :
    (k : Text) (e d : TokenEntry) (m : TokenManager) (r : Request) (now : ℕ)
    → lookup r.key m.tokens ≡ some d
    → HasSession k e m
    → HasSession k e (touch m r d now)
unfolding touch
touch-HasSession k e d m r now c (used, l) = elim (Bool-cases (text_eq r.key k)) [
  | inr other ↦ (used, rw lookup-insert (rw other l))
  | inl same ↦
      let q : r.key ≡ k = ground (arith, text_eq_iff r.key k) in
      let same_entry : some d ≡ some (record e { last_used = used }) = sym c ∙ rw q l in
      (now, rw lookup-insert (rw same (ap (used_at now) same_entry)))
]

module _ (k : Text) {r : Request} {now : ℕ} where
  Way-HasSession :
      (e : TokenEntry) {m m' : TokenManager} {v : Verdict}
      → Way m r now v m'
      → HasSession k e m
      → HasSession k e m'
  Way-HasSession e (by_hit d c) h = touch-HasSession k e d _ r now (cached-lookup _ r d c) h
  Way-HasSession e (by_refusal x) h = h
  Way-HasSession e (by_wait b) h = h
  Way-HasSession e (by_login c l b i n) h = unfold reserve in h

  Way-HasFailure :
      (f : FailureEntry) {m m' : TokenManager} {v : Verdict}
      → Way m r now v m'
      → HasFailure k f m
      → HasFailure k f m'
  Way-HasFailure f (by_hit d c) h = unfold touch in h
  Way-HasFailure f (by_refusal x) h = h
  Way-HasFailure f (by_wait b) h = h
  Way-HasFailure f (by_login c l b i n) h = unfold reserve in h

enrol-manager :
    (w : World) (r : Request) (v : Verdict) (m : TokenManager) → (enrol w r v m).manager ≡ m
unfolding enrol
enrol-manager w r login m = refl
enrol-manager w r (hit t) m = refl
enrol-manager w r (refused e) m = refl
enrol-manager w r wait m = refl

-- What each turn of a call and each cleaning before `d` keeps, a run of them keeps.
module _ (P : TokenManager → Type 0) (d : ℕ)
    (kept : (m : TokenManager) (now : ℕ) → now < d → P m → P (cleanup_locked now m))
    (entered : (m m' : TokenManager) (r : Request) (now : ℕ) (v : Verdict)
      → Way m r now v m'
      → P m
      → P m') where
  step-keeps : (w : World) (e : Event) → Before d e → P w.manager → P (step w e).manager
  unfolding step enter
  step-keeps w (call r false now guard) b p = rw enrol-manager p
  step-keeps w (call r true now guard) b p = rw enrol-manager (
      entered _ _ r now _ (enter-Way w.manager r now (answering guard) tt) (kept w.manager now b p))
  step-keeps w (reply i o alive now) b p = absurd b
  step-keeps w (clean now) b p = kept w.manager now b p

  run-keeps : (w : World) (es : List Event) → All (Before d) es → P w.manager → P (run w es).manager
  unfolding run
  run-keeps w [] b p = p
  run-keeps w (e ∷ es) b p = run-keeps (step w e) es b.1 (step-keeps w e b.0 p)

pub run-HasSession :
    (k : Text) (e : TokenEntry) (w : World) (es : List Event)
    → All (Before e.expires_at) es
    → HasSession k e w.manager
    → HasSession k e (run w es).manager
run-HasSession k e =
    run-keeps (HasSession k e) e.expires_at (λ m now b h. cleanup_locked-HasSession k e m now b h)
      (λ m m' r now v y h. Way-HasSession k e y h)

pub run-HasFailure :
    (k : Text) (f : FailureEntry) (d : ℕ) (w : World) (es : List Event)
    → d ≤ f.expires_at
    → All (Before d) es
    → HasFailure k f w.manager
    → HasFailure k f (run w es).manager
run-HasFailure k f d w es u =
    run-keeps (HasFailure k f) d
      (λ m now b h. cleanup_locked-HasFailure k f m now (omega (arith, u, b)) h)
      (λ m m' r now v y h. Way-HasFailure k f y h) w es

-- ===== src/Auth/Limiter/Rate.antt =====
-- The rate that the limiter promises to each address.
use zentao_mcp.Base.{
  ℕ, suc, ◌+◌, ◌-◌, ◌*◌, ◌≤◌, ◌<◌, ◌≡◌, refl, inl, inr, true, ◌&&◌, Option, none, some, List, [],
  ◌∷◌, leb, ltb, is_some, length, if◌then◌else◌, if_cases, Bool-cases, Option-cases, arith, max,
  not,
}
use zentao_mcp.Base.Text.{Text, text_eq, text_eq_iff}
use zentao_mcp.Base.Assoc.{lookup, insert, lookup-insert}
use zentao_mcp.Base.Unique.{Unique, lookup-drop_where_eq, Unique-drop_where, Unique-insert}
use zentao_mcp.Auth.Errors.{AuthError}
use zentao_mcp.Auth.Limiter.{
  Bucket, zero_bucket, Limiter, refill, wait, take_token, sweep, refill_global, spend, admit_ip,
  check_ip, allow, new_access_limiter,
}
use zentao_mcp.Auth.Options.{minute}
use zentao_mcp.Auth.Limiter.Funds.{
  mul_le, Funds, Funds-later, Funds-survivor, Funds-refill_new, Funds-refill, Funds-take,
}

-- The limiter's figures for one address, and that its map is one.
pub record Terms (u r f idle : ℕ) (l : Limiter) : Type 0 where
  pub unit_eq : l.unit ≡ u
  pub rate_eq : l.ip_rate ≡ r
  pub full_eq : l.ip_burst * l.unit ≡ f
  pub idle_eq : l.idle_ttl ≡ idle
  pub unique : Unique l.ips

-- The calls from `k` that were let through.
abbrev pub counted : Text → Text → Option AuthError → ℕ → ℕ
counted k ip answer n = if text_eq ip k && not (is_some answer) then suc n else n

wait_zero : (unit rate : ℕ) (b : Bucket) → wait unit rate b ≡ 0 → unit ≤ b.tokens
unfolding wait
wait_zero unit rate b h = ground arith

counted_refused : (k ip : Text) (e : AuthError) (n : ℕ) → counted k ip (some e) n ≡ n
counted_refused k ip e n = ground arith

module _ (u r f idle : ℕ) where
  sweep-Terms : (now : ℕ) (l : Limiter) → Terms u r f idle l → Terms u r f idle (sweep now l)
  unfolding sweep
  sweep-Terms now l t = record {
    unit_eq = t.unit_eq;
    rate_eq = t.rate_eq;
    full_eq = t.full_eq;
    idle_eq = t.idle_eq;
    unique =
        if_cases Unique (leb l.next_cleanup now) (λ _. Unique-drop_where _ l.ips t.unique)
          (λ _. t.unique);
  }

  refill_global-Terms :
      (now : ℕ) (l : Limiter) → Terms u r f idle l → Terms u r f idle (refill_global now l)
  unfolding refill_global
  refill_global-Terms now l t = record {
    unit_eq = t.unit_eq;
    rate_eq = t.rate_eq;
    full_eq = t.full_eq;
    idle_eq = t.idle_eq;
    unique = t.unique;
  }

  put-Terms :
      (k : Text) (b g : Bucket) (l : Limiter)
      → Terms u r f idle l
      → Terms u r f idle (record l { global = g; ips = insert k b l.ips })
  put-Terms k b g l t = record {
    unit_eq = t.unit_eq;
    rate_eq = t.rate_eq;
    full_eq = t.full_eq;
    idle_eq = t.idle_eq;
    unique = Unique-insert k b l.ips t.unique;
  }

  spend-Terms :
      (ip : Text) (b : Bucket) (l : Limiter)
      → Terms u r f idle l
      → Terms u r f idle (spend ip b l).1
  unfolding spend
  spend-Terms ip b l t =
      if_cases {A = Option AuthError × Limiter} (λ p. Terms u r f idle p.1)
        (ltb 0 (max (wait l.unit l.rate l.global) (wait l.unit l.ip_rate b))) (λ _. t)
        (λ _. put-Terms ip (take_token l.unit b) (take_token l.unit l.global) l t)

  admit_ip-Terms :
      (ip : Text) (now : ℕ) (b : Bucket) (l : Limiter)
      → Terms u r f idle l
      → Terms u r f idle (admit_ip ip now b l).1
  unfolding admit_ip
  admit_ip-Terms ip now b l t =
      spend-Terms ip _ _ (put-Terms ip (refill now l.ip_rate (l.ip_burst * l.unit) b) l.global l t)

  check_ip-Terms :
      (ip : Text) (now : ℕ) (l : Limiter)
      → Terms u r f idle l
      → Terms u r f idle (check_ip ip now l).1
  unfolding check_ip
  check_ip-Terms ip now l t = elim (Option-cases (lookup ip l.ips)) [
    | inr (b, e) ↦ rw (e, check_ip) (admit_ip-Terms ip now b l t)
    | inl e ↦
        rw (e, check_ip)
          (if_cases {A = Option AuthError × Limiter} (λ p. Terms u r f idle p.1)
            (leb l.max_entries (length l.ips)) (λ _. t)
            (λ _. admit_ip-Terms ip now zero_bucket l t))
  ]

  module _ (start : ℕ) (k : Text) where
    spend-Funds :
        (n now : ℕ) (ip : Text) (b : Bucket) (l : Limiter)
        → Terms u r f idle l
        → (text_eq ip k ≡ true → lookup k l.ips ≡ some b)
        → Funds u r f start n now (lookup k l.ips)
        → Funds u r f start (counted k ip (spend ip b l).0 n) now (lookup k (spend ip b l).1.ips)
    unfolding spend
    spend-Funds n now ip b l t h p =
        if_cases {A = Option AuthError × Limiter}
          (λ q. Funds u r f start (counted k ip q.0 n) now (lookup k q.1.ips))
          (ltb 0 (max (wait l.unit l.rate l.global) (wait l.unit l.ip_rate b)))
          (λ _. rw (counted_refused k ip _ n) p)
          (λ z. rw lookup-insert (elim (Bool-cases (text_eq ip k)) [
            | inr e ↦ rw e p
            | inl e ↦
                let paid : Funds u r f start n now (some b) = rw (h e) at p in
                rw (e, t.unit_eq)
                  (Funds-take u r f start n now b
                    (rw t.unit_eq at (wait_zero l.unit l.ip_rate b (ground arith))) paid)
          ]))

    admit_ip-Funds :
        (n now : ℕ) (ip : Text) (b : Bucket) (l : Limiter)
        → Terms u r f idle l
        → (text_eq ip k ≡ true → Funds u r f start n now (some (refill now r f b)))
        → Funds u r f start n now (lookup k l.ips)
        → Funds u r f start
            (counted k ip (admit_ip ip now b l).0 n)
            now
            (lookup k (admit_ip ip now b l).1.ips)
    unfolding admit_ip
    admit_ip-Funds n now ip b l t h p =
        let b' = refill now l.ip_rate (l.ip_burst * l.unit) b in
        spend-Funds n now ip b' (record l { ips = insert ip b' l.ips })
          (put-Terms ip b' l.global l t) (λ e. rw lookup-insert (rw e))
          (rw lookup-insert (elim (Bool-cases (text_eq ip k)) [
            | inl e ↦ rw (e, t.rate_eq, t.full_eq) (h e)
            | inr e ↦ rw e p
          ]))

    check_ip-Funds :
        (n now : ℕ) (ip : Text) (l : Limiter)
        → Terms u r f idle l
        → 0 < now
        → start ≤ now
        → Funds u r f start n now (lookup k l.ips)
        → Funds u r f start
            (counted k ip (check_ip ip now l).0 n)
            now
            (lookup k (check_ip ip now l).1.ips)
    unfolding check_ip
    check_ip-Funds n now ip l t pos le p = elim (Option-cases (lookup ip l.ips)) [
      | inr (b, e) ↦
          rw (e, check_ip)
            (admit_ip-Funds n now ip b l t
              (λ s. Funds-refill u r f start n now b (rw (text_at s e) at p)) p)
      | inl e ↦
          rw (e, check_ip)
            (if_cases {A = Option AuthError × Limiter}
              (λ q. Funds u r f start (counted k ip q.0 n) now (lookup k q.1.ips))
              (leb l.max_entries (length l.ips)) (λ _. rw (counted_refused k ip _ n) p)
              (λ _.
                admit_ip-Funds n now ip zero_bucket l t
                  (λ s. Funds-refill_new u r f start n now pos le (rw (text_at s e) at p)) p))
    ]
      where
        text_at :
            {o : Option Bucket} → text_eq ip k ≡ true → lookup ip l.ips ≡ o → lookup k l.ips ≡ o
        text_at s e = rw ((text_eq_iff ip k).0 s) at e

    allow-Funds :
        (n before now : ℕ) (ip : Text) (l : Limiter)
        → Terms u r f idle l
        → f ≤ idle * r
        → 0 < now
        → start ≤ now
        → before ≤ now
        → Funds u r f start n before (lookup k l.ips)
        → Funds u r f start
            (counted k ip (allow ip now l).0 n)
            now
            (lookup k (allow ip now l).1.ips)
    unfolding allow refill_global sweep
    allow-Funds n before now ip l t slow pos le later p =
        let q = Funds-later u r f start n before now (lookup k l.ips) later p in
        check_ip-Funds n now ip (refill_global now (sweep now l))
          (refill_global-Terms now (sweep now l) (sweep-Terms now l t)) pos le
          (if_cases (λ m. Funds u r f start n now (lookup k m)) (leb l.next_cleanup now)
            (λ _.
              rw
                (
                  lookup-drop_where_eq (λ j b. leb l.idle_ttl (now - b.last)) k l.ips t.unique,
                  t.idle_eq,
                )
                (Funds-survivor u r f start n now idle k (lookup k l.ips) slow q))
            (λ _. q))

  allow-Terms :
      (ip : Text) (now : ℕ) (l : Limiter) → Terms u r f idle l → Terms u r f idle (allow ip now l).1
  unfolding allow
  allow-Terms ip now l t = check_ip-Terms ip now _ (refill_global-Terms now _ (sweep-Terms now l t))

-- An address and the time of its call.
abbrev pub Call : Type 0
Call = Text × ℕ

-- The clock does not run backwards.
abbrev pub Ordered : ℕ → List Call → Type 0
Ordered now [] = Unit {0}
Ordered now ((ip, later) ∷ calls) = (now ≤ later) × Ordered later calls

abbrev pub last_time : ℕ → List Call → ℕ
last_time now [] = now
last_time now ((ip, later) ∷ calls) = last_time later calls

-- The calls of a run from `k` that are let through, on top of `n`.
unfoldable pub granted : Text → Limiter → List Call → ℕ → ℕ
granted k l [] n = n
granted k l ((ip, now) ∷ calls) n =
    granted k (allow ip now l).1 calls (counted k ip (allow ip now l).0 n)

module _ (u r f idle start : ℕ) (k : Text) where
  Funds-bound :
      (n now : ℕ) (o : Option Bucket) → Funds u r f start n now o → n * u ≤ f + (now - start) * r
  Funds-bound n now none p = omega arith
  Funds-bound n now (some b) p =
      omega (arith, mul_le (b.last - start) (now - start) r (omega arith))

  granted-Funds :
      (n now : ℕ) (l : Limiter) (calls : List Call)
      → Terms u r f idle l
      → f ≤ idle * r
      → 0 < start
      → start ≤ now
      → Ordered now calls
      → Funds u r f start n now (lookup k l.ips)
      → granted k l calls n * u ≤ f + (last_time now calls - start) * r
  unfolding granted
  granted-Funds n now l [] t slow pos le o p = Funds-bound n now (lookup k l.ips) p
  granted-Funds n now l ((ip, later) ∷ calls) t slow pos le o p =
      granted-Funds (counted k ip (allow ip later l).0 n) later (allow ip later l).1 calls
        (allow-Terms u r f idle ip later l t) slow pos (omega arith) o.1
        (allow-Funds u r f idle start k n now later ip l t slow (omega arith) (omega arith) o.0 p)

-- Over any run of calls from any addresses, an address is let through no more often than its burst
-- and its rate allow: one call for each token of a full bucket, and one for each token that the
-- rate gives in the time of the run. The condition is that a bucket fills up within the time after
-- which an idle one is dropped: a bucket that is dropped then gives nothing away.
pub granted_rate :
    (unit rate burst ip_rate ip_burst start : ℕ) (k : Text) (calls : List Call)
    → ip_burst * unit ≤ 10 * minute * ip_rate
    → 0 < start
    → Ordered start calls
    → granted k (new_access_limiter unit rate burst ip_rate ip_burst) calls 0 * unit
      ≤ ip_burst * unit + (last_time start calls - start) * ip_rate
unfolding new_access_limiter lookup
granted_rate unit rate burst ip_rate ip_burst start k calls slow pos o =
    granted-Funds unit ip_rate (ip_burst * unit) (10 * minute) start k 0 start
      (new_access_limiter unit rate burst ip_rate ip_burst) calls
      (record { unit_eq = refl; rate_eq = refl; full_eq = refl; idle_eq = refl; unique = tt }) slow
      pos le_refl_start o (omega arith)
  where
    le_refl_start : start ≤ start
    le_refl_start = omega arith

-- ===== src/Auth/Limiter/Capacity.antt =====
-- The limiter's map of addresses: how large it grows, and what a flood of addresses can do to it.
use zentao_mcp.Base.{
  ℕ, suc, ◌-◌, ◌*◌, ◌≤◌, ◌<◌, ◌≡◌, refl, inl, inr, Bool, true, false, Option, none, some, List, [],
  ◌∷◌, leb, ltb, is_some, length, if◌then◌else◌, if_cases, Option-cases, arith, max, not, ◌&&◌,
  ◌||◌,
}
use zentao_mcp.Base.Text.{Text, text_eq, text_eq_refl}
use zentao_mcp.Base.Assoc.{
  lookup, insert, lookup-insert, length-insert, length-drop_where, lookup-drop_where,
}
use zentao_mcp.Auth.Errors.{AuthError}
use zentao_mcp.Auth.Limiter.{
  Bucket, zero_bucket, Limiter, refill, wait, take_token, sweep, refill_global, spend, admit_ip,
  check_ip, allow, new_access_limiter,
}
use zentao_mcp.Auth.Limiter.Rate.{Call}

unfoldable pub after : Limiter → List Call → Limiter
after l [] = l
after l ((ip, now) ∷ calls) = after (allow ip now l).1 calls

-- The map has at most `n` entries, and grows to no more.
abbrev Fits : ℕ → Limiter → Type 0
Fits n l = (l.max_entries ≡ n) × (length l.ips ≤ n)

spend-Fits :
    (n : ℕ) (ip : Text) (b : Bucket) (l : Limiter)
    → is_some (lookup ip l.ips) ≡ true
    → Fits n l
    → Fits n (spend ip b l).1
unfolding spend
spend-Fits n ip b l found f =
    if_cases {A = Option AuthError × Limiter} (λ p. Fits n p.1)
      (ltb 0 (max (wait l.unit l.rate l.global) (wait l.unit l.ip_rate b))) (λ _. f)
      (λ _. (f.0, ground (arith, length-insert ip (take_token l.unit b) l.ips)))

admit_ip-Fits :
    (n : ℕ) (ip : Text) (now : ℕ) (b : Bucket) (l : Limiter)
    → l.max_entries ≡ n
    → (if is_some (lookup ip l.ips) then length l.ips else suc (length l.ips)) ≤ n
    → Fits n (admit_ip ip now b l).1
unfolding admit_ip
admit_ip-Fits n ip now b l m h =
    let b' = refill now l.ip_rate (l.ip_burst * l.unit) b in
    spend-Fits n ip b' (record l { ips = insert ip b' l.ips })
      (ground (arith, lookup-insert ip ip b' l.ips, text_eq_refl ip))
      (m, rw (length-insert ip b' l.ips) h)

check_ip-Fits :
    (n : ℕ) (ip : Text) (now : ℕ) (l : Limiter) → Fits n l → Fits n (check_ip ip now l).1
unfolding check_ip
check_ip-Fits n ip now l f = elim (Option-cases (lookup ip l.ips)) [
  | inr (b, e) ↦ rw (e, check_ip) (admit_ip-Fits n ip now b l f.0 (rw e f.1))
  | inl e ↦
      rw (e, check_ip)
        (if_cases {A = Option AuthError × Limiter} (λ p. Fits n p.1)
          (leb l.max_entries (length l.ips)) (λ _. f)
          (λ h. admit_ip-Fits n ip now zero_bucket l f.0 (rw e (ground arith))))
]

allow-Fits : (n : ℕ) (ip : Text) (now : ℕ) (l : Limiter) → Fits n l → Fits n (allow ip now l).1
unfolding allow refill_global sweep
allow-Fits n ip now l f =
    check_ip-Fits n ip now (refill_global now (sweep now l))
      (f.0, ground (arith, length-drop_where (λ k b. leb l.idle_ttl (now - b.last)) l.ips))

after-Fits : (n : ℕ) (l : Limiter) (calls : List Call) → Fits n l → Fits n (after l calls)
unfolding after
after-Fits n l [] f = f
after-Fits n l ((ip, now) ∷ calls) f =
    after-Fits n (allow ip now l).1 calls (allow-Fits n ip now l f)

-- A limiter never keeps more than 2048 addresses, whatever calls it gets.
pub after-length-le :
    (unit rate burst ip_rate ip_burst : ℕ) (calls : List Call)
    → length (after (new_access_limiter unit rate burst ip_rate ip_burst) calls).ips ≤ 2048
unfolding new_access_limiter
after-length-le unit rate burst ip_rate ip_burst calls =
    (after-Fits 2048 (new_access_limiter unit rate burst ip_rate ip_burst) calls
      (refl, omega arith)).1

lookup-spend_ne :
    (k ip : Text) (b : Bucket) (l : Limiter)
    → text_eq ip k ≡ false
    → lookup k (spend ip b l).1.ips ≡ lookup k l.ips
unfolding spend
lookup-spend_ne k ip b l ne = ground (arith, lookup-insert ip k (take_token l.unit b) l.ips)

lookup-admit_ip_ne :
    (k ip : Text) (now : ℕ) (b : Bucket) (l : Limiter)
    → text_eq ip k ≡ false
    → lookup k (admit_ip ip now b l).1.ips ≡ lookup k l.ips
unfolding admit_ip
lookup-admit_ip_ne k ip now b l ne =
    let b' = refill now l.ip_rate (l.ip_burst * l.unit) b in
    ground (
      arith,
      lookup-insert ip k b' l.ips,
      lookup-spend_ne k ip b' (record l { ips = insert ip b' l.ips }) ne,
    )

lookup-check_ip_ne :
    (k ip : Text) (now : ℕ) (l : Limiter)
    → text_eq ip k ≡ false
    → lookup k (check_ip ip now l).1.ips ≡ lookup k l.ips
unfolding check_ip
lookup-check_ip_ne k ip now l ne = elim (Option-cases (lookup ip l.ips)) [
  | inr (b, e) ↦ rw (e, check_ip) (lookup-admit_ip_ne k ip now b l ne)
  | inl e ↦ rw (e, check_ip) (ground (arith, lookup-admit_ip_ne k ip now zero_bucket l ne))
]

-- No call of another address changes the bucket of an address that called within the idle time: a
-- flood of addresses neither evicts it nor fills it, also where the map is full.
pub lookup-allow_ne :
    (k ip : Text) (now : ℕ) (l : Limiter) (b : Bucket)
    → text_eq ip k ≡ false
    → lookup k l.ips ≡ some b
    → now - b.last < l.idle_ttl
    → lookup k (allow ip now l).1.ips ≡ some b
unfolding allow refill_global sweep
lookup-allow_ne k ip now l b ne found active = ground (
  arith,
  lookup-drop_where (λ j c. leb l.idle_ttl (now - c.last)) k l.ips {v = b} found,
  lookup-check_ip_ne k ip now (refill_global now (sweep now l)) ne,
)

-- The bucket of the caller: its own, or a fresh one.
abbrev pub bucket_of : Option Bucket → Bucket
bucket_of none = zero_bucket
bucket_of (some b) = b

-- Who may proceed, in the limiter and with the buckets as the refill leaves them.
abbrev pub may_proceed : Text → ℕ → Limiter → Bool
may_proceed ip now l =
    (is_some (lookup ip l.ips) || ltb (length l.ips) l.max_entries)
    && leb l.unit l.global.tokens
    && leb l.unit (refill now l.ip_rate (l.ip_burst * l.unit) (bucket_of (lookup ip l.ips))).tokens

spend_decides :
    (ip : Text) (b : Bucket) (l : Limiter)
    → is_some (spend ip b l).0 ≡ not (leb l.unit l.global.tokens && leb l.unit b.tokens)
unfolding spend wait
spend_decides ip b l = ground arith

-- A call is let through exactly if its address has a bucket or there is room for one, and both the
-- common bucket and its own hold a token.
pub allow_decides :
    (ip : Text) (now : ℕ) (l : Limiter)
    → is_some (allow ip now l).0 ≡ not (may_proceed ip now (refill_global now (sweep now l)))
unfolding allow check_ip admit_ip
allow_decides ip now l =
    let s = refill_global now (sweep now l) in
    elim (Option-cases (lookup ip s.ips)) [
      | inr (b, e) ↦
          rw (e, check_ip)
            ((spend_decides ip (refill now s.ip_rate (s.ip_burst * s.unit) b)
              (record s { ips = insert ip (refill now s.ip_rate (s.ip_burst * s.unit) b) s.ips })))
      | inl e ↦
          rw (e, check_ip)
            (ground (
              arith,
              spend_decides ip (refill now s.ip_rate (s.ip_burst * s.unit) zero_bucket) (record s {
                ips = insert ip (refill now s.ip_rate (s.ip_burst * s.unit) zero_bucket) s.ips;
              }),
            ))
    ]

-- ===== src/Auth/Limiter.antt =====
-- internal/middleware/zentao_access_limiter.go, but for `clientIP`.
--
-- The tokens of a bucket are floating point numbers in the source. Here they are exact: one token
-- is `unit` parts, and a rate is a number of parts per nanosecond, so a rate of n/d tokens per
-- second is `unit = 1000000000 * d` and the rate n. What rounding does to a bucket is not modelled.
pub mod Funds
pub mod Rate
pub mod Capacity
use zentao_mcp.Base.{
  ℕ, ◌+◌, ◌-◌, ◌*◌, ◌/◌, ◌<◌, ◌≡◌, min, max, Bool, true, false, not, ◌&&◌, Option, none, some, [],
  ltb, leb, ◌==◌, if◌then◌else◌, is_some, length,
}
use zentao_mcp.Base.Text.{Text, codes}
use zentao_mcp.Base.Assoc.{Assoc, lookup, insert, drop_where}
use zentao_mcp.Auth.Options.{minute, hour}
use zentao_mcp.Auth.Errors.{AuthError, auth_throttle_error}

-- `last` is 0 for the zero time.
pub record Bucket : Type 0 where
  pub tokens : ℕ
  pub last : ℕ

abbrev pub zero_bucket : Bucket
zero_bucket = record { tokens = 0; last = 0 }

pub record Limiter : Type 0 where
  pub unit : ℕ
  pub rate : ℕ
  pub ip_rate : ℕ
  pub burst : ℕ
  pub ip_burst : ℕ
  pub global : Bucket
  pub ips : Assoc Bucket
  pub max_entries : ℕ
  pub idle_ttl : ℕ
  pub next_cleanup : ℕ

unfoldable pub new_access_limiter : (unit rate burst ip_rate ip_burst : ℕ) → Limiter
new_access_limiter unit rate burst ip_rate ip_burst = record {
  unit = unit;
  rate = rate;
  ip_rate = ip_rate;
  burst = burst;
  ip_burst = ip_burst;
  global = zero_bucket;
  ips = [];
  max_entries = 2048;
  idle_ttl = 10 * minute;
  next_cleanup = 0;
}

-- `full` is the burst in parts.
unfoldable pub refill : (now rate full : ℕ) → Bucket → Bucket
refill now rate full b = record {
  tokens =
      if b.last == 0
      then full
      else if ltb b.last now
      then min full (b.tokens + (now - b.last) * rate)
      else b.tokens;
  last = now;
}

-- The nanoseconds until the bucket has a token, an hour and one at most; 0 if it has one.
unfoldable pub wait : (unit rate : ℕ) → Bucket → ℕ
wait unit rate b =
    if leb unit b.tokens
    then 0
    else if rate == 0
    then hour + 1
    else min ((unit - b.tokens) / rate) hour + 1

unfoldable pub take_token : ℕ → Bucket → Bucket
take_token unit b = record b { tokens = b.tokens - unit }

unfoldable pub sweep : ℕ → Limiter → Limiter
sweep now l = record l {
  ips =
      if leb l.next_cleanup now
      then drop_where (λ k b. leb l.idle_ttl (now - b.last)) l.ips
      else l.ips;
  next_cleanup = if leb l.next_cleanup now then now + minute else l.next_cleanup;
}

unfoldable pub refill_global : ℕ → Limiter → Limiter
refill_global now l = record l { global = refill now l.rate (l.burst * l.unit) l.global }

-- The end of `allow`, with the bucket of the caller refilled and stored.
unfoldable pub spend : Text → Bucket → Limiter → Option AuthError × Limiter
spend ip b l =
    let pause = max (wait l.unit l.rate l.global) (wait l.unit l.ip_rate b) in
    if ltb 0 pause then (some (auth_throttle_error (codes "请求过于频繁，请稍后重试") pause), l) else (
      none,
      record l { global = take_token l.unit l.global; ips = insert ip (take_token l.unit b) l.ips },
    )

unfoldable pub admit_ip : Text → ℕ → Bucket → Limiter → Option AuthError × Limiter
admit_ip ip now b l =
    let b' = refill now l.ip_rate (l.ip_burst * l.unit) b in
    spend ip b' (record l { ips = insert ip b' l.ips })

unfoldable pub check_ip : Text → ℕ → Limiter → Option AuthError × Limiter
check_ip ip now l = elim (lookup ip l.ips) [
  | some b ↦ admit_ip ip now b l
  | none ↦
      if leb l.max_entries (length l.ips)
      then (some (auth_throttle_error (codes "来源保护容量已满，请稍后重试") minute), l)
      else admit_ip ip now zero_bucket l
]

-- `none` is a call that may proceed.
unfoldable pub allow : Text → ℕ → Limiter → Option AuthError × Limiter
allow ip now l = check_ip ip now (refill_global now (sweep now l))

-- ===== src/Auth/Limiter/Funds.antt =====
-- The rate that the limiter promises to each address. What the limiter stores of an address is
-- weighed against the calls that it let through: tokens are spent, and come back with time only.
use zentao_mcp.Base.{ℕ, suc, ◌+◌, ◌-◌, ◌*◌, ◌≤◌, ◌<◌, ◌≡◌, Option, none, some, leb, if_cases, arith}
use zentao_mcp.Base.Text.{Text}
use zentao_mcp.Base.Unique.{survivor}
use zentao_mcp.Auth.Limiter.{Bucket, zero_bucket, refill, take_token}

pub mul_le : (a b r : ℕ) → a ≤ b → a * r ≤ b * r
mul_le a b r h = grind arith

span : (a b c r : ℕ) → a ≤ b → b ≤ c → (c - a) * r ≡ (b - a) * r + (c - b) * r
span a b c r h k = let e : c - a ≡ (b - a) + (c - b) = omega arith in rw e (omega arith)

-- `n` calls were let through from `start` on, and it is `now`. `r` is the rate in parts, `u` the
-- parts of a token, `f` those of a full bucket.
module _ (u r f start : ℕ) where
  abbrev pub Funds : (n now : ℕ) → Option Bucket → Type 0
  Funds n now none = n * u ≤ (now - start) * r
  Funds n now (some b) =
      (0 < b.last)
      × (start ≤ b.last)
      × (b.last ≤ now)
      × (n * u + b.tokens ≤ f + (b.last - start) * r)

  pub Funds-later :
      (n now later : ℕ) (o : Option Bucket) → now ≤ later → Funds n now o → Funds n later o
  Funds-later n now later none h p =
      omega (arith, mul_le (now - start) (later - start) r (omega arith))
  Funds-later n now later (some b) h p = (p.0, p.1, omega arith, p.3)

  pub Funds-survivor :
      (n now idle : ℕ) (k : Text) (o : Option Bucket)
      → f ≤ idle * r
      → Funds n now o
      → Funds n now (survivor (λ j b. leb idle (now - b.last)) k o)
  Funds-survivor n now idle k none h p = p
  Funds-survivor n now idle k (some b) h p =
      if_cases (Funds n now) (leb idle (now - b.last))
        (λ e.
          omega
            (arith, span start b.last now r p.1 p.2, mul_le idle (now - b.last) r (ground arith)))
        (λ _. p)

  pub Funds-refill_new :
      (n now : ℕ)
      → 0 < now
      → start ≤ now
      → Funds n now none
      → Funds n now (some (refill now r f zero_bucket))
  unfolding refill
  Funds-refill_new n now pos le p = (pos, le, omega arith, omega arith)

  pub Funds-refill :
      (n now : ℕ) (b : Bucket) → Funds n now (some b) → Funds n now (some (refill now r f b))
  unfolding refill
  Funds-refill n now b p =
      (omega arith, omega arith, omega arith, ground (arith, span start b.last now r p.1 p.2))

  pub Funds-take :
      (n now : ℕ) (b : Bucket)
      → u ≤ b.tokens
      → Funds n now (some b)
      → Funds (suc n) now (some (take_token u b))
  unfolding take_token
  Funds-take n now b h p = (p.0, p.1, p.2, omega arith)

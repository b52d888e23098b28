-- ===== src/Tests/LimiterTests.antt =====
-- internal/middleware/zentao_access_limiter.go on concrete inputs.
use zentao_mcp.Base.{
  ◌+◌, ◌-◌, ◌*◌, ◌≤◌, ◌≡◌, refl, not, some, List, [], ◌∷◌, length, is_some, arith,
}
use zentao_mcp.Base.Text.{Text, codes, text_eq}
use zentao_mcp.Base.Assoc.{lookup, insert, drop_where}
use zentao_mcp.Auth.Options.{second}
use zentao_mcp.Auth.Limiter.{
  Limiter, new_access_limiter, allow, refill, wait, take_token, sweep, refill_global, spend,
  admit_ip, check_ip,
}
use zentao_mcp.Auth.Limiter.Rate.{Call, granted, granted_rate, last_time}
use zentao_mcp.Auth.Limiter.Capacity.{
  after, after-length-le, lookup-allow_ne, may_proceed, allow_decides,
}

program : Unit {0}
unfolding allow refill wait take_token sweep refill_global spend admit_ip check_ip
    new_access_limiter lookup insert drop_where text_eq after
program = tt

-- The limiter of password logins: 4 a second and 8 at once, 1 a second and 3 at once per address.
abbrev logins : Limiter
unfolding new_access_limiter
logins = new_access_limiter second 4 8 1 3

abbrev home : Text
home = codes "10.0.0.1"

abbrev away : Text
away = codes "10.0.0.2"

abbrev flood : List Call
flood =
    (home, 1)
    ∷ (home, 1)
    ∷ (home, 1)
    ∷ (home, 1)
    ∷ (away, 2)
    ∷ (home, 2 * second)
    ∷ (home, 2 * second)
    ∷ []

four_get_in : granted home logins flood 0 ≡ 4
unfolding program granted
four_get_in = refl

granted_rate_example :
    granted home (new_access_limiter second 4 8 1 3) flood 0 * second
    ≤ 3 * second + (last_time 1 flood - 1) * 1
granted_rate_example =
    granted_rate second 4 8 1 3 1 home flood (omega arith) (omega arith) (omega arith)

after-length-le_example : length (after (new_access_limiter second 4 8 1 3) flood).ips ≤ 2048
after-length-le_example = after-length-le second 4 8 1 3 flood

abbrev busy : Limiter
unfolding after
busy = after logins flood

lookup-allow_ne_example :
    lookup home (allow away (3 * second) busy).1.ips
    ≡ some (record { tokens = 999999999; last = 2 * second })
unfolding program busy
lookup-allow_ne_example =
    lookup-allow_ne home away (3 * second) busy (record { tokens = 999999999; last = 2 * second })
      refl refl (omega arith)

allow_decides_example :
    is_some (allow away (3 * second) busy).0
    ≡ not (may_proceed away (3 * second) (refill_global (3 * second) (sweep (3 * second) busy)))
allow_decides_example = allow_decides away (3 * second) busy

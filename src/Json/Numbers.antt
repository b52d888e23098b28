-- ===== src/Json/Numbers.antt =====
-- What the program uses of package strconv: decimal text of integers.
use zentao_mcp.Base.{
  ℕ, zero, suc, ◌+◌, ◌-◌, ◌*◌, ◌/◌, ◌%◌, ◌^◌, Bool, true, false, ◌&&◌, Option, none, some, [], ◌∷◌,
  ltb, leb, ◌==◌, if◌then◌else◌,
}
use zentao_mcp.Base.Int.{ℤ, pos, negsuc}
use zentao_mcp.Base.Text.{Text, codes, text_eq}

-- The digits of a number; `fuel` above the number is enough.
digits_from : ℕ → ℕ → Text → Text
digits_from zero n acc = acc
digits_from (suc fuel) n acc =
    let rest = digits_from fuel (n / 10) ((b'0' + n % 10) ∷ acc) in
    if ltb n 10 then (b'0' + n) ∷ acc else rest

unfoldable pub format_nat : ℕ → Text
unfolding digits_from
format_nat n = digits_from (suc n) n []

-- strconv.FormatInt(n, 10)
unfoldable pub format_int : ℤ → Text
unfolding format_nat
format_int (pos n) = format_nat n
format_int (negsuc n) = b'-' ∷ format_nat (suc n)

parse_digits : ℕ → Text → Option ℕ
parse_digits acc [] = some acc
parse_digits acc (c ∷ s) =
    let rest = parse_digits (10 * acc + (c - b'0')) s in
    if leb b'0' c && leb c b'9' then rest else none

parse_nat : Text → Option ℕ
unfolding parse_digits
parse_nat [] = none
parse_nat (c ∷ s) = parse_digits 0 (c ∷ s)

negate : ℕ → ℤ
negate zero = pos zero
negate (suc n) = negsuc n

-- The number if it is at most `bound` in size.
signed : Bool → ℕ → Option ℕ → Option ℤ
unfolding negate
signed negative bound none = none
signed negative bound (some n) =
    if leb n bound then some (if negative then negate n else pos n) else none

parse_sign : ℕ → Text → Option ℤ
unfolding signed parse_nat
parse_sign c s =
    if c == b'-'
    then signed true (2 ^ 63) (parse_nat s)
    else if c == b'+'
    then signed false (2 ^ 63 - 1) (parse_nat s)
    else signed false (2 ^ 63 - 1) (parse_nat (c ∷ s))

-- strconv.Atoi(s), and strconv.ParseInt(s, 10, 64)
unfoldable pub parse_int : Text → Option ℤ
unfolding parse_sign
parse_int [] = none
parse_int (c ∷ s) = parse_sign c s

-- strconv.ParseBool(s)
unfoldable pub parse_bool : Text → Option Bool
parse_bool s =
    if text_eq s (codes "1")
    then some true
    else if text_eq s (codes "t")
    then some true
    else if text_eq s (codes "T")
    then some true
    else if text_eq s (codes "TRUE")
    then some true
    else if text_eq s (codes "true")
    then some true
    else if text_eq s (codes "True")
    then some true
    else if text_eq s (codes "0")
    then some false
    else if text_eq s (codes "f")
    then some false
    else if text_eq s (codes "F")
    then some false
    else if text_eq s (codes "FALSE")
    then some false
    else if text_eq s (codes "false")
    then some false
    else if text_eq s (codes "False")
    then some false
    else none

-- ===== src/Go/Strconv.antt =====
-- Package `strconv`, in base ten: `Itoa` and `FormatInt`, and `Atoi` with its clamping on overflow.
pub mod Trips
use k1s_k8s_operator.Prelude.{
  ℕ, zero, suc, ◌+◌, ◌-◌, ◌*◌, ◌/◌, ◌%◌, ◌^◌, ◌≡◌, refl, code, String, ◌<>◌, ◌||◌, Option, none,
  some, ltb, ◌==◌, nat_eq, if◌then◌else◌, ℤ, pos, negsuc,
}
use k1s_k8s_operator.Go.Text.{char_of}

-- The fuel bounds the number of digits.
digits : ℕ → ℕ → String → String
digits zero n out = out
digits (suc fuel) n out =
    let longer = String.◌∷◌ (char_of (b'0' + n % 10)) out in
    let rest = digits fuel (n / 10) longer in if ltb n 10 then longer else rest

-- A number has at most as many digits as it is large, and zero has one.
unfoldable pub itoa : ℕ → String
unfolding digits char_of
itoa n = digits (suc n) n ""

unfoldable pub format_int : ℤ → String
unfolding itoa
format_int (pos n) = itoa n
format_int (negsuc n) = "-" <> itoa (suc n)

-- What `ParseUint` finds.
pub data Scan : Type 0 where
  number : ℕ → Scan
  syntax : Scan
  range : Scan

-- Overflow of a uint64 is met at the digit that makes it, before the rest is looked at.
unfoldable pub scan : String → ℕ → Scan
scan String.[] n = number n
scan (String.◌∷◌ c s) n =
    let d = code c - b'0' in
    if ltb (code c) b'0' || ltb b'9' (code c)
    then syntax
    else if ltb (2 ^ 64 - 1) (n * 10 + d)
    then range
    else scan s (n * 10 + d)

abbrev pub scan_digits : String → Scan
scan_digits String.[] = syntax
scan_digits (String.◌∷◌ c s) = scan (String.◌∷◌ c s) 0

-- The value and the error, if there is one: a value out of range is clamped.
abbrev pub positive : Scan → ℤ × Option String
positive (number n) =
    if ltb (2 ^ 63 - 1) n then (pos (2 ^ 63 - 1), some "value out of range") else (pos n, none)
positive syntax = (pos 0, some "invalid syntax")
positive range = (pos (2 ^ 63 - 1), some "value out of range")

abbrev pub negated : ℕ → ℤ
negated zero = pos 0
negated (suc n) = negsuc n

abbrev pub negative : Scan → ℤ × Option String
negative (number n) =
    if ltb (2 ^ 63) n then (negsuc (2 ^ 63 - 1), some "value out of range") else (negated n, none)
negative syntax = (pos 0, some "invalid syntax")
negative range = (negsuc (2 ^ 63 - 1), some "value out of range")

-- `strconv.Atoi`
unfoldable pub atoi : String → ℤ × Option String
unfolding scan
atoi String.[] = (pos 0, some "invalid syntax")
atoi (String.◌∷◌ c s) =
    if code c == b'-'
    then negative (scan_digits s)
    else if code c == b'+'
    then positive (scan_digits s)
    else positive (scan_digits (String.◌∷◌ c s))

printed : format_int (pos 404) ≡ "404"
unfolding format_int
printed = refl

printed_negative : format_int (negsuc 119) ≡ "-120"
unfolding format_int
printed_negative = refl

parsed : atoi "399" ≡ (pos 399, none)
unfolding atoi nat_eq
parsed = refl

parsed_negative : atoi "-07" ≡ (negsuc 6, none)
unfolding atoi nat_eq
parsed_negative = refl

clamped : atoi "99999999999999999999x" ≡ (pos (2 ^ 63 - 1), some "value out of range")
unfolding atoi nat_eq
clamped = refl

-- ===== src/Go/Strconv/Trips.antt =====
-- A number that is written in decimal digits is read back.
use k1s_k8s_operator.Prelude.{
  ℕ, zero, suc, ◌+◌, ◌-◌, ◌*◌, ◌/◌, ◌%◌, ◌^◌, ◌≤◌, ◌<◌, ◌≡◌, refl, ap, ◌∙◌, inl, inr, Char, code,
  String, ◌<>◌, true, false, ◌||◌, none, arith, ltb, ◌==◌, nat_eq, ℤ, pos, negsuc, pos_part,
  neg_part, Bool-cases,
}
use text.Mathlib.TextLemmas.{nil-append, cons-append}
use k1s_k8s_operator.Go.Text.{char_of}
use k1s_k8s_operator.Go.Strconv.{
  digits, itoa, format_int, number, scan, scan_digits, positive, negative, atoi,
}

code-digit : (n : ℕ) → code (char_of (b'0' + n % 10)) ≡ b'0' + n % 10
unfolding char_of
code-digit n = ground arith

is_digit : (k : ℕ) → k < 10 → (ltb (b'0' + k) b'0' || ltb b'9' (b'0' + k)) ≡ false
is_digit k h = ground arith

digit_value : (k : ℕ) → b'0' + k - b'0' ≡ k
digit_value k = omega arith

fits : (n : ℕ) → n < 2 ^ 64 → ltb (2 ^ 64 - 1) n ≡ false
fits n h = ground arith

-- one digit is read
scan-digit :
    (n m : ℕ) (s : String)
    → m * 10 + n % 10 < 2 ^ 64
    → scan (String.◌∷◌ (char_of (b'0' + n % 10)) s) m ≡ scan s (m * 10 + n % 10)
unfolding scan
scan-digit n m s h =
    rw (
      code-digit n,
      is_digit (n % 10) (omega arith),
      digit_value (n % 10),
      fits (m * 10 + n % 10) h,
    )

scan-digits :
    (fuel n : ℕ) (out : String) → n < fuel → n < 2 ^ 64 → scan (digits fuel n out) 0 ≡ scan out n
unfolding digits
scan-digits zero n out h b = absurd (omega arith)
scan-digits (suc fuel) n out h b = elim (Bool-cases (ltb n 10)) [
  | inl one ↦ rw one (scan-digit n 0 out (omega arith) ∙ ap (scan out) (small n one))
  | inr more ↦ rw more (
      scan-digits fuel (n / 10) _ (shorter n fuel more h) (omega arith)
      ∙ scan-digit n (n / 10) out (omega arith)
      ∙ ap (scan out) (omega arith))
]
  where
    small : (n : ℕ) → ltb n 10 ≡ true → 0 * 10 + n % 10 ≡ n
    small n one = ground arith

    shorter : (n fuel : ℕ) → ltb n 10 ≡ false → n < suc fuel → n / 10 < fuel
    shorter n fuel more h = ground arith

-- A text of digits behind its first character, which is one.
digits-scan :
    (fuel n : ℕ) (c : Char) (s : String)
    → scan_digits (digits fuel n (String.◌∷◌ c s)) ≡ scan (digits fuel n (String.◌∷◌ c s)) 0
unfolding digits
digits-scan zero n c s = refl
digits-scan (suc fuel) n c s = elim (Bool-cases (ltb n 10)) [
  | inl one ↦ rw one refl
  | inr more ↦ rw more (digits-scan fuel (n / 10) _ _)
]

is_unsigned : (c : Char) → b'0' ≤ code c → ((code c == b'-') ≡ false) × ((code c == b'+') ≡ false)
unfolding nat_eq
is_unsigned c h = ground arith

atoi-digits :
    (fuel n : ℕ) (c : Char) (s : String)
    → b'0' ≤ code c
    → atoi (digits fuel n (String.◌∷◌ c s))
      ≡ positive (scan_digits (digits fuel n (String.◌∷◌ c s)))
unfolding digits atoi
atoi-digits zero n c s h = let (minus, plus) = is_unsigned c h in rw (minus, plus)
atoi-digits (suc fuel) n c s h = elim (Bool-cases (ltb n 10)) [
  | inl one ↦
      let (minus, plus) = is_unsigned (char_of (b'0' + n % 10)) first in rw (one, minus, plus)
  | inr more ↦ rw more (atoi-digits fuel (n / 10) _ _ first)
]
  where
    first : b'0' ≤ code (char_of (b'0' + n % 10))
    first = rw (code-digit n) (omega arith)

itoa-scan : (n : ℕ) → scan_digits (itoa n) ≡ scan (itoa n) 0
unfolding itoa digits
itoa-scan n = elim (Bool-cases (ltb n 10)) [
  | inl one ↦ rw one refl
  | inr more ↦ rw more (digits-scan n (n / 10) _ _)
]

scan_digits-itoa : (n : ℕ) → n < 2 ^ 64 → scan_digits (itoa n) ≡ number n
unfolding itoa scan
scan_digits-itoa n b = itoa-scan n ∙ scan-digits (suc n) n "" (omega arith) b

atoi-itoa : (n : ℕ) → atoi (itoa n) ≡ positive (scan_digits (itoa n))
unfolding itoa digits atoi
atoi-itoa n = elim (Bool-cases (ltb n 10)) [
  | inl one ↦
      let (minus, plus) = is_unsigned (char_of (b'0' + n % 10)) first in rw (one, minus, plus)
  | inr more ↦ rw more (atoi-digits n (n / 10) _ _ first)
]
  where
    first : b'0' ≤ code (char_of (b'0' + n % 10))
    first = rw (code-digit n) (omega arith)

atoi-minus : (t : String) → atoi ("-" <> t) ≡ negative (scan_digits t)
unfolding atoi nat_eq
atoi-minus t = rw (cons-append _ "" t, nil-append t) refl

-- The values of an int64.
abbrev pub InInt64 : ℤ → Type 0
InInt64 i = (neg_part i ≤ 2 ^ 63) × (pos_part i ≤ 2 ^ 63 - 1)

positive-number : (n : ℕ) → n ≤ 2 ^ 63 - 1 → positive (number n) ≡ (pos n, none)
positive-number n h = ground arith

negative-number : (n : ℕ) → suc n ≤ 2 ^ 63 → negative (number (suc n)) ≡ (negsuc n, none)
negative-number n h = ground arith

-- `Atoi` reads back what `FormatInt` wrote of an int64.
pub atoi-format_int : (i : ℤ) → InInt64 i → atoi (format_int i) ≡ (i, none)
unfolding format_int
atoi-format_int (pos n) (_, h) =
    atoi-itoa n ∙ ap positive (scan_digits-itoa n (omega arith)) ∙ positive-number n h
atoi-format_int (negsuc n) (h, _) =
    atoi-minus (itoa (suc n))
    ∙ ap negative (scan_digits-itoa (suc n) (omega arith))
    ∙ negative-number n h

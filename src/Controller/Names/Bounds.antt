-- ===== src/Controller/Names/Bounds.antt =====
-- The form of the names of what an exposure owns.
use Prim.Native.Nat.{compare, Ordering}
use Prim.Native.Char.{len_utf8}
use Prim.Native.String.{fits}
use Prim.Native.String.slice as slice_clauses
use Prim.Native.String.len as len_clauses
use native.Mathlib.Omega.{compare-lt, compare-eq}
use text.Mathlib.TextPositions.{len_utf8-pos}
use k1s_k8s_operator.Prelude.{
  ℕ, ◌+◌, ◌-◌, ◌≤◌, ◌≡◌, refl, Char, code, String, len, slice, Bool, Bool-cases, inl, inr, arith,
  ltb, ◌==◌, string_eq, nat_eq, true, false, ◌||◌,
}
use k1s_k8s_operator.Go.Text.{trim_right, snoc_trim, trim, trim_space, to_lower, replace_all}
use k1s_k8s_operator.Go.Text.Trimming.{
  Begins, Ends, trim_right-Begins, trim_right-Ends, trim-Begins, trim-Ends, Ends-of_narrower,
}
use k1s_k8s_operator.Controller.Names.{hyphen, hyphen_or_dot, or_k1s, shortened, dns_label}

len-cons : (c : Char) (s : String) → len (String.◌∷◌ c s) ≡ len_utf8 c + len s
len-cons c s = len_clauses.cons c s

-- A slice from the start of a text has at most the bytes it was asked for.
fits-le :
    (c : Char) (r : String) (k : ℕ)
    → len r ≤ k - len_utf8 c
    → (o : Ordering) → compare (len_utf8 c) k ≡ o
    → len (fits o c r) ≤ k
fits-le c r k h Ordering.lt e =
    let lt = compare-lt (len_utf8 c) k e in rw (len-cons c r) (omega arith)
fits-le c r k h Ordering.eq e =
    let eq = compare-eq (len_utf8 c) k e in rw (len-cons c r) (omega arith)
fits-le c r k h Ordering.gt e = omega arith

len-slice : (s : String) (k : ℕ) → len (slice s 0 k) ≤ k
len-slice String.[] k = rw (slice_clauses.nil 0 k) (omega arith)
len-slice (String.◌∷◌ c s) k =
    rw (slice_clauses.cons-zero c s k)
      (fits-le c (slice s 0 (k - len_utf8 c)) k (len-slice s (k - len_utf8 c)) _ refl)

module _ (p : ℕ → Bool) where
  len-snoc_trim : (c : Char) (t : String) → len (snoc_trim p c t) ≤ len_utf8 c + len t
  len-snoc_trim c String.[] = elim (Bool-cases (p (code c))) [
    | inl cut ↦ rw cut (omega arith)
    | inr kept ↦ rw kept (rw (len-cons c "") (omega arith))
  ]
  len-snoc_trim c (String.◌∷◌ d t) = rw (len-cons c (String.◌∷◌ d t)) (omega arith)

  len-trim_right : (s : String) → len (trim_right p s) ≤ len s
  unfolding trim_right
  len-trim_right String.[] = omega arith
  len-trim_right (String.◌∷◌ c s) =
      let rest = len-trim_right s in
      let step = len-snoc_trim c (trim_right p s) in rw (len-cons c s) (omega arith)

len-shortened : (value : String) → len (shortened value) ≤ 63
unfolding shortened
len-shortened value = elim (Bool-cases (ltb 63 (len value))) [
  | inl long ↦
      let trimmed = len-trim_right hyphen (slice value 0 63) in
      let cut = len-slice value 63 in rw long (omega arith)
  | inr short ↦ rw short (ground arith)
]

-- A text of 1 to 63 bytes that begins with no hyphen and no dot and ends with no hyphen.
abbrev pub IsLabel : String → Type 0
IsLabel value =
    (1 ≤ len value) × (len value ≤ 63) × (Begins hyphen_or_dot value) × (Ends hyphen value)

-- the same without the lower bound
abbrev Fits : String → Type 0
Fits value = (len value ≤ 63) × (Begins hyphen_or_dot value) × (Ends hyphen value)

fits-Begins :
    (p : ℕ → Bool) (c : Char) (r : String)
    → p (code c) ≡ false
    → (o : Ordering) → Begins p (fits o c r)
fits-Begins p c r h Ordering.lt = h
fits-Begins p c r h Ordering.eq = h
fits-Begins p c r h Ordering.gt = tt

slice-Begins : (p : ℕ → Bool) (s : String) (k : ℕ) → Begins p s → Begins p (slice s 0 k)
slice-Begins p String.[] k h = rw (slice_clauses.nil 0 k) tt
slice-Begins p (String.◌∷◌ c s) k h =
    rw (slice_clauses.cons-zero c s k) (fits-Begins p c (slice s 0 (k - len_utf8 c)) h _)

left_false : (a b : Bool) → (a || b) ≡ false → a ≡ false
left_false true b h = h
left_false false b h = refl

shortened-Fits :
    (value : String)
    → Begins hyphen_or_dot value
    → Ends hyphen_or_dot value
    → Fits (shortened value)
unfolding shortened
shortened-Fits value begins ends = elim (Bool-cases (ltb 63 (len value))) [
  | inl long ↦
      let taken = slice value 0 63 in
      let started = slice-Begins hyphen_or_dot value 63 begins in
      let size = len-shortened value in
      (
        size,
        rw long (trim_right-Begins hyphen_or_dot hyphen taken started),
        rw long (trim_right-Ends hyphen taken),
      )
  | inr short ↦ (
    len-shortened value,
    rw short begins,
    rw short (Ends-of_narrower (λ c. left_false (hyphen c) (c == b'.')) value ends),
  )
]

or_k1s-IsLabel : (value : String) → Fits value → IsLabel (or_k1s value)
unfolding or_k1s string_eq nat_eq
or_k1s-IsLabel String.[] h = (omega arith, omega arith, refl, refl)
or_k1s-IsLabel (String.◌∷◌ c s) h =
    let w = len_utf8-pos c in
    let n = len-cons c s in
    elim (Bool-cases (String.◌∷◌ c s == "")) [
      | inl empty ↦ rw empty (omega arith, omega arith, refl, refl)
      | inr kept ↦ rw kept (omega arith, h.0, h.1, h.2)
    ]

-- Whatever the text, the label made of it has 1 to 63 bytes, does not begin with a hyphen or a dot, and does
-- not end with a hyphen.
pub dns_label-IsLabel : (value : String) → IsLabel (dns_label value)
unfolding dns_label
dns_label-IsLabel value =
    let plain = replace_all (to_lower (trim_space value)) b'_' "-" in
    let cleaned = trim hyphen_or_dot plain in
    or_k1s-IsLabel (shortened cleaned)
      (shortened-Fits cleaned (trim-Begins hyphen_or_dot plain) (trim-Ends hyphen_or_dot plain))

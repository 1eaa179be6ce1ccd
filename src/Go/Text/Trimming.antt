-- ===== src/Go/Text/Trimming.antt =====
-- Trimming: how a trimmed text begins and ends, and that trimming it again changes nothing.
use k1s_k8s_operator.Prelude.{
  ℕ, ◌≡◌, refl, ◌∙◌, ap, Char, code, String, Bool, false, Bool-cases, inl, inr,
}
use k1s_k8s_operator.Go.Text.{is_space, trim_left, trim_right, snoc_trim, trim, trim_space}

module _ (p : ℕ → Bool) where
  -- A text that does not begin with a character to trim.
  abbrev pub Begins : String → Type 0
  Begins String.[] = Unit
  Begins (String.◌∷◌ c s) = p (code c) ≡ false

  -- A text that does not end with a character to trim.
  abbrev pub Ends : String → Type 0
  Ends String.[] = Unit
  Ends (String.◌∷◌ c String.[]) = p (code c) ≡ false
  Ends (String.◌∷◌ c (String.◌∷◌ d s)) = Ends (String.◌∷◌ d s)

  trim_left-Begins : (s : String) → Begins (trim_left p s)
  unfolding trim_left
  trim_left-Begins String.[] = tt
  trim_left-Begins (String.◌∷◌ c s) = elim (Bool-cases (p (code c))) [
    | inl cut ↦ rw cut (trim_left-Begins s)
    | inr kept ↦ rw kept kept
  ]

  trim_left_of_Begins : (s : String) → Begins s → trim_left p s ≡ s
  unfolding trim_left
  trim_left_of_Begins String.[] h = refl
  trim_left_of_Begins (String.◌∷◌ c s) h = rw h

  snoc_trim-Begins :
      (q : ℕ → Bool) (c : Char) (t : String) → p (code c) ≡ false → Begins (snoc_trim q c t)
  snoc_trim-Begins q c String.[] h = elim (Bool-cases (q (code c))) [
    | inl cut ↦ rw cut tt
    | inr kept ↦ rw kept h
  ]
  snoc_trim-Begins q c (String.◌∷◌ d t) h = h

  -- What is trimmed at the right, of whatever characters, begins as before.
  pub trim_right-Begins : (q : ℕ → Bool) (s : String) → Begins s → Begins (trim_right q s)
  unfolding trim_right
  trim_right-Begins q String.[] h = tt
  trim_right-Begins q (String.◌∷◌ c s) h = snoc_trim-Begins q c (trim_right q s) h

  snoc_trim-Ends : (c : Char) (t : String) → Ends t → Ends (snoc_trim p c t)
  snoc_trim-Ends c String.[] h = elim (Bool-cases (p (code c))) [
    | inl cut ↦ rw cut tt
    | inr kept ↦ rw kept kept
  ]
  snoc_trim-Ends c (String.◌∷◌ d t) h = h

  pub trim_right-Ends : (s : String) → Ends (trim_right p s)
  unfolding trim_right
  trim_right-Ends String.[] = tt
  trim_right-Ends (String.◌∷◌ c s) = snoc_trim-Ends c (trim_right p s) (trim_right-Ends s)

  pub trim-Begins : (s : String) → Begins (trim p s)
  unfolding trim
  trim-Begins s = trim_right-Begins p (trim_left p s) (trim_left-Begins s)

  pub trim-Ends : (s : String) → Ends (trim p s)
  unfolding trim
  trim-Ends s = trim_right-Ends (trim_left p s)

  trim_right-snoc_trim :
      (c : Char) (t : String)
      → trim_right p t ≡ t
      → trim_right p (snoc_trim p c t) ≡ snoc_trim p c t
  unfolding trim_right
  trim_right-snoc_trim c String.[] h = elim (Bool-cases (p (code c))) [
    | inl cut ↦ rw cut
    | inr kept ↦ rw (kept, kept)
  ]
  trim_right-snoc_trim c (String.◌∷◌ d t) h = ap (snoc_trim p c) h

  trim_right-trim_right : (s : String) → trim_right p (trim_right p s) ≡ trim_right p s
  unfolding trim_right
  trim_right-trim_right String.[] = refl
  trim_right-trim_right (String.◌∷◌ c s) =
      trim_right-snoc_trim c (trim_right p s) (trim_right-trim_right s)

  pub trim-trim : (s : String) → trim p (trim p s) ≡ trim p s
  unfolding trim
  trim-trim s =
      ap (trim_right p)
        (trim_left_of_Begins _ (trim_right-Begins p (trim_left p s) (trim_left-Begins s)))
      ∙ trim_right-trim_right (trim_left p s)

-- A text that ends with no character of one kind ends with none of a narrower kind.
pub Ends-of_narrower :
    {p q : ℕ → Bool} → ((c : ℕ) → p c ≡ false → q c ≡ false) → (s : String) → Ends p s → Ends q s
Ends-of_narrower narrower String.[] h = tt
Ends-of_narrower narrower (String.◌∷◌ c String.[]) h = narrower (code c) h
Ends-of_narrower narrower (String.◌∷◌ c (String.◌∷◌ d s)) h =
    Ends-of_narrower narrower (String.◌∷◌ d s) h

pub trim_space-trim_space : (s : String) → trim_space (trim_space s) ≡ trim_space s
unfolding trim_space
trim_space-trim_space s = trim-trim is_space s

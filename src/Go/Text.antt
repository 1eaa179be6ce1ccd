-- ===== src/Go/Text.antt =====
-- Package `strings`. A Go string is a native text: its bytes are the UTF-8 of its characters.
-- Letter case is that of ASCII, which is all that Kubernetes names and the k1s words use.

pub mod Trimming
use Prim.Native.Char.{char, nul, IsScalar}
use mathlib.Core.Logic.{dite}
use native.Mathlib.Decide.{dec_lt}
use k1s_k8s_operator.Prelude.{
  ℕ, ◌+◌, ◌<◌, ◌≡◌, refl, Char, code, String, ◌<>◌, Bool, false, ◌&&◌, ◌||◌, List, [], ◌∷◌, Option,
  none, some, arith, leb, ◌==◌, nat_eq, string_eq, if◌then◌else◌,
}

-- `unicode.IsSpace`
unfoldable pub is_space : ℕ → Bool
is_space c =
    (leb 9 c && leb c 13)
    || c == 32
    || c == 0x85
    || c == 0xa0
    || c == 0x1680
    || (leb 0x2000 c && leb c 0x200a)
    || c == 0x2028
    || c == 0x2029
    || c == 0x202f
    || c == 0x205f
    || c == 0x3000

module _ (p : ℕ → Bool) where
  -- `strings.TrimLeftFunc`
  unfoldable pub trim_left : String → String
  trim_left String.[] = ""
  trim_left (String.◌∷◌ c s) = let rest = trim_left s in if p (code c) then rest else String.◌∷◌ c s

  -- a character before a text that is already trimmed
  abbrev pub snoc_trim : Char → String → String
  snoc_trim c String.[] = if p (code c) then "" else String.◌∷◌ c ""
  snoc_trim c (String.◌∷◌ d s) = String.◌∷◌ c (String.◌∷◌ d s)

  -- `strings.TrimRightFunc`
  unfoldable pub trim_right : String → String
  trim_right String.[] = ""
  trim_right (String.◌∷◌ c s) = snoc_trim c (trim_right s)

  -- `strings.TrimFunc`
  unfoldable pub trim : String → String
  unfolding trim_left trim_right
  trim s = trim_right (trim_left s)

-- `strings.TrimSpace`
unfoldable pub trim_space : String → String
unfolding trim is_space
trim_space = trim is_space

pub IsScalar-of_lt : (n : ℕ) → n < 55296 → IsScalar n
IsScalar-of_lt n h = ground arith

-- The character with a code below the surrogates.
unfoldable pub char_of : ℕ → Char
unfolding dec_lt
char_of n = dite (dec_lt n 55296) (λ h. char n (IsScalar-of_lt n h)) (λ _. nul)

-- `strings.ToLower`, a character
unfoldable pub lower : Char → Char
unfolding char_of
lower c = if leb b'A' (code c) && leb (code c) b'Z' then char_of (code c + 32) else c

-- `strings.ToLower`
unfoldable pub to_lower : String → String
unfolding lower
to_lower String.[] = ""
to_lower (String.◌∷◌ c s) = String.◌∷◌ (lower c) (to_lower s)

-- `strings.EqualFold`
unfoldable pub equal_fold : String → String → Bool
unfolding to_lower
equal_fold s t = to_lower s == to_lower t

-- `strings.ReplaceAll` of a one-character text
unfoldable pub replace_all : String → ℕ → String → String
replace_all String.[] old new = ""
replace_all (String.◌∷◌ c s) old new =
    if code c == old then new <> replace_all s old new else String.◌∷◌ c (replace_all s old new)

-- `strings.Contains` of a one-character text
unfoldable pub contains_char : String → ℕ → Bool
contains_char String.[] b = false
contains_char (String.◌∷◌ c s) b = code c == b || contains_char s b

-- `strings.HasSuffix` with a one-character suffix
unfoldable pub has_suffix : String → ℕ → Bool
has_suffix String.[] b = false
has_suffix (String.◌∷◌ c String.[]) b = code c == b
has_suffix (String.◌∷◌ c (String.◌∷◌ d s)) b = has_suffix (String.◌∷◌ d s) b

-- `strings.SplitN(s, sep, 2)` at a one-character separator: the text before the first one, and the
-- text behind it if there is one.
unfoldable pub split_n2 : String → ℕ → String × Option String
split_n2 String.[] sep = ("", none)
split_n2 (String.◌∷◌ c s) sep =
    let (before, behind) = split_n2 s sep in
    if code c == sep then ("", some s) else (String.◌∷◌ c before, behind)

-- the first part takes one more character in front
abbrev pub grow : Char → List String → List String
grow c [] = String.◌∷◌ c "" ∷ []
grow c (p ∷ ps) = String.◌∷◌ c p ∷ ps

-- `strings.Split` at a one-character separator
unfoldable pub split : String → ℕ → List String
split String.[] sep = "" ∷ []
split (String.◌∷◌ c s) sep =
    let parts = split s sep in if code c == sep then "" ∷ parts else grow c parts

-- `strings.Join`
unfoldable pub join : List String → String → String
join [] sep = ""
join (p ∷ []) sep = p
join (p ∷ q ∷ ps) sep = p <> (sep <> join (q ∷ ps) sep)

trimmed : trim_space " \ta b \n" ≡ "a b"
unfolding trim_space nat_eq
trimmed = refl

lowered : to_lower "Ab_Z9" ≡ "ab_z9"
unfolding to_lower
lowered = refl

replaced : replace_all "a/b/" b'/' "--" ≡ "a--b--"
unfolding replace_all nat_eq
replaced = refl

split_parts : split ",a,,b" b',' ≡ "" ∷ "a" ∷ "" ∷ "b" ∷ []
unfolding split nat_eq
split_parts = refl

split_once : split_n2 "200-299-3" b'-' ≡ ("200", some "299-3")
unfolding split_n2 nat_eq
split_once = refl

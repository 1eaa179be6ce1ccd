-- ===== src/Manager/Trips.antt =====
-- A list that `strings.Join` writes at commas, as main does for the default of a flag, is read back.
use Prim.Native.String.append as append_clauses
use k1s_k8s_operator.Prelude.{
  String, ◌<>◌, ◌≡◌, refl, ap, ◌∙◌, Char, code, false, List, [], ◌∷◌, ◌==◌, nat_eq, string_eq, All,
  arith,
}
use k1s_k8s_operator.Go.Text.{contains_char, split, join, trim_space}
use k1s_k8s_operator.Controller.Kinds.Laws.{Distinct, IsKind}
use k1s_k8s_operator.Manager.{csv_into, csv_values}
use k1s_k8s_operator.Manager.Flags.{csv_into-normalize, normalize_into-normal}

abbrev comma : Char
comma = ","

-- A value without a comma.
abbrev pub IsPart : String → Type 0
IsPart value = contains_char value b',' ≡ false

split-part : (p : String) → IsPart p → split p b',' ≡ p ∷ []
unfolding split contains_char
split-part String.[] h = refl
split-part (String.◌∷◌ c s) h =
    let other : (code c == b',') ≡ false = ground (arith, h) in
    let rest : IsPart s = ground (arith, h) in rw (other, split-part s rest)

split-comma : (p s : String) → IsPart p → split (p <> ("," <> s)) b',' ≡ p ∷ split s b','
unfolding split contains_char
split-comma String.[] s h =
    rw (append_clauses.nil ("," <> s))
      (rw (append_clauses.cons comma "" s) (rw (append_clauses.nil s) (ground arith)))
split-comma (String.◌∷◌ c p) s h =
    let other : (code c == b',') ≡ false = ground (arith, h) in
    let rest : IsPart p = ground (arith, h) in
    rw (append_clauses.cons c p ("," <> s)) (rw (other, split-comma p s rest))

split-join :
    (k : String) (ks : List String) → All IsPart (k ∷ ks) → split (join (k ∷ ks) ",") b',' ≡ k ∷ ks
unfolding join
split-join k [] (h, _) = split-part k h
split-join k (j ∷ ks) (h, hs) =
    split-comma k (join (j ∷ ks) ",") h ∙ ap (λ l. k ∷ l) (split-join j ks hs)

-- A list of values without commas, none of them blank or with spaces round it, and each once, is read as it
-- was before it was joined at commas.
pub csv_values-join :
    (ks : List String) → Distinct ks → All IsKind ks → All IsPart ks → csv_values (join ks ",") ≡ ks
unfolding csv_values join split csv_into trim_space string_eq nat_eq
csv_values-join [] d h parts = refl
csv_values-join (k ∷ ks) d h parts =
    ap (λ l. csv_into l []) (split-join k ks parts)
    ∙ csv_into-normalize (k ∷ ks) []
    ∙ normalize_into-normal (k ∷ ks) [] d h (λ j listed. refl)

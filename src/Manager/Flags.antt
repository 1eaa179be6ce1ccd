-- ===== src/Manager/Flags.antt =====
-- The lists that the flags give are in the normal form of the controllers.
use k1s_k8s_operator.Prelude.{
  String, ◌≡◌, ◌≢◌, refl, sym, ap, ◌∙◌, true, false, not, ◌&&◌, List, [], ◌∷◌, ◌++◌, map, arith,
  ◌==◌, contains, string_eq, All, append_assoc, append-nil, Bool-cases, inl, inr,
}
use k1s_k8s_operator.Go.Text.{trim_space, split}
use k1s_k8s_operator.Controller.Kinds.{
  normalize_into, normalize_kind_list, or_default_kinds, kind_cap,
}
use k1s_k8s_operator.Controller.Kinds.Laws.{
  Distinct, IsKind, contains-append, normalize_kind_list_lem,
}
use k1s_k8s_operator.Manager.{csv_into, csv_values, watch_namespaces}

pub csv_into-normalize :
    (raws values : List String) → csv_into raws values ≡ normalize_into raws values
unfolding csv_into normalize_into
csv_into-normalize [] values = refl
csv_into-normalize (raw ∷ raws) values = elim (Bool-cases (trim_space raw == "")) [
  | inl blank ↦ rw (blank, csv_into-normalize raws values)
  | inr named ↦ elim (Bool-cases (contains values (trim_space raw))) [
    | inl seen ↦ rw (named, seen, csv_into-normalize raws values)
    | inr fresh ↦ rw (named, fresh, csv_into-normalize raws (values ++ trim_space raw ∷ []))
  ]
]

pub still_apart :
    (ks out : List String) (k : String)
    → contains ks k ≡ false
    → ((j : String) → contains (k ∷ ks) j ≡ true → contains out j ≡ false)
    → (j : String) → contains ks j ≡ true
    → contains (out ++ k ∷ []) j ≡ false
still_apart ks out k dk apart j listed = ground (arith, contains-append out (k ∷ []) j, apart j)

-- A list in normal form is its own normal form.
pub normalize_into-normal :
    (ks out : List String)
    → Distinct ks
    → All IsKind ks
    → ((k : String) → contains ks k ≡ true → contains out k ≡ false)
    → normalize_into ks out ≡ out ++ ks
unfolding normalize_into
normalize_into-normal [] out d h apart = sym (append-nil out)
normalize_into-normal (k ∷ ks) out (dk, d) ((named, bare), h) apart =
    let some_text : (k == "") ≡ false = ground (arith, named) in
    let fresh : contains out k ≡ false = apart k (ground arith) in
    rw (bare, some_text, fresh)
      (normalize_into-normal ks (out ++ k ∷ []) d h (still_apart ks out k dk apart)
        ∙ append_assoc out (k ∷ []) ks)

-- A list among the flags is read as its values at the commas, trimmed, without the blank ones, and with
-- each one once.
pub watch_namespaces_lem :
    (raw : String)
    → Distinct (watch_namespaces raw)
      × All IsKind (watch_namespaces raw)
      × ((k : String)
          → contains (watch_namespaces raw) k
            ≡ (not (k == "") && contains (map trim_space (split raw b',')) k))
unfolding watch_namespaces csv_values
watch_namespaces_lem raw =
    unfold normalize_kind_list in rw csv_into-normalize (normalize_kind_list_lem (split raw b','))

normal_again : (raw : String) → normalize_kind_list (csv_values raw) ≡ csv_values raw
unfolding normalize_kind_list watch_namespaces
normal_again raw =
    let (d, h, _) = watch_namespaces_lem raw in
    normalize_into-normal (csv_values raw) [] d h (λ k listed. refl)

or_default_kinds-some : (ks : List String) → ks ≢ [] → or_default_kinds ks ≡ ks
or_default_kinds-some [] h = absurd (h refl)
or_default_kinds-some (k ∷ ks) h = refl

-- The cap on kinds that a flag gives is taken as it is, unless it is empty.
pub kind_cap-csv_values :
    (raw : String) → csv_values raw ≢ [] → kind_cap (csv_values raw) ≡ csv_values raw
unfolding kind_cap
kind_cap-csv_values raw some_kind =
    ap or_default_kinds (normal_again raw) ∙ or_default_kinds-some (csv_values raw) some_kind

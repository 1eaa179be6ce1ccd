-- ===== src/Controller/Kinds/Laws.antt =====
-- The normal form of a list of kinds, and the policy: a set can narrow the operator's cap only.
use k1s_k8s_operator.Prelude.{
  String, ◌≡◌, ◌≢◌, refl, ◌∙◌, true, false, not, ◌&&◌, ◌||◌, List, [], ◌∷◌, ◌++◌, map, arith, ◌==◌,
  contains, string_eq, if◌then◌else◌, All,
}
use k1s_k8s_operator.Go.Text.{trim_space}
use k1s_k8s_operator.Go.Text.Trimming.{trim_space-trim_space}
use k1s_k8s_operator.Go.Errors.{Result, ok, err}
use k1s_k8s_operator.Controller.Kinds.{
  normalize_into, normalize_kind_list, KindSet, kind_set, kind_cap, check_requested, chosen, policy,
  allowed_kinds_for,
}

pub contains-append :
    (xs ys : List String) (k : String) → contains (xs ++ ys) k ≡ (contains xs k || contains ys k)
contains-append [] ys k = refl
contains-append (x ∷ xs) ys k = ground (arith, contains-append xs ys k)

-- No text is listed twice.
abbrev pub Distinct : List String → Type 0
Distinct [] = Unit
Distinct (x ∷ xs) = (contains xs x ≡ false) × Distinct xs

Distinct-append_one :
    (xs : List String) (k : String) → Distinct xs → contains xs k ≡ false → Distinct (xs ++ k ∷ [])
Distinct-append_one [] k d fresh = (refl, tt)
Distinct-append_one (x ∷ xs) k (dx, d) fresh =
    (ground (arith, contains-append xs (k ∷ []) x), Distinct-append_one xs k d (ground arith))

-- A kind that is neither blank nor surrounded by spaces.
abbrev pub IsKind : String → Type 0
IsKind k = (k ≢ "") × (trim_space k ≡ k)

All-append_one :
    (xs : List String) (k : String) → All IsKind xs → IsKind k → All IsKind (xs ++ k ∷ [])
All-append_one [] k h hk = (hk, tt)
All-append_one (x ∷ xs) k (hx, h) hk = (hx, All-append_one xs k h hk)

-- What one round of the loop makes of the kinds found so far.
abbrev found_with : List String → String → List String
found_with out kind = if kind == "" || contains out kind then out else out ++ kind ∷ []

contains-found_with :
    (out : List String) (kind k : String)
    → contains (found_with out kind) k ≡ (contains out k || not (k == "") && k == kind)
contains-found_with out kind k = ground (arith, contains-append out (kind ∷ []) k)

contains-normalize_into :
    (ks out : List String) (k : String)
    → contains (normalize_into ks out) k
      ≡ (contains out k || not (k == "") && contains (map trim_space ks) k)
unfolding normalize_into
contains-normalize_into [] out k = ground arith
contains-normalize_into (raw ∷ ks) out k = ground (
  arith,
  contains-normalize_into ks (found_with out (trim_space raw)) k,
  contains-found_with out (trim_space raw) k,
)

found_with-Distinct :
    (out : List String) (raw : String)
    → Distinct out
    → All IsKind out
    → Distinct (found_with out (trim_space raw)) × All IsKind (found_with out (trim_space raw))
found_with-Distinct out raw d h = ground (
  arith,
  Distinct-append_one out (trim_space raw) d,
  All-append_one out (trim_space raw) h,
  trim_space-trim_space raw,
)

normalize_into-Distinct :
    (ks out : List String)
    → Distinct out
    → All IsKind out
    → Distinct (normalize_into ks out) × All IsKind (normalize_into ks out)
unfolding normalize_into
normalize_into-Distinct [] out d h = (d, h)
normalize_into-Distinct (raw ∷ ks) out d h =
    let (d', h') = found_with-Distinct out raw d h in
    normalize_into-Distinct ks (found_with out (trim_space raw)) d' h'

-- The normal form lists each kind once, none of them blank or with spaces round it, and exactly those
-- that the trimmed list has.
pub normalize_kind_list_lem :
    (ks : List String)
    → Distinct (normalize_kind_list ks)
      × All IsKind (normalize_kind_list ks)
      × ((k : String)
          → contains (normalize_kind_list ks) k ≡ (not (k == "") && contains (map trim_space ks) k))
unfolding normalize_kind_list
normalize_kind_list_lem ks =
    let (d, h) = normalize_into-Distinct ks [] tt tt in (d, h, contains-normalize_into ks [])

-- The check lets a list through only when the cap has all of it.
check_requested-eq-ok :
    (limit : KindSet) (ks : List String)
    → check_requested limit ks ≡ ok tt
    → (k : String) → contains ks k ≡ true
    → contains limit k ≡ true
unfolding check_requested
check_requested-eq-ok limit [] h k e = cc
check_requested-eq-ok limit (j ∷ ks) h k e =
    ground (arith, λ (r : check_requested limit ks ≡ ok tt). check_requested-eq-ok limit ks r k)

-- The requested kinds that the policy takes: the whole cap where none is requested.
chosen-narrows :
    (limit requested : List String)
    → ((k : String) → contains requested k ≡ true → contains limit k ≡ true)
    → (k : String) → contains (chosen limit requested) k ≡ true
    → contains limit k ≡ true
unfolding kind_set
chosen-narrows limit [] h k e = e
chosen-narrows limit (j ∷ js) h k e = h k e

contains-chosen :
    (limit requested : List String) (k : String)
    → requested ≢ []
    → contains (chosen limit requested) k ≡ contains requested k
unfolding kind_set
contains-chosen limit [] k h = absurd (h refl)
contains-chosen limit (j ∷ js) k h = refl

policy-eq-ok :
    (limit requested : List String) (r : Result (Unit {0})) {allowed : KindSet}
    → policy limit requested r ≡ ok allowed
    → (r ≡ ok tt) × (allowed ≡ chosen limit requested)
policy-eq-ok limit requested (ok _) h = (refl, cc)
policy-eq-ok limit requested (err e) h = cc

module _ (configured spec_kinds : List String) where
  -- A policy that is granted allows no kind outside the operator's cap. If the set requests kinds, it
  -- allows those of them, trimmed, that are not blank, and no others; if it requests none, the cap.
  pub allowed_kinds_for_lem :
      {allowed : KindSet}
      → allowed_kinds_for configured spec_kinds ≡ ok allowed
      → ((k : String) → contains allowed k ≡ true → contains (kind_cap configured) k ≡ true)
        × (normalize_kind_list spec_kinds ≢ []
            → (k : String)
            → contains allowed k ≡ (not (k == "") && contains (map trim_space spec_kinds) k))
        × (normalize_kind_list spec_kinds ≡ [] → allowed ≡ kind_cap configured)
  unfolding allowed_kinds_for kind_set
  allowed_kinds_for_lem granted =
      let limit = kind_cap configured in
      let requested = normalize_kind_list spec_kinds in
      let (checked, same) =
        policy-eq-ok limit requested (check_requested limit requested) granted in
      rw same (
        chosen-narrows limit requested (check_requested-eq-ok limit requested checked),
        λ some_kind k.
            contains-chosen limit requested k some_kind ∙ (normalize_kind_list_lem spec_kinds).2 k,
        λ no_kind. rw no_kind,
      )

  -- A set that requests a kind outside the cap is refused.
  allowed_kinds_for_refused :
      (k : String)
      → k ≢ ""
      → contains (map trim_space spec_kinds) k ≡ true
      → contains (kind_cap configured) k ≡ false
      → (allowed : KindSet) → allowed_kinds_for configured spec_kinds ≢ ok allowed
  unfolding allowed_kinds_for kind_set
  allowed_kinds_for_refused k named asked outside allowed granted =
      let limit = kind_cap configured in
      let requested = normalize_kind_list spec_kinds in
      let (checked, same) =
        policy-eq-ok limit requested (check_requested limit requested) granted in
      ground (
        arith,
        (normalize_kind_list_lem spec_kinds).2 k,
        check_requested-eq-ok limit requested checked k,
      )

-- ===== src/Controller/Managed/Keys.antt =====
-- The key of a managed resource tells its kind, its namespace and its name.
use k1s_k8s_operator.Prelude.{
  String, ◌<>◌, ◌≡◌, ◌≢◌, refl, ap, sym, ◌∙◌, inl, inr, Char, code, Bool, true, false, ◌||◌, List,
  [], ◌∷◌, map, All, arith, ◌==◌, string_eq, contains, Bool-cases,
}
use text.Mathlib.TextLemmas.{nil-append, cons-append, head-eq_of_cons-eq, tail-eq_of_cons-eq}
use k1s_k8s_operator.Go.Text.{char_of}
use k1s_k8s_operator.Api.Capability.{K1sManagedResourceStatus}
use k1s_k8s_operator.Controller.Managed.{managed_resource_key}
use k1s_k8s_operator.Controller.Managed.Backend.{Address, stands_at, any_at}
use k1s_k8s_operator.Controller.Managed.Pruning.{stale}

-- A text without a slash, as a name of Kubernetes is.
abbrev pub NoSlash : String → Type 0
NoSlash String.[] = Unit
NoSlash (String.◌∷◌ c s) = (code c ≢ b'/') × NoSlash s

abbrev pub IsPlain : K1sManagedResourceStatus → Type 0
IsPlain r = NoSlash r.kind × NoSlash r.namespace

slash_first : (x : String) → (c : Char) × ("/" <> x ≡ String.◌∷◌ c x) × (code c ≡ b'/')
unfolding char_of
slash_first x =
    let c = char_of b'/' in (c, cons-append c "" x ∙ ap (String.◌∷◌ c) (nil-append x), refl)

split_at_slash :
    (m n x y : String)
    → NoSlash m
    → NoSlash n
    → m <> ("/" <> x) ≡ n <> ("/" <> y)
    → (m ≡ n) × (x ≡ y)
split_at_slash String.[] String.[] x y hm hn e =
    let (c, ex, _) = slash_first x in
    let (d, ey, _) = slash_first y in
    (refl, tail-eq_of_cons-eq (sym ex ∙ sym (nil-append _) ∙ e ∙ nil-append _ ∙ ey))
split_at_slash String.[] (String.◌∷◌ d n) x y hm hn e =
    let (c, ex, is) = slash_first x in
    absurd (
      hn.0 (
        ap code (sym (head-eq_of_cons-eq (sym ex ∙ sym (nil-append _) ∙ e ∙ cons-append d n _)))
        ∙ is))
split_at_slash (String.◌∷◌ c m) String.[] x y hm hn e =
    let (d, ey, is) = slash_first y in
    absurd
      (hm.0 (ap code (head-eq_of_cons-eq (sym (cons-append c m _) ∙ e ∙ nil-append _ ∙ ey)) ∙ is))
split_at_slash (String.◌∷◌ c m) (String.◌∷◌ d n) x y (_, hm) (_, hn) e =
    let e' = sym (cons-append c m _) ∙ e ∙ cons-append d n _ in
    let (same, rest) = split_at_slash m n x y hm hn (tail-eq_of_cons-eq e') in
    ((λ i. String.◌∷◌ (head-eq_of_cons-eq e' i) (same i)), rest)

stands_at-key :
    (r s : K1sManagedResourceStatus) (a : Address)
    → IsPlain r
    → IsPlain s
    → managed_resource_key r ≡ managed_resource_key s
    → stands_at r a ≡ stands_at s a
unfolding managed_resource_key stands_at
stands_at-key r s a (rk, rn) (sk, sn) e =
    let (kind, rest) = split_at_slash r.kind s.kind _ _ rk sk e in
    let (namespace, name) = split_at_slash r.namespace s.namespace _ _ rn sn rest in
    rw (kind, namespace, name) refl

eq_of : (x y : String) → (x == y) ≡ true → x ≡ y
eq_of x y h = ground arith

-- A resource whose key is that of a desired one stands where that one does.
any_at-contains :
    (r : K1sManagedResourceStatus) (a : Address) (ds : List K1sManagedResourceStatus)
    → IsPlain r
    → All IsPlain ds
    → contains (map managed_resource_key ds) (managed_resource_key r) ≡ true
    → stands_at r a ≡ true
    → any_at ds a ≡ true
unfolding any_at
any_at-contains r a [] plain h found at_it = cc
any_at-contains r a (d ∷ ds) plain (hd, h) found at_it =
    elim (Bool-cases (managed_resource_key r == managed_resource_key d)) [
      | inl same ↦ rw (sym (stands_at-key r d a plain hd (eq_of _ _ same)), at_it) refl
      | inr other ↦ rw (any_at-contains r a ds plain h (rw other at found) at_it) (ground arith)
    ]

or-true : (b : Bool) → (b || true) ≡ true
or-true b = ground arith

-- Where a previous resource stands, a stale one does or a desired one.
pub any_at-stale :
    (ds : List K1sManagedResourceStatus) (a : Address) (rs : List K1sManagedResourceStatus)
    → All IsPlain ds
    → All IsPlain rs
    → any_at rs a ≡ true
    → (any_at (stale (map managed_resource_key ds) rs) a || any_at ds a) ≡ true
unfolding stale any_at
any_at-stale ds a [] hd h found = cc
any_at-stale ds a (r ∷ rs) hd (plain, h) found =
    let keys = map managed_resource_key ds in
    elim (Bool-cases (stands_at r a)) [
      | inl at_it ↦ elim (Bool-cases (contains keys (managed_resource_key r))) [
        | inl kept ↦ rw (kept, any_at-contains r a ds plain hd kept at_it) (or-true _)
        | inr gone ↦ rw (gone, at_it) refl
      ]
      | inr off ↦
          let before = any_at-stale ds a rs hd h (rw off at found) in
          elim (Bool-cases (contains keys (managed_resource_key r))) [
            | inl kept ↦ rw kept before
            | inr gone ↦ rw (gone, off) before
          ]
    ]

pub any_at-stale-false :
    (keys : List String) (a : Address) (rs : List K1sManagedResourceStatus)
    → any_at rs a ≡ false
    → any_at (stale keys rs) a ≡ false
unfolding stale any_at
any_at-stale-false keys a [] h = refl
any_at-stale-false keys a (r ∷ rs) h = ground (arith, any_at-stale-false keys a rs)

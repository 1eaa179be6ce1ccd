-- ===== src/Controller/Probe/Range.antt =====
-- What the range of expected statuses promises of a probe that passes.
use k1s_k8s_operator.Prelude.{
  ℕ, String, ◌≡◌, refl, sym, ◌∙◌, ap, false, Option, none, some, arith, ◌==◌, string_eq, ℤ, pos,
  ltb_ℤ, ◌≤ℤ◌, Bool-cases, inl, inr,
}
use k1s_k8s_operator.Go.Text.{split_n2}
use k1s_k8s_operator.Go.Strconv.{atoi}
use k1s_k8s_operator.Go.Errors.{Result, ok, err, ok_inj, lift, continue-eq-ok}
use k1s_k8s_operator.Api.Exposure.{K1sExposure}
use k1s_k8s_operator.Controller.Probe.{
  Prober, number, ordered, upper_bound, from_lower, expected_status_range, in_range, probe_timeout,
  probe_url, default_traffic_probe,
}

ltb_ℤ-false : (a b : ℤ) → ltb_ℤ a b ≡ false → b ≤ℤ a
ltb_ℤ-false a b h = ground (arith, h)

ordered-le : (low high : ℤ) {r : ℤ × ℤ} → ordered low high ≡ ok r → r.0 ≤ℤ r.1
ordered-le low high h = elim (Bool-cases (ltb_ℤ high low)) [
  | inl above ↦ cc (rw above at h)
  | inr fits ↦ rw (sym (ok_inj (rw fits at h))) (ltb_ℤ-false high low fits)
]

upper_bound-le : (low : ℤ) (x : Result ℤ) {r : ℤ × ℤ} → upper_bound low x ≡ ok r → r.0 ≤ℤ r.1
upper_bound-le low (err e) h = cc
upper_bound-le low (ok high) h = ordered-le low high h

from_lower-le :
    (behind : Option String) (x : Result ℤ) {r : ℤ × ℤ} → from_lower behind x ≡ ok r → r.0 ≤ℤ r.1
from_lower-le none (err e) h = cc
from_lower-le (some text) (err e) h = cc
from_lower-le none (ok low) h = ordered-le low low h
from_lower-le (some text) (ok low) h = upper_bound-le low (number (atoi text)) h

-- A range that is accepted is not empty: its lower bound is at most its upper bound.
expected_status_range-le :
    (raw : String) {r : ℤ × ℤ} → expected_status_range raw ≡ ok r → r.0 ≤ℤ r.1
unfolding expected_status_range
expected_status_range-le raw h = elim (Bool-cases (raw == "")) [
  | inl blank ↦ rw (sym (ok_inj (rw blank at h))) (omega arith)
  | inr text ↦
      from_lower-le (split_n2 raw b'-').1 (number (atoi (split_n2 raw b'-').0)) (rw text at h)
]

in_range-eq-ok :
    (status : ℕ) (x : Result (ℤ × ℤ))
    → in_range status x ≡ ok tt
    → (r : ℤ × ℤ) × (x ≡ ok r) × (r.0 ≤ℤ pos status) × (pos status ≤ℤ r.1)
in_range-eq-ok status (err e) h = cc
in_range-eq-ok status (ok (low, high)) h = elim (Bool-cases (ltb_ℤ (pos status) low)) [
  | inl below ↦ cc (rw below at h)
  | inr from ↦ elim (Bool-cases (ltb_ℤ high (pos status))) [
    | inl above ↦ cc (rw (from, above) at h)
    | inr upto ↦
        ((low, high), refl, ltb_ℤ-false (pos status) low from, ltb_ℤ-false high (pos status) upto)
  ]
]

module _ {W : Type 0} (N : Prober W) (exposure : K1sExposure) where
  -- If a probe that is not of type TCP passes, then the service answered the GET of its URL with a status in
  -- the range that the exposure expects.
  pub default_traffic_probe_evidence :
      (w : W)
      → (exposure.spec.traffic_probe.kind == "TCP") ≡ false
      → (default_traffic_probe N exposure w).0 ≡ ok tt
      → (status : ℕ) × ((N.get (probe_timeout N exposure) (probe_url N exposure) w).0 ≡ ok status)
        × ((r : ℤ × ℤ) × (expected_status_range exposure.spec.traffic_probe.expected_status ≡ ok r)
            × (r.0 ≤ℤ pos status)
            × (pos status ≤ℤ r.1))
  unfolding default_traffic_probe
  default_traffic_probe_evidence w http passed =
      let range = expected_status_range exposure.spec.traffic_probe.expected_status in
      let (status, told, rest) =
        continue-eq-ok (λ status. lift (in_range status range))
          (N.get (probe_timeout N exposure) (probe_url N exposure) w) (rw http at passed) in
      (
        status,
        told,
        in_range-eq-ok status range
            (sym (ap (λ (x : Result (Unit {0}) × W). x.0) rest) ∙ (rw http at passed)),
      )

-- ===== src/Controller/Upkeep/Repair.antt =====
-- What a pass does to k1s where k1s has lost what was applied: it applies it again.
use mathlib.Core.Bool.{true≢false}
use k1s_k8s_operator.Prelude.{
  ◌≡◌, refl, sym, ap, ◌∙◌, inl, inr, Bool, true, false, ◌&&◌, ◌||◌, Option, none, some, arith,
  Bool-cases,
}
use k1s_k8s_operator.Go.Values.{Fields}
use k1s_k8s_operator.Go.Errors.{Error, is_not_found, Result, ok, err, continue, ok_inj, pure}
use k1s_k8s_operator.K1s.Client.Routes.{Api}
use k1s_k8s_operator.Api.Capability.{K1sManagedResourceStatus}
use k1s_k8s_operator.Controller.Platform.{Platform}
use k1s_k8s_operator.Controller.Patch.{patch_last_applied_hash}
use k1s_k8s_operator.Controller.Manifest.{managed_resource_from_manifest}
use k1s_k8s_operator.Controller.Separate.{Leaves, Separate, patch_object-Leaves}
use k1s_k8s_operator.Controller.Managed.Backend.{Address, stands_at, Backend}
use k1s_k8s_operator.Controller.Upkeep.{
  Upkept, Survey, Outcome, was_applied, surveyed, observation_of, manifest_changed, survey,
  recorded, apply_manifest, observe, conclude, upkeep,
}

module _ {W Object Seen : Type 0} (P : Platform W) (api : Api W) (u : Upkept W Object Seen) where
  conclude-applied :
      (s : Survey Seen) (q : Result (Result Fields) × W) {o : Outcome Seen}
      → (continue (conclude P api u s) q).0 ≡ ok o
      → was_applied o.observation ≡ true
      → (out : Fields) × (q.0 ≡ ok (ok out)) × (s.should ≡ o.should)
  unfolding observe
  conclude-applied s (ok (ok out), w) h g =
      (out, refl, ap (λ (o : Outcome Seen). o.should) (ok_inj h))
  conclude-applied s (ok (err e), w) h g =
      absurd
        (true≢false (sym g ∙ ap (λ (o : Outcome Seen). was_applied o.observation) (sym (ok_inj h))))
  conclude-applied s (err e, w) h g = cc

  module _ (B : Backend P api) (S : Separate P u.kube B.holds) (asks : Leaves B.holds u.ask) where
    observation_of-holds :
        (p : Result Seen × W) (a : Address) → B.holds (observation_of p).1 a ≡ B.holds p.1 a
    observation_of-holds (ok status, w) a = refl
    observation_of-holds (err e, w) a = refl

    observe-holds :
        (seen : Option Seen) (r : Result Fields) (w : W) (a : Address)
        → B.holds (observe P api u seen r w).1 a ≡ B.holds w a
    unfolding observe
    observe-holds seen (err e) w a = refl
    observe-holds (some status) (ok out) w a = refl
    observe-holds none (ok out) w a = observation_of-holds (u.ask w) a ∙ asks w a

    conclude-holds :
        (s : Survey Seen) (q : Result (Result Fields) × W) (a : Address)
        → B.holds (continue (conclude P api u s) q).1 a ≡ B.holds q.1 a
    conclude-holds s (ok r, w) a = observe-holds s.seen r w a
    conclude-holds s (err e, w) a = refl

    record-holds :
        (w : W) (a : Address)
        → (p : Result (Unit {0}) × W) → (out : Fields) → B.holds p.1 a ≡ B.holds w a
        → B.holds (continue (λ _. pure (ok out)) p).1 a ≡ B.holds w a
    record-holds w a (ok _, w') out h = h
    record-holds w a (err e, w') out h = h

    apply_manifest-holds :
        (r : K1sManagedResourceStatus) (w : W) (a : Address) (p : Result Fields × W) {out : Fields}
        → managed_resource_from_manifest P u.manifest ≡ ok r
        → api.apply u.manifest w ≡ p
        → (recorded P api u p.0 p.1).0 ≡ ok (ok out)
        → B.holds (recorded P api u p.0 p.1).1 a ≡ (stands_at r a || B.holds w a)
    unfolding patch_last_applied_hash
    apply_manifest-holds r w a (ok x, w') read sent h =
        record-holds w' a _ x (patch_object-Leaves P u.kube B.holds S u.object _ w' a)
        ∙ ap (λ (q : Result Fields × W). B.holds q.1 a) (sym sent)
        ∙ B.applies u.manifest r w x read (ap (λ (q : Result Fields × W). q.0) sent) a
    apply_manifest-holds r w a (err e, w') read sent h = ground arith

    surveyed-holds : (p : Result Seen × W) (a : Address) → B.holds (surveyed p).1 a ≡ B.holds p.1 a
    surveyed-holds (ok status, w) a = refl
    surveyed-holds (err e, w) a = refl

    survey-holds : (w : W) (a : Address) → B.holds (survey P api u w).1 a ≡ B.holds w a
    unfolding survey
    survey-holds w a = elim (Bool-cases (manifest_changed P api u)) [
      | inl changed ↦ rw changed
      | inr same ↦ rw same (surveyed-holds (u.ask w) a ∙ asks w a)
    ]

    apply_when-holds :
        (r : K1sManagedResourceStatus) (should : Bool) (w : W) (a : Address) {out : Fields}
        → managed_resource_from_manifest P u.manifest ≡ ok r
        → (apply_manifest P api u should w).0 ≡ ok (ok out)
        → B.holds (apply_manifest P api u should w).1 a ≡ (should && stands_at r a || B.holds w a)
    unfolding apply_manifest
    apply_when-holds r true w a read sent =
        apply_manifest-holds r w a (api.apply u.manifest w) read refl sent
    apply_when-holds r false w a read sent = refl

    -- A pass whose apply does not fail adds to k1s what the manifest describes, if it sends it, and changes
    -- nothing else.
    pub upkeep-holds :
        (r : K1sManagedResourceStatus) (w : W) (o : Outcome Seen) (a : Address)
        → managed_resource_from_manifest P u.manifest ≡ ok r
        → (upkeep P api u w).0 ≡ ok o
        → was_applied o.observation ≡ true
        → B.holds (upkeep P api u w).1 a ≡ (o.should && stands_at r a || B.holds w a)
    unfolding upkeep
    upkeep-holds r w o a read h g =
        let (s, w') = survey P api u w in
        let q = apply_manifest P api u s.should w' in
        let (out, sent, same) = conclude-applied s q h g in
        conclude-holds s q a
        ∙ apply_when-holds r s.should w' a read sent
        ∙ ap (λ (b : Bool). b && stands_at r a || B.holds w' a) same
        ∙ ap (λ (b : Bool). o.should && stands_at r a || b) (survey-holds w a)

    -- Where k1s does not know what was applied before, a pass whose apply does not fail brings it back and
    -- changes nothing else in k1s.
    pub upkeep-restores :
        (r : K1sManagedResourceStatus) (w w' : W) (e : Error) (o : Outcome Seen) (a : Address)
        → managed_resource_from_manifest P u.manifest ≡ ok r
        → manifest_changed P api u ≡ false
        → u.ask w ≡ (err e, w')
        → is_not_found e ≡ true
        → (upkeep P api u w).0 ≡ ok o
        → was_applied o.observation ≡ true
        → B.holds (upkeep P api u w).1 a ≡ (stands_at r a || B.holds w a)
    unfolding upkeep survey apply_manifest
    upkeep-restores r w w' e o a read same told lost h g =
        let s : Survey Seen = record { should = true; seen = none } in
        let p = api.apply u.manifest w' in
        let q = recorded P api u p.0 p.1 in
        let (out, sent, _) = conclude-applied s q (rw (same, told, lost) at h) g in
        rw (same, told, lost)
          (conclude-holds s q a
            ∙ apply_manifest-holds r w' a p read refl sent
            ∙ ap (λ (b : Bool). stands_at r a || b)
                (sym (ap (λ (x : Result Seen × W). B.holds x.1 a) told) ∙ asks w a))

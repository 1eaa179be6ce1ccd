-- ===== src/Controller/Frame/Pass.antt =====
-- A pass over an app or an inference endpoint touches nothing but what its manifest describes.
use k1s_k8s_operator.Prelude.{◌≡◌, ◌∙◌, Bool, true, false, Bool-cases, inl, inr, Option, none, some}
use k1s_k8s_operator.Go.Values.{Fields}
use k1s_k8s_operator.Go.Errors.{Result, ok, err, pure}
use k1s_k8s_operator.K1s.Client.Routes.{Api}
use k1s_k8s_operator.Controller.Platform.{Platform}
use k1s_k8s_operator.Controller.Patch.{hash_bytes, patch_last_applied_hash}
use k1s_k8s_operator.Controller.Separate.{Leaves, Separate, patch_object-Leaves}
use k1s_k8s_operator.Controller.Keeps.{Keeps, bind-Keeps, handle-Keeps, Leaves-Keeps}
use k1s_k8s_operator.Controller.Managed.Backend.{Address}
use k1s_k8s_operator.Controller.Upkeep.{
  Upkept, surveyed, observation_of, manifest_changed, survey, recorded, apply_manifest, observe,
  conclude, upkeep,
}
use k1s_k8s_operator.Controller.Frame.{Misses, Local}

module _ {W Object Seen : Type 0} (P : Platform W) (api : Api W) (holds : W → Address → Bool)
    (local : Local P api holds) (a : Address) (b : Bool) (u : Upkept W Object Seen)
    (S : Separate P u.kube holds) (asks : Leaves holds u.ask) where
  abbrev Same : W → Type 0
  Same w = holds w a ≡ b

  surveyed-Same : (p : Result Seen × W) → Same p.1 → Same (surveyed p).1
  surveyed-Same (ok seen, w) q = q
  surveyed-Same (err e, w) q = q

  observation-Same : (p : Result Seen × W) → Same p.1 → Same (observation_of p).1
  observation-Same (ok seen, w) q = q
  observation-Same (err e, w) q = q

  survey-Same : (w : W) → Same w → Same (survey P api u w).1
  unfolding survey
  survey-Same w q = elim (Bool-cases (manifest_changed P api u)) [
    | inl changed ↦ rw changed q
    | inr same ↦ rw same (surveyed-Same (u.ask w) (asks w a ∙ q))
  ]

  observe-Same :
      (seen : Option Seen) (r : Result Fields) (w : W) → Same w → Same (observe P api u seen r w).1
  unfolding observe
  observe-Same seen (err e) w q = q
  observe-Same (some status) (ok out) w q = q
  observe-Same none (ok out) w q = observation-Same (u.ask w) (asks w a ∙ q)

  recorded-Keeps : (r : Result Fields) → Keeps Same (recorded P api u r)
  unfolding patch_last_applied_hash
  recorded-Keeps (err e) = λ w q. q
  recorded-Keeps (ok out) =
      bind-Keeps Same (patch_last_applied_hash P u.kube u.object (hash_bytes P u.manifest))
        (λ _. pure (ok out))
        (Leaves-Keeps holds (patch_last_applied_hash P u.kube u.object (hash_bytes P u.manifest))
          (patch_object-Leaves P u.kube holds S u.object _) a b)
        (λ _ w q. q)

  apply-Keeps : (should : Bool) → Misses P a u.manifest → Keeps Same (apply_manifest P api u should)
  unfolding apply_manifest
  apply-Keeps false miss = λ w q. q
  apply-Keeps true miss =
      handle-Keeps Same (api.apply u.manifest) (recorded P api u)
        (λ w q. local.applies u.manifest w a miss ∙ q) recorded-Keeps

  pub upkeep-Keeps : Misses P a u.manifest → Keeps Same (upkeep P api u)
  unfolding upkeep
  upkeep-Keeps miss w q =
      let (s, w') = survey P api u w in
      bind-Keeps Same (apply_manifest P api u s.should) (conclude P api u s)
        (apply-Keeps s.should miss) (λ r v. observe-Same s.seen r v) w' (survey-Same w q)

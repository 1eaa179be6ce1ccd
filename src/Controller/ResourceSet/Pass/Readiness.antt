-- ===== src/Controller/ResourceSet/Pass/Readiness.antt =====
-- When a pass reports Ready, and what it remembers of the resources that it manages.
use k1s_k8s_operator.Prelude.{
  ◌≡◌, refl, ◌↔◌, ◌∙◌, Option-cases, inl, inr, Bool, true, List, length, none, arith, pos, wrap32,
  eqb_ℤ, ℤ,
}
use k1s_k8s_operator.Go.Errors.{Result, ok, err}
use k1s_k8s_operator.K1s.Client.Routes.{Api}
use k1s_k8s_operator.Api.Meta.{Time}
use k1s_k8s_operator.Api.Capability.{K1sManagedResourceStatus, K1sResourceSet}
use k1s_k8s_operator.Controller.Platform.{Platform}
use k1s_k8s_operator.Controller.Kinds.{KindSet}
use k1s_k8s_operator.Controller.ResourceSet.Types.{Progress}
use k1s_k8s_operator.Controller.ResourceSet.Status.{synced_status}
use k1s_k8s_operator.Controller.ResourceSet.Manifests.Laws.{applied-apply_manifests}
use k1s_k8s_operator.Controller.ResourceSet.Pass.{Outcome, must_apply, prune_step, proceed, work}
use k1s_k8s_operator.Controller.ResourceSet.Pass.Convergence.{apply_step-eq-ok}

eqb_ℤ_refl : (a : ℤ) → eqb_ℤ a a ≡ true
eqb_ℤ_refl a = ground arith

module _ {W : Type 0} (P : Platform W) (set : K1sResourceSet) (api : Api W) where
  proceed-applied :
      (r : Result (List K1sManagedResourceStatus)) (w : W) (o : Outcome)
      → (proceed P set api r w).0 ≡ ok o
      → o.progress.failure ≡ none
      → o.progress.applied ≡ length set.spec.manifests
  proceed-applied (err e) w o h g = ground arith
  proceed-applied (ok ds) w o h g =
      let p = prune_step P set api ds w in
      let (_, all_sent, same, _) = apply_step-eq-ok P set api (must_apply P set) ds p.0 p.1 h g in
      rw same (
        applied-apply_manifests api (must_apply P set) set.spec.manifests 0 p.1 all_sent
        ∙ omega arith)

  ready_iff :
      (should : Bool) (progress : Progress) (managed : List K1sManagedResourceStatus) (now : Time)
      → (progress.failure ≡ none → progress.applied ≡ length set.spec.manifests)
      → ((synced_status P set should progress managed now).ready ≡ true) ↔ (progress.failure ≡ none)
  unfolding synced_status
  ready_iff should progress managed now h = elim (Option-cases progress.failure) [
    | inl clean ↦
        rw (clean, h clean)
          ((λ _. refl), (λ _. eqb_ℤ_refl (wrap32 (pos (length set.spec.manifests)))))
    | inr (e, broken) ↦ rw broken ((λ r. cc), (λ r. cc))
  ]

  -- The status that a pass publishes is Ready exactly when the pass met no error.
  pub ready-iff_no_failure :
      (allowed : KindSet) (w : W) (o : Outcome) (now : Time)
      → (work P set api allowed w).0 ≡ ok o
      → ((synced_status P set o.should o.progress o.managed now).ready ≡ true)
        ↔ (o.progress.failure ≡ none)
  unfolding work
  ready-iff_no_failure allowed w o now h =
      ready_iff o.should o.progress o.managed now (proceed-applied _ w o h)

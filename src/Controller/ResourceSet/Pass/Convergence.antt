-- ===== src/Controller/ResourceSet/Pass/Convergence.antt =====
-- A pass that reports no failure has brought k1s to the desired state.
use k1s_k8s_operator.Prelude.{
  ℕ, ◌≡◌, refl, inl, inr, ◌∙◌, Bool, true, false, ◌&&◌, ◌||◌, List, map, length, Option, none, some,
  arith, Bool-cases, if◌then◌else◌,
}
use k1s_k8s_operator.Go.Errors.{Error, Result, ok, err, continue-pure-eq-ok}
use k1s_k8s_operator.K1s.Client.Routes.{Api}
use k1s_k8s_operator.Api.Capability.{K1sManagedResourceStatus, K1sResourceSet}
use k1s_k8s_operator.Controller.Platform.{Platform}
use k1s_k8s_operator.Controller.Kinds.{KindSet}
use k1s_k8s_operator.Controller.Managed.{managed_resource_key}
use k1s_k8s_operator.Controller.Managed.Backend.{Address, any_at, Backend}
use k1s_k8s_operator.Controller.Managed.Pruning.{
  stale, prune_managed_resources-stale, holds-delete_managed_resources,
}
use k1s_k8s_operator.Controller.ResourceSet.Manifests.{apply_manifests, desired_resources}
use k1s_k8s_operator.Controller.ResourceSet.Manifests.Laws.{
  applied-apply_manifests, holds-apply_manifests,
}
use k1s_k8s_operator.Controller.ResourceSet.Pass.{
  Outcome, succeeded, must_apply, record_hash, applied_all, prune_step, apply_step, proceed, work,
}
use k1s_k8s_operator.Controller.ResourceSet.Pass.Separate.{record_hash-Leaves}
use k1s_k8s_operator.Controller.Separate.{Separate}

module _ {W : Type 0} (P : Platform W) (set : K1sResourceSet) (api : Api W) where
  -- Whether a resource at the address is pruned, given the desired resources.
  abbrev pub pruned_at : List K1sManagedResourceStatus → Address → Bool
  pruned_at desired a =
      set.spec.prune
      && any_at (stale (map managed_resource_key desired) set.status.managed_resources) a

  applied_all-eq-ok :
      (should : Bool) (ds : List K1sManagedResourceStatus) (n : ℕ) (f : Option Error) (w : W)
      {o : Outcome}
      → (applied_all P set should ds n f w).0 ≡ ok o
      → o.progress.failure ≡ none
      → (f ≡ none)
        × (o ≡ succeeded P set should n ds)
        × ((applied_all P set should ds n f w).1 ≡ (record_hash P set should w).1)
  applied_all-eq-ok should ds n (some e) w h g = ground arith
  applied_all-eq-ok should ds n none w h g =
      let (same, left) =
        continue-pure-eq-ok (succeeded P set should n ds) (record_hash P set should w) h in
      (refl, same, left)

  pub apply_step-eq-ok :
      (should : Bool) (ds : List K1sManagedResourceStatus) (r : Result (Unit {0})) (w : W)
      {o : Outcome}
      → (apply_step P set api should ds r w).0 ≡ ok o
      → o.progress.failure ≡ none
      → let p = apply_manifests api should set.spec.manifests 0 w in
        (r ≡ ok tt)
        × (p.0.failure ≡ none)
        × (o ≡ succeeded P set should p.0.applied ds)
        × ((apply_step P set api should ds r w).1 ≡ (record_hash P set should p.1).1)
  unfolding apply_step
  apply_step-eq-ok should ds (err e) w h g = ground arith
  apply_step-eq-ok should ds (ok _) w h g =
      let (none_failed, same, left) = applied_all-eq-ok should ds _ _ _ h g in
      (refl, none_failed, same, left)

  module _ (B : Backend P api) where
    holds-prune_step :
        (ds : List K1sManagedResourceStatus) (w : W) (a : Address)
        → (prune_step P set api ds w).0 ≡ ok tt
        → B.holds (prune_step P set api ds w).1 a ≡ (if pruned_at ds a then false else B.holds w a)
    unfolding prune_step
    holds-prune_step ds w a h = elim (Bool-cases set.spec.prune) [
      | inl on ↦
          rw (on, prune_managed_resources-stale)
            (holds-delete_managed_resources P api B _ w a
              (rw (on, prune_managed_resources-stale) at h))
      | inr off ↦ rw off
    ]

    proceed-converges :
        (allowed : KindSet) (r : Result (List K1sManagedResourceStatus)) (w : W) (o : Outcome)
        → Separate P P.resource_sets B.holds
        → desired_resources P allowed set.spec.manifests ≡ r
        → must_apply P set ≡ true
        → (proceed P set api r w).0 ≡ ok o
        → o.progress.failure ≡ none
        → (r ≡ ok o.managed)
          × (o.progress.applied ≡ length set.spec.manifests)
          × ((a : Address)
              → B.holds (proceed P set api r w).1 a
                ≡ (any_at o.managed a || (if pruned_at o.managed a then false else B.holds w a)))
    proceed-converges allowed (err e) w o S d m h g = ground arith
    proceed-converges allowed (ok ds) w o S d m h g =
        let p = prune_step P set api ds w in
        let (clean, all_sent, same, left) = apply_step-eq-ok true ds p.0 p.1 (rw m at h) g in
        rw (m, same)
          (
            refl,
            applied-apply_manifests api true set.spec.manifests 0 p.1 all_sent ∙ omega arith,
            λ a. rw (
              left,
              record_hash-Leaves P B.holds S set true _ a,
              holds-apply_manifests P api B allowed _ ds 0 p.1 a d all_sent,
              holds-prune_step ds w a clean,
            ),
          )

    -- A pass with something to apply that reports no failure has read every manifest, and has counted
    -- each as applied. k1s then holds each desired resource; of the others it has lost those that are
    -- pruned, and no more. The hypotheses are that the k1s API behaves as `Backend` says, and that
    -- the calls of Kubernetes leave it alone.
    pub work-converges :
        (allowed : KindSet) (w : W) (o : Outcome)
        → Separate P P.resource_sets B.holds
        → must_apply P set ≡ true
        → (work P set api allowed w).0 ≡ ok o
        → o.progress.failure ≡ none
        → (desired_resources P allowed set.spec.manifests ≡ ok o.managed)
          × (o.progress.applied ≡ length set.spec.manifests)
          × ((a : Address)
              → B.holds (work P set api allowed w).1 a
                ≡ (any_at o.managed a || (if pruned_at o.managed a then false else B.holds w a)))
    unfolding work
    work-converges allowed w o S = proceed-converges allowed _ w o S refl

-- ===== src/Controller/ResourceSet/Pass/Refusal.antt =====
-- A manifest of a kind that is not allowed stops the whole pass before it reaches k1s.
use k1s_k8s_operator.Prelude.{
  String, ◌≡◌, ◌≢◌, refl, true, false, List, [], ◌∷◌, arith, contains, string_eq,
}
use k1s_k8s_operator.Go.Errors.{Error, Result, ok, err}
use k1s_k8s_operator.K1s.Client.Routes.{Api}
use k1s_k8s_operator.Api.Capability.{K1sManagedResourceStatus, K1sResourceSet}
use k1s_k8s_operator.Controller.Platform.{Platform}
use k1s_k8s_operator.Controller.Kinds.{KindSet}
use k1s_k8s_operator.Controller.Manifest.{managed_resource_from_manifest}
use k1s_k8s_operator.Controller.ResourceSet.Manifests.{desired_resources}
use k1s_k8s_operator.Controller.ResourceSet.Manifests.Laws.{admit-eq-ok}
use k1s_k8s_operator.Controller.ResourceSet.Pass.{failed, proceed, work}

module _ {W : Type 0} (P : Platform W) (allowed : KindSet) where
  -- Every manifest of a list that is read as a whole is of an allowed kind.
  pub desired_resources-allowed :
      (ms : List String) (ds : List K1sManagedResourceStatus) (m : String)
      (ref : K1sManagedResourceStatus)
      → desired_resources P allowed ms ≡ ok ds
      → contains ms m ≡ true
      → managed_resource_from_manifest P m ≡ ok ref
      → contains allowed ref.kind ≡ true
  unfolding desired_resources
  desired_resources-allowed [] ds m ref h c e = cc
  desired_resources-allowed (n ∷ ms) ds m ref h c e =
      let (first, refs, read, others, fits, _) =
        admit-eq-ok allowed (managed_resource_from_manifest P n) (desired_resources P allowed ms)
          h in
      ground (arith, desired_resources-allowed ms refs m ref others)

module _ {W : Type 0} (P : Platform W) (set : K1sResourceSet) (api : Api W)
    (allowed : KindSet) where
  proceed_refused :
      (r : Result (List K1sManagedResourceStatus)) (w : W)
      → ((ds : List K1sManagedResourceStatus) → r ≢ ok ds)
      → (e : Error) × (proceed P set api r w ≡ (ok (failed P set false 0 e), w))
  proceed_refused (ok ds) w no_list = absurd (no_list ds refl)
  proceed_refused (err e) w no_list = (e, refl)

  -- If one manifest of the set is of a kind that is not allowed, the pass fails with nothing applied,
  -- keeps the list of managed resources, and changes nothing in k1s or in Kubernetes.
  pub work_refused :
      (m : String) (ref : K1sManagedResourceStatus) (w : W)
      → contains set.spec.manifests m ≡ true
      → managed_resource_from_manifest P m ≡ ok ref
      → contains allowed ref.kind ≡ false
      → (e : Error) × (work P set api allowed w ≡ (ok (failed P set false 0 e), w))
  unfolding work
  work_refused m ref w listed read refused =
      proceed_refused _ w
        λ (ds : List K1sManagedResourceStatus)
            (all : desired_resources P allowed set.spec.manifests ≡ ok ds).
          cc (desired_resources-allowed P allowed set.spec.manifests ds m ref all listed read)

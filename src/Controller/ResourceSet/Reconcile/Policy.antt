-- ===== src/Controller/ResourceSet/Reconcile/Policy.antt =====
-- The operator's cap on kinds holds in every reconciliation.
use k1s_k8s_operator.Prelude.{
  String, ◌≡◌, ◌≢◌, refl, true, false, List, contains, string_eq, Bool-cases, inl, inr,
}
use k1s_k8s_operator.Go.Errors.{Result, ok, err}
use k1s_k8s_operator.K1s.Client.Routes.{Api}
use k1s_k8s_operator.Api.Cluster.{K1sCluster}
use k1s_k8s_operator.Api.Capability.{K1sManagedResourceStatus, K1sResourceSet}
use k1s_k8s_operator.Controller.Helpers.{contains_string}
use k1s_k8s_operator.Controller.Platform.{Platform}
use k1s_k8s_operator.Controller.Kinds.{KindSet, kind_cap, allowed_kinds_for}
use k1s_k8s_operator.Controller.Kinds.Laws.{allowed_kinds_for_lem}
use k1s_k8s_operator.Controller.Manifest.{managed_resource_from_manifest}
use k1s_k8s_operator.Controller.ResourceSet.Types.{capability_finalizer, is_deleted}
use k1s_k8s_operator.Controller.ResourceSet.Manifests.{desired_resources}
use k1s_k8s_operator.Controller.ResourceSet.Pass.{proceed, work, sync}
use k1s_k8s_operator.Controller.ResourceSet.Pass.Refusal.{desired_resources-allowed}
use k1s_k8s_operator.Controller.ResourceSet.Reconcile.{under_policy, reconcile_with}

module _ {W : Type 0} (P : Platform W) (set : K1sResourceSet) (api api' : Api W) where
  proceed_same :
      (r : Result (List K1sManagedResourceStatus)) (w : W)
      → ((ds : List K1sManagedResourceStatus) → r ≢ ok ds)
      → proceed P set api r w ≡ proceed P set api' r w
  proceed_same (ok ds) w no_list = absurd (no_list ds refl)
  proceed_same (err e) w no_list = refl

  module _ (cluster : K1sCluster) where
    sync_same :
        (allowed : KindSet) (w : W)
        → ((ds : List K1sManagedResourceStatus)
            → desired_resources P allowed set.spec.manifests ≢ ok ds)
        → sync P set api cluster allowed w ≡ sync P set api' cluster allowed w
    unfolding sync work
    sync_same allowed w no_list = rw (proceed_same _ w no_list)

    under_policy_same :
        (configured : List String) (m : String) (ref : K1sManagedResourceStatus)
        (r : Result KindSet) (w : W)
        → allowed_kinds_for configured set.spec.allowed_kinds ≡ r
        → contains set.spec.manifests m ≡ true
        → managed_resource_from_manifest P m ≡ ok ref
        → contains (kind_cap configured) ref.kind ≡ false
        → under_policy P set api cluster r w ≡ under_policy P set api' cluster r w
    under_policy_same configured m ref (err e) w granted listed read outside = refl
    under_policy_same configured m ref (ok allowed) w granted listed read outside =
        let (narrow, _, _) = allowed_kinds_for_lem configured set.spec.allowed_kinds granted in
        sync_same allowed w λ ds all.
          let fits =
            desired_resources-allowed P allowed set.spec.manifests ds m ref all listed read in
          cc (narrow ref.kind fits)

    -- While a set is not being deleted, one manifest of a kind outside the operator's cap keeps the
    -- reconciliation from calling k1s at all: it comes to the same whatever the k1s API would do.
    pub reconcile_outside_cap :
        (configured : List String) (m : String) (ref : K1sManagedResourceStatus) (w : W)
        → is_deleted set.meta ≡ false
        → contains set.spec.manifests m ≡ true
        → managed_resource_from_manifest P m ≡ ok ref
        → contains (kind_cap configured) ref.kind ≡ false
        → reconcile_with P set configured api cluster w
          ≡ reconcile_with P set configured api' cluster w
    unfolding reconcile_with
    reconcile_outside_cap configured m ref w alive listed read outside =
        elim (Bool-cases (contains_string set.meta.finalizers capability_finalizer)) [
          | inl has_it ↦
              rw (alive, has_it) (under_policy_same configured m ref _ w refl listed read outside)
          | inr lacks_it ↦ rw (alive, lacks_it)
        ]

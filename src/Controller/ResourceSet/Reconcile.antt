-- ===== src/Controller/ResourceSet/Reconcile.antt =====
-- `Reconcile`: the finalizer, the kind policy and the pass. `configured` is `AllowedKinds`.
pub mod Finalizer
pub mod Policy
use k1s_k8s_operator.Prelude.{String, true, not, List, [], ◌∷◌, ◌++◌, string_eq, if◌then◌else◌}
use k1s_k8s_operator.Go.Errors.{is_kube_not_found, Result, ok, err, Exec, pure, fail, handle, ◌>>◌}
use k1s_k8s_operator.K1s.Client.Routes.{Api, client_api}
use k1s_k8s_operator.Api.Meta.{NamespacedName}
use k1s_k8s_operator.Api.Cluster.{K1sCluster}
use k1s_k8s_operator.Api.Capability.{K1sResourceSet}
use k1s_k8s_operator.Controller.Helpers.{contains_string, remove_string}
use k1s_k8s_operator.Controller.Platform.{Platform}
use k1s_k8s_operator.Controller.Patch.{patch_finalizers}
use k1s_k8s_operator.Controller.Auth.{write_client}
use k1s_k8s_operator.Controller.Kinds.{KindSet, allowed_kinds_for}
use k1s_k8s_operator.Controller.Managed.{delete_managed_resources}
use k1s_k8s_operator.Controller.ResourceSet.Types.{
  capability_finalizer, ReconcileResult, done, is_deleted, is_orphan,
}
use k1s_k8s_operator.Controller.ResourceSet.Status.{
  publish, no_client_status, delete_failed_status, denied_status,
}
use k1s_k8s_operator.Controller.ResourceSet.Pass.{sync}

module _ {W : Type 0} (P : Platform W) where
  module _ (set : K1sResourceSet) where
    unfoldable pub remove_finalizer : Exec W ReconcileResult
    unfolding patch_finalizers
    remove_finalizer = do
      patch_finalizers P P.resource_sets set
          (remove_string set.meta.finalizers capability_finalizer)
      pure done

    -- behind the deletes: the status tells their error, and a failure to publish it is ignored
    abbrev pub after_deletes : Result (Unit {0}) → Exec W ReconcileResult
    after_deletes (ok _) w = remove_finalizer w
    after_deletes (err e) w =
        handle (publish P set (delete_failed_status P set e (P.now w))) (λ _. fail e) w

    -- the branch for an object that is being deleted
    unfoldable pub finalize : Api W → Exec W ReconcileResult
    finalize api =
        if not (contains_string set.meta.finalizers capability_finalizer)
        then pure done
        else if is_orphan set.spec.delete_policy
        then remove_finalizer
        else handle (delete_managed_resources api set.status.managed_resources) after_deletes

    unfoldable pub add_finalizer : Exec W ReconcileResult
    unfolding patch_finalizers
    add_finalizer = do
      patch_finalizers P P.resource_sets set (set.meta.finalizers ++ capability_finalizer ∷ [])
      pure (record { requeue = true; requeue_after = 0 })

    -- behind the kind policy
    abbrev pub under_policy : Api W → K1sCluster → Result KindSet → Exec W ReconcileResult
    under_policy api cluster (err e) w =
        (publish P set (denied_status P set e (P.now w)) >> pure done) w
    under_policy api cluster (ok allowed) w = sync P set api cluster allowed w

    unfoldable pub reconcile_with :
        (configured : List String) → Api W → K1sCluster → Exec W ReconcileResult
    reconcile_with configured api cluster =
        if is_deleted set.meta
        then finalize api
        else if not (contains_string set.meta.finalizers capability_finalizer)
        then add_finalizer
        else under_policy api cluster (allowed_kinds_for configured set.spec.allowed_kinds)

    unfoldable pub reconcile_found : (configured : List String) → Exec W ReconcileResult
    reconcile_found configured =
        handle (write_client P set.meta.namespace set.spec.cluster_ref) λ r. elim r [
          | err e ↦ λ w. (publish P set (no_client_status P set e (P.now w)) >> pure done) w
          | ok (c, cluster) ↦ reconcile_with configured (client_api P.transport c) cluster
        ]

  -- `Reconcile`
  unfoldable pub reconcile : (configured : List String) → NamespacedName → Exec W ReconcileResult
  reconcile configured key = handle (P.resource_sets.get key) λ r. elim r [
    | err e ↦ if is_kube_not_found e then pure done else fail e
    | ok set ↦ reconcile_found set configured
  ]

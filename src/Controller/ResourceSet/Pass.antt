-- ===== src/Controller/ResourceSet/Pass.antt =====
-- One pass over a K1sResourceSet under a kind policy: `work` reads the manifests, prunes, applies and
-- records the hash; `sync` reports what came of it.
pub mod Separate
pub mod Convergence
pub mod Refinement
pub mod Readiness
pub mod Idempotence
pub mod Refusal
use k1s_k8s_operator.Prelude.{
  ℕ, String, Bool, true, false, not, List, Option, none, some, ◌==◌, string_eq, if◌then◌else◌,
}
use k1s_k8s_operator.Go.Errors.{Error, Result, ok, err, Exec, pure, handle, ◌>>◌, ◌>>=◌}
use k1s_k8s_operator.K1s.Client.Routes.{Api}
use k1s_k8s_operator.Api.Cluster.{K1sCluster}
use k1s_k8s_operator.Api.Capability.{K1sManagedResourceStatus, K1sResourceSet}
use k1s_k8s_operator.Controller.Helpers.{poll_interval}
use k1s_k8s_operator.Controller.Platform.{Platform}
use k1s_k8s_operator.Controller.Patch.{
  last_applied_hash, hash_manifest_set, patch_last_applied_hash,
}
use k1s_k8s_operator.Controller.Kinds.{KindSet}
use k1s_k8s_operator.Controller.Managed.{prune_managed_resources}
use k1s_k8s_operator.Controller.ResourceSet.Types.{ReconcileResult, Progress}
use k1s_k8s_operator.Controller.ResourceSet.Status.{publish, synced_status}
use k1s_k8s_operator.Controller.ResourceSet.Manifests.{apply_manifests, desired_resources}

-- The variables `shouldApply`, `applied` with `firstErr`, and `nextManaged`.
pub record Outcome : Type 0 where
  pub should : Bool
  pub progress : Progress
  pub managed : List K1sManagedResourceStatus

module _ {W : Type 0} (P : Platform W) (set : K1sResourceSet) where
  -- a pass that failed leaves the list of managed resources as it was
  abbrev pub failed : Bool → ℕ → Error → Outcome
  failed should applied e = record {
    should = should;
    progress = record { applied = applied; failure = some e };
    managed = set.status.managed_resources;
  }

  abbrev pub succeeded : Bool → ℕ → List K1sManagedResourceStatus → Outcome
  succeeded should applied desired = record {
    should = should;
    progress = record { applied = applied; failure = none };
    managed = desired;
  }

  unfoldable pub must_apply : Bool
  must_apply = not (last_applied_hash set.meta == hash_manifest_set P set.spec.manifests)

  unfoldable pub record_hash : Bool → Exec W (Unit {0})
  record_hash false = pure tt
  record_hash true =
      patch_last_applied_hash P P.resource_sets set (hash_manifest_set P set.spec.manifests)

  -- behind the loop that applies: the hash is recorded if all went well
  abbrev pub applied_all : Bool → List K1sManagedResourceStatus → ℕ → Option Error → Exec W Outcome
  applied_all should desired applied (some e) = pure (failed should applied e)
  applied_all should desired applied none =
      record_hash should >> pure (succeeded should applied desired)

  unfoldable pub prune_step : Api W → List K1sManagedResourceStatus → Exec W (Unit {0})
  prune_step api desired =
      if set.spec.prune
      then prune_managed_resources api set.status.managed_resources desired
      else pure tt

  unfoldable pub apply_step :
      Api W → Bool → List K1sManagedResourceStatus → Result (Unit {0}) → Exec W Outcome
  apply_step api should desired (err e) w = (ok (failed should 0 e), w)
  apply_step api should desired (ok _) w =
      let (progress, w') = apply_manifests api should set.spec.manifests 0 w in
      applied_all should desired progress.applied progress.failure w'

  abbrev pub proceed : Api W → Result (List K1sManagedResourceStatus) → Exec W Outcome
  proceed api (err e) = pure (failed false 0 e)
  proceed api (ok desired) = handle (prune_step api desired) (apply_step api must_apply desired)

  -- An error here is one of recording the hash, which ends the reconciliation.
  unfoldable pub work : Api W → KindSet → Exec W Outcome
  work api allowed = proceed api (desired_resources P allowed set.spec.manifests)

  unfoldable pub settle : K1sCluster → Outcome → Exec W ReconcileResult
  settle cluster o w =
      (do
        publish P set (synced_status P set o.should o.progress o.managed (P.now w))
        pure (record {
          requeue = false;
          requeue_after = poll_interval cluster.spec.poll_interval_seconds;
        }))
        w

  unfoldable pub sync : Api W → K1sCluster → KindSet → Exec W ReconcileResult
  sync api cluster allowed = work api allowed >>= settle cluster

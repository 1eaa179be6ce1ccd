-- ===== src/Manager/Cap.antt =====
-- cmd/manager/main.go, the flag `resourceset-allowed-kinds`, with the reconciler of resource sets that it
-- configures.
use k1s_k8s_operator.Prelude.{String, ◌≡◌, ◌≢◌, true, false, [], map, arith, contains, string_eq}
use k1s_k8s_operator.Go.Text.{trim_space, split}
use k1s_k8s_operator.Go.Errors.{ok}
use k1s_k8s_operator.K1s.Client.Routes.{Api}
use k1s_k8s_operator.Api.Cluster.{K1sCluster}
use k1s_k8s_operator.Api.Capability.{K1sManagedResourceStatus, K1sResourceSet}
use k1s_k8s_operator.Controller.Platform.{Platform}
use k1s_k8s_operator.Controller.Kinds.{kind_cap}
use k1s_k8s_operator.Controller.Manifest.{managed_resource_from_manifest}
use k1s_k8s_operator.Controller.ResourceSet.Types.{is_deleted}
use k1s_k8s_operator.Controller.ResourceSet.Reconcile.{reconcile_with}
use k1s_k8s_operator.Controller.ResourceSet.Reconcile.Policy.{reconcile_outside_cap}
use k1s_k8s_operator.Manager.{csv_values, watch_namespaces}
use k1s_k8s_operator.Manager.Flags.{watch_namespaces_lem, kind_cap-csv_values}

-- What no value at the commas of the flag is, the cap does not allow.
outside_flag :
    (raw kind : String)
    → csv_values raw ≢ []
    → contains (map trim_space (split raw b',')) kind ≡ false
    → contains (kind_cap (csv_values raw)) kind ≡ false
unfolding watch_namespaces
outside_flag raw kind some_kind unlisted =
    let (_, _, lists) = watch_namespaces_lem raw in
    let same = lists kind in rw (kind_cap-csv_values raw some_kind) (ground arith)

-- Where the flag lists a kind at all, and while a set is not being deleted, one manifest of a kind that is
-- none of the trimmed values at the commas of the flag keeps the reconciliation from calling k1s: it comes
-- to the same whatever the k1s API would do.
pub reconcile_outside_flag :
    {W : Type 0} (P : Platform W) (set : K1sResourceSet) (api api' : Api W) (cluster : K1sCluster)
    (raw m : String) (ref : K1sManagedResourceStatus) (w : W)
    → csv_values raw ≢ []
    → is_deleted set.meta ≡ false
    → contains set.spec.manifests m ≡ true
    → managed_resource_from_manifest P m ≡ ok ref
    → contains (map trim_space (split raw b',')) ref.kind ≡ false
    → reconcile_with P set (csv_values raw) api cluster w
      ≡ reconcile_with P set (csv_values raw) api' cluster w
reconcile_outside_flag P set api api' cluster raw m ref w some_kind alive listed read unlisted =
    reconcile_outside_cap P set api api' cluster (csv_values raw) m ref w alive listed read
      (outside_flag raw ref.kind some_kind unlisted)

-- ===== src/Tests/Policies.antt =====
-- The theorems on the kinds that a set may hold, at a set with a manifest of a pod.
use k1s_k8s_operator.Prelude.{
  ◌≡◌, ◌≢◌, refl, true, false, [], ◌∷◌, map, String, string_eq, nat_eq, contains,
}
use k1s_k8s_operator.Go.Errors.{Error, ok}
use k1s_k8s_operator.Go.Text.{trim_space, split}
use k1s_k8s_operator.Controller.Patch.{hash_bytes}
use k1s_k8s_operator.Controller.Kinds.{
  default_resource_set_allowed_kinds, kind_cap, normalize_kind_list, normalize_into,
}
use k1s_k8s_operator.Controller.Manifest.{managed_resource, managed_resource_from_manifest}
use k1s_k8s_operator.Controller.ResourceSet.Pass.{failed, work}
use k1s_k8s_operator.Controller.ResourceSet.Pass.Refusal.{work_refused}
use k1s_k8s_operator.Controller.ResourceSet.Types.{is_deleted}
use k1s_k8s_operator.Controller.ResourceSet.Reconcile.{reconcile_with}
use k1s_k8s_operator.Controller.ResourceSet.Reconcile.Policy.{reconcile_outside_cap}
use k1s_k8s_operator.Manager.{csv_into, csv_values}
use k1s_k8s_operator.Manager.Cap.{reconcile_outside_flag}
use k1s_k8s_operator.Tests.Objects.{cluster, set_of}
use k1s_k8s_operator.Tests.World.{platform, api}
use k1s_k8s_operator.Tests.Sets.{held, pod, stuck}

read-pod : managed_resource_from_manifest platform "pod" ≡ ok pod
unfolding managed_resource_from_manifest managed_resource hash_bytes string_eq
read-pod = refl

listed-pod : contains (set_of ("web" ∷ "pod" ∷ [])).spec.manifests "pod" ≡ true
unfolding string_eq
listed-pod = refl

refused-pod : contains default_resource_set_allowed_kinds "Pod" ≡ false
unfolding string_eq
refused-pod = refl

work_refused_example :
    (e : Error) × (work platform
        (set_of ("web" ∷ "pod" ∷ []))
        api
        default_resource_set_allowed_kinds
        held
      ≡ (ok (failed platform (set_of ("web" ∷ "pod" ∷ [])) false 0 e), held))
work_refused_example =
    work_refused platform (set_of ("web" ∷ "pod" ∷ [])) api default_resource_set_allowed_kinds "pod"
      pod held listed-pod read-pod refused-pod

outside-pod : contains (kind_cap []) "Pod" ≡ false
unfolding kind_cap normalize_kind_list normalize_into string_eq nat_eq trim_space
outside-pod = refl

alive : is_deleted (set_of ("web" ∷ "pod" ∷ [])).meta ≡ false
alive = refl

reconcile_outside_cap_example :
    reconcile_with platform (set_of ("web" ∷ "pod" ∷ [])) [] api cluster held
    ≡ reconcile_with platform (set_of ("web" ∷ "pod" ∷ [])) [] stuck cluster held
reconcile_outside_cap_example =
    reconcile_outside_cap platform (set_of ("web" ∷ "pod" ∷ [])) api stuck cluster [] "pod" pod held
      alive listed-pod read-pod outside-pod

-- A flag that lists two kinds.
abbrev flag : String
flag = "Service, Deployment"

flag-kinds : csv_values flag ≡ "Service" ∷ "Deployment" ∷ []
unfolding csv_values csv_into split trim_space string_eq nat_eq
flag-kinds = refl

flag-some : csv_values flag ≢ []
flag-some none_left = cc flag-kinds

unlisted-pod : contains (map trim_space (split flag b',')) "Pod" ≡ false
unfolding split trim_space string_eq nat_eq
unlisted-pod = refl

reconcile_outside_flag_example :
    reconcile_with platform (set_of ("web" ∷ "pod" ∷ [])) (csv_values flag) api cluster held
    ≡ reconcile_with platform (set_of ("web" ∷ "pod" ∷ [])) (csv_values flag) stuck cluster held
reconcile_outside_flag_example =
    reconcile_outside_flag platform (set_of ("web" ∷ "pod" ∷ [])) api stuck cluster flag "pod" pod
      held flag-some alive listed-pod read-pod unlisted-pod

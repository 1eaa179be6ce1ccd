-- ===== src/Tests/Sets.antt =====
-- The theorems on resource sets at the set of the examples.
use k1s_k8s_operator.Prelude.{
  ◌≡◌, ◌↔◌, refl, true, false, ◌||◌, [], ◌∷◌, length, map, none, string_eq, nat_eq, if◌then◌else◌,
}
use k1s_k8s_operator.Go.Errors.{Exec, ok, err, message, fail, is_not_found}
use k1s_k8s_operator.Go.Text.{char_of}
use k1s_k8s_operator.K1s.Client.Routes.{Api}
use k1s_k8s_operator.Api.Meta.{find, find_or_empty}
use k1s_k8s_operator.Api.Capability.{K1sResourceSet, K1sManagedResourceStatus}
use k1s_k8s_operator.Controller.Patch.{
  hash_bytes, hash_manifest_set, digest_input, last_applied_hash, patch_last_applied_hash,
  patch_object,
}
use k1s_k8s_operator.Controller.Kinds.{default_resource_set_allowed_kinds}
use k1s_k8s_operator.Controller.Manifest.{managed_resource, managed_resource_from_manifest}
use k1s_k8s_operator.Controller.Managed.{
  managed_resource_key, delete_managed_resource, delete_managed_resources, prune_against,
  prune_managed_resources,
}
use k1s_k8s_operator.Controller.Managed.Backend.{Address, app, cell, address_eq, any_at}
use k1s_k8s_operator.Controller.Managed.Pruning.{stale}
use k1s_k8s_operator.Controller.ResourceSet.Manifests.{desired_resources, apply_manifests}
use k1s_k8s_operator.Controller.ResourceSet.Pass.{
  Outcome, succeeded, must_apply, record_hash, prune_step, apply_step, work,
}
use k1s_k8s_operator.Controller.ResourceSet.Pass.Convergence.{pruned_at, work-converges}
use k1s_k8s_operator.Controller.ResourceSet.Pass.Readiness.{ready-iff_no_failure}
use k1s_k8s_operator.Controller.ResourceSet.Types.{done, is_orphan, capability_finalizer}
use k1s_k8s_operator.Controller.ResourceSet.Status.{synced_status}
use k1s_k8s_operator.Controller.ResourceSet.Reconcile.{finalize, remove_finalizer}
use k1s_k8s_operator.Controller.ResourceSet.Reconcile.Finalizer.{
  patching, finalize_failed, holds-finalize,
}
use k1s_k8s_operator.Controller.Managed.Pruning.{
  prune_managed_resources-stale, holds-delete_managed_resources,
}
use k1s_k8s_operator.Controller.Helpers.{contains_string}
use k1s_k8s_operator.Controller.Patch.{patch_finalizers}
use k1s_k8s_operator.Tests.Objects.{managed, set_of}
use k1s_k8s_operator.Tests.World.{World, platform, api, api-Backend, platform-Separate}

abbrev pub held : World
held = cell "shop" "llm" ∷ app "blog" ∷ []

abbrev pub synced : Outcome
synced = succeeded platform (set_of ("web" ∷ [])) true 1 (managed "Deployment" "web" "web" ∷ [])

pub work-synced :
    (work platform (set_of ("web" ∷ [])) api default_resource_set_allowed_kinds held).0 ≡ ok synced
unfolding work managed_resource_from_manifest managed_resource hash_bytes desired_resources
    must_apply last_applied_hash find_or_empty find hash_manifest_set digest_input prune_step
    apply_step apply_manifests prune_managed_resources prune_against managed_resource_key
    delete_managed_resource record_hash patch_last_applied_hash patch_object string_eq char_of
work-synced = refl

pub must_apply-synced : must_apply platform (set_of ("web" ∷ [])) ≡ true
unfolding must_apply last_applied_hash find_or_empty find hash_manifest_set digest_input string_eq
    char_of
must_apply-synced = refl

work-converges_example :
    (desired_resources platform default_resource_set_allowed_kinds ("web" ∷ [])
      ≡ ok (managed "Deployment" "web" "web" ∷ []))
    × (1 ≡ length (set_of ("web" ∷ [])).spec.manifests)
    × ((a : Address)
        → api-Backend.holds
            (work platform (set_of ("web" ∷ [])) api default_resource_set_allowed_kinds held).1
            a
          ≡ (any_at synced.managed a
              || (if pruned_at platform (set_of ("web" ∷ [])) api synced.managed a
                  then false
                  else api-Backend.holds held a)))
work-converges_example =
    work-converges platform (set_of ("web" ∷ [])) api api-Backend default_resource_set_allowed_kinds
      held synced platform-Separate must_apply-synced work-synced refl

ready-iff_no_failure_example :
    ((synced_status platform (set_of ("web" ∷ [])) true synced.progress synced.managed 7).ready
      ≡ true)
    ↔ (synced.progress.failure ≡ none)
ready-iff_no_failure_example =
    ready-iff_no_failure platform (set_of ("web" ∷ [])) api default_resource_set_allowed_kinds held
      synced 7 work-synced

abbrev web : K1sManagedResourceStatus
web = managed "Deployment" "web" "web"

abbrev pub pod : K1sManagedResourceStatus
pod = record { kind = "Pod"; namespace = "default"; name = "web"; hash = "pod" }

-- An API that refuses to delete a cell.
abbrev pub stuck : Api World
stuck = record api { delete_inference_cell = λ namespace name. fail (message "busy") }

has_finalizer : contains_string (set_of []).meta.finalizers capability_finalizer ≡ true
unfolding contains_string string_eq
has_finalizer = refl

not_orphan : is_orphan (set_of []).spec.delete_policy ≡ false
not_orphan = refl

stuck-fails :
    delete_managed_resources stuck (set_of []).status.managed_resources held
    ≡ (err (message "busy"), held)
unfolding delete_managed_resources delete_managed_resource is_not_found string_eq
stuck-fails = refl

finalize_failed_example :
    ((finalize platform (set_of []) stuck held).0 ≡ err (message "busy"))
    × ((patch : K1sResourceSet → K1sResourceSet → Exec World (Unit {0}))
        → finalize (patching platform patch) (set_of []) stuck held
          ≡ finalize platform (set_of []) stuck held)
finalize_failed_example =
    finalize_failed platform (set_of []) stuck held held (message "busy") has_finalizer not_orphan
      stuck-fails

deletes-cell : (delete_managed_resources api (set_of []).status.managed_resources held).0 ≡ ok tt
unfolding delete_managed_resources delete_managed_resource string_eq address_eq
deletes-cell = refl

holds-delete_managed_resources_example :
    api-Backend.holds
      (delete_managed_resources api (set_of []).status.managed_resources held).1
      (cell "shop" "llm")
    ≡ (if any_at (set_of []).status.managed_resources (cell "shop" "llm")
        then false
        else api-Backend.holds held (cell "shop" "llm"))
holds-delete_managed_resources_example =
    holds-delete_managed_resources platform api api-Backend (set_of []).status.managed_resources
      held (cell "shop" "llm") deletes-cell

finalize-ends : (finalize platform (set_of []) api held).0 ≡ ok done
unfolding finalize remove_finalizer contains_string delete_managed_resources delete_managed_resource
    patch_finalizers patch_object string_eq
finalize-ends = refl

holds-finalize_example :
    api-Backend.holds (finalize platform (set_of []) api held).1 (cell "shop" "llm") ≡ (
      if any_at (set_of []).status.managed_resources (cell "shop" "llm")
      then false
      else api-Backend.holds held (cell "shop" "llm"))
holds-finalize_example =
    holds-finalize platform (set_of []) api api-Backend platform-Separate held (cell "shop" "llm")
      has_finalizer not_orphan finalize-ends

prune_managed_resources-stale_example :
    prune_managed_resources api (web ∷ pod ∷ []) (web ∷ [])
    ≡ delete_managed_resources api (stale (map managed_resource_key (web ∷ [])) (web ∷ pod ∷ []))
prune_managed_resources-stale_example =
    prune_managed_resources-stale api (web ∷ pod ∷ []) (web ∷ [])

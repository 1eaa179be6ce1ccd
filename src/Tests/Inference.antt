-- ===== src/Tests/Inference.antt =====
-- The theorems on inference endpoints at an endpoint of one cell.
use k1s_k8s_operator.Prelude.{
  ◌≡◌, refl, true, false, ◌&&◌, ◌||◌, [], ◌∷◌, ◌==◌, string_eq, if◌then◌else◌,
}
use k1s_k8s_operator.Go.Values.{empty, lookup}
use k1s_k8s_operator.Go.Errors.{ok}
use k1s_k8s_operator.K1s.Status.{InferenceStatus}
use k1s_k8s_operator.Api.Meta.{find, find_or_empty}
use k1s_k8s_operator.Api.Capability.{K1sInferenceEndpoint}
use k1s_k8s_operator.Controller.Helpers.{contains_string, str_map}
use k1s_k8s_operator.Controller.Patch.{
  last_applied_hash, hash_bytes, patch_object, patch_finalizers, patch_last_applied_hash,
}
use k1s_k8s_operator.Controller.Manifest.{managed_resource, managed_resource_from_manifest}
use k1s_k8s_operator.Controller.Managed.Backend.{Address, cell, address_eq}
use k1s_k8s_operator.Controller.ResourceSet.Types.{capability_finalizer, done, is_orphan}
use k1s_k8s_operator.Controller.Upkeep.{
  observed, Outcome, manifest_changed, survey, apply_manifest, observe, upkeep,
}
use k1s_k8s_operator.Controller.Inference.Manifest.{inference_payload}
use k1s_k8s_operator.Controller.Inference.Pass.{inference_status_for_endpoint, inference_work}
use k1s_k8s_operator.Controller.Inference.Pass.Address.{
  endpoint_address, header_of, inference_work-holds,
}
use k1s_k8s_operator.Controller.Inference.Reconcile.{remove_inference_finalizer, finalize_inference}
use k1s_k8s_operator.Controller.Inference.Reconcile.Finalizer.{holds-finalize_inference}
use k1s_k8s_operator.Tests.Objects.{endpoint_of, serving}
use k1s_k8s_operator.Tests.World.{World, platform, api, api-Backend, platform-endpoints-Separate}

abbrev llama : K1sInferenceEndpoint
llama = endpoint_of "llama"

abbrev brought : Outcome InferenceStatus
brought = record { should = true; out = empty; observation = observed (serving "llm") }

abbrev no_cells : World
no_cells = []

work-brought : (inference_work platform llama api "cell" no_cells).0 ≡ ok brought
unfolding inference_work inference_status_for_endpoint upkeep survey manifest_changed
    last_applied_hash hash_bytes find_or_empty find apply_manifest observe
    managed_resource_from_manifest managed_resource patch_last_applied_hash patch_object string_eq
    address_eq
work-brought = refl

read-cell : platform.manifest_header "cell" ≡ header_of (inference_payload llama)
unfolding inference_payload str_map lookup string_eq
read-cell = refl

abbrev llm : Address
llm = cell "shop" "llm"

has_name : (llama.meta.name == "") ≡ false
unfolding string_eq
has_name = refl

has_namespace : (llama.meta.namespace == "") ≡ false
unfolding string_eq
has_namespace = refl

inference_work-holds_example :
    api-Backend.holds (inference_work platform llama api "cell" no_cells).1 llm
    ≡ (brought.should && llm == endpoint_address llama || api-Backend.holds no_cells llm)
inference_work-holds_example =
    inference_work-holds platform llama api api-Backend platform-endpoints-Separate
      (λ namespace name w a. refl) (λ namespace name w a. refl) "cell" no_cells brought llm
      read-cell has_name has_namespace work-brought refl

has_finalizer : contains_string llama.meta.finalizers capability_finalizer ≡ true
unfolding contains_string string_eq
has_finalizer = refl

not_orphan : is_orphan llama.spec.delete_policy ≡ false
not_orphan = refl

abbrev one_cell : World
one_cell = llm ∷ []

finalized : (finalize_inference platform llama api one_cell).0 ≡ ok done
unfolding finalize_inference remove_inference_finalizer contains_string patch_finalizers
    patch_object string_eq
finalized = refl

holds-finalize_inference_example :
    api-Backend.holds (finalize_inference platform llama api one_cell).1 llm
    ≡ (if llm == endpoint_address llama then false else api-Backend.holds one_cell llm)
holds-finalize_inference_example =
    holds-finalize_inference platform llama api api-Backend platform-endpoints-Separate one_cell llm
      has_finalizer not_orphan finalized

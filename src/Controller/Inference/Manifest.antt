-- ===== src/Controller/Inference/Manifest.antt =====
-- `buildInferenceManifest` of capability_controller.go: the manifest that describes an inference
-- endpoint to k1s, as the value that is marshalled and as its JSON text.
use k1s_k8s_operator.Prelude.{
  String, List, [], ◌∷◌, Option, none, some, ℤ, pos, zero, ◌==◌, string_eq, if◌then◌else◌,
}
use k1s_k8s_operator.Go.Values.{
  Any, nil, int32, string, slice, object, Items, end, item, Fields, empty, field, assign_field,
}
use k1s_k8s_operator.Go.Errors.{message, Result, err}
use k1s_k8s_operator.Api.Capability.{
  K1sInferenceMemberSpec, K1sInferenceExecutorSpec, K1sInferenceCellSetSpec, K1sInferenceEndpoint,
}
use k1s_k8s_operator.Controller.Helpers.{first_non_empty, default_i32}
use k1s_k8s_operator.Controller.Platform.{Platform}

unfoldable pub add_string : Fields → (key value : String) → Fields
add_string payload key value =
    if value == "" then payload else assign_field payload key (string value)

abbrev pub add_int32 : Fields → String → ℤ → Fields
add_int32 payload key (pos zero) = payload
add_int32 payload key value = assign_field payload key (int32 value)

-- How encoding/json writes a member: the tags of its fields are `omitempty`.
unfoldable pub member_fields : K1sInferenceMemberSpec → Fields
unfolding add_string
member_fields m =
    add_int32 (add_string (add_string empty "siteId" m.site_id) "nodeId" m.node_id) "gpuCount"
      m.gpu_count

unfoldable pub member_items : List K1sInferenceMemberSpec → Items
member_items [] = end
member_items (m ∷ ms) = item (object (member_fields m)) (member_items ms)

abbrev pub members_value : Option (List K1sInferenceMemberSpec) → Any
members_value none = nil
members_value (some ms) = slice (member_items ms)

unfoldable pub executor_fields : K1sInferenceExecutorSpec → Fields
unfolding add_string first_non_empty
executor_fields executor =
    let fields = field "type" (string (first_non_empty (executor.kind ∷ "ray" ∷ []))) empty in
    let fields = add_string fields "fallbackMode" executor.fallback_mode in
    let fields = add_string fields "rayImage" executor.ray_image in
    let fields = add_string fields "mpImage" executor.mp_image in
    let fields = add_string fields "launcherImage" executor.launcher_image in
    let fields = add_string fields "dtype" executor.dtype in
    add_string fields "runtimeClassName" executor.runtime_class_name

module _ (endpoint : K1sInferenceEndpoint) where
  -- the spec of one cell
  unfoldable pub cell_spec : Fields
  unfolding first_non_empty default_i32
  cell_spec =
      let spec = endpoint.spec in
      field "model"
        (object (
          field "modelId" (string spec.model.model_id)
            (field "localPath" (string spec.model.local_path) empty)))
        (field "parallelism"
          (object (
            field "tp" (int32 (default_i32 spec.parallelism.tp (pos 1)))
              (field "pp" (int32 (default_i32 spec.parallelism.pp (pos 1))) empty)))
          (field "executor" (object (executor_fields spec.executor)) (
            field "fabric"
              (object (
                field "mode" (string (first_non_empty (spec.fabric.mode ∷ "lan_direct" ∷ []))) (
                  field "policyMode"
                    (string (first_non_empty (spec.fabric.policy_mode ∷ "strict_membership" ∷ [])))
                    (field "ttlSeconds" (int32 (default_i32 spec.fabric.ttl_seconds (pos 300)))
                      empty))))
              (field "members" (members_value spec.members)
                (field "linkMetrics" (slice end) empty)))))

  -- a cell set wraps the spec of its cells
  abbrev pub wrapped_spec : Option K1sInferenceCellSetSpec → Fields
  wrapped_spec none = cell_spec
  wrapped_spec (some cell_set) = field "replicas" (int32 (default_i32 cell_set.replicas (pos 1))) (
      field "nameFormat" (string (first_non_empty (cell_set.name_format ∷ "{set}-{i:03d}" ∷ [])))
        (field "template" (object cell_spec) empty))

  abbrev pub inference_kind : Option K1sInferenceCellSetSpec → String
  inference_kind none = "InferenceCell"
  inference_kind (some cell_set) = "InferenceCellSet"

  unfoldable pub inference_payload : Fields
  inference_payload = field "apiVersion" (string "ae.dev/v1alpha1") (
      field "kind" (string (inference_kind endpoint.spec.cell_set)) (
        field "metadata"
          (object (
            field "name" (string endpoint.meta.name) (
              field "namespace" (string endpoint.meta.namespace) (
                field "labels"
                  (object (
                    field "app.kubernetes.io/managed-by" (string "k1s-operator") (
                      field "operator.k1s.io/inference-endpoint" (string endpoint.meta.name)
                        empty)))
                  empty))))
          (field "spec" (object (wrapped_spec endpoint.spec.cell_set)) empty)))

  module _ {W : Type 0} (P : Platform W) where
    unfoldable pub build_inference_manifest : Result String
    build_inference_manifest =
        if endpoint.spec.model.model_id == ""
        then err (message "spec.model.modelId is required")
        else P.transport.marshal inference_payload

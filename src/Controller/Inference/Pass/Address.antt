-- ===== src/Controller/Inference/Pass/Address.antt =====
-- The manifest that is built for an inference endpoint, the status that is asked for and the deletion
-- are all of one address of k1s.
use k1s_k8s_operator.Prelude.{
  ◌≡◌, refl, ap, ◌∙◌, String, Bool, true, false, ◌&&◌, ◌||◌, Option, none, some, ◌==◌, string_eq,
}
use k1s_k8s_operator.Go.Values.{Any, object, Fields, empty, lookup}
use k1s_k8s_operator.Go.Errors.{ok}
use k1s_k8s_operator.K1s.Status.{InferenceStatus}
use k1s_k8s_operator.K1s.Client.Routes.{Api}
use k1s_k8s_operator.Api.Capability.{
  K1sManagedResourceStatus, K1sInferenceCellSetSpec, K1sInferenceEndpoint,
}
use k1s_k8s_operator.Controller.Helpers.{str_map}
use k1s_k8s_operator.Controller.Platform.{ManifestHeader, Platform}
use k1s_k8s_operator.Controller.Patch.{hash_bytes}
use k1s_k8s_operator.Controller.Manifest.{managed_resource, managed_resource_from_manifest}
use k1s_k8s_operator.Controller.Separate.{Leaves, Separate}
use k1s_k8s_operator.Controller.Managed.Backend.{
  Address, cell, cell_set, address_eq, stands_at, Backend,
}
use k1s_k8s_operator.Controller.Upkeep.{Outcome, was_applied}
use k1s_k8s_operator.Controller.Upkeep.Repair.{upkeep-holds}
use k1s_k8s_operator.Controller.Inference.Manifest.{inference_kind, inference_payload}
use k1s_k8s_operator.Controller.Inference.Pass.{
  ask_for, inference_status_for_endpoint, upkept_inference, inference_work,
}

-- where a cell, or a cell set, of this namespace and name is
abbrev pub inference_address : (namespace name : String) → Option K1sInferenceCellSetSpec → Address
inference_address namespace name none = cell namespace name
inference_address namespace name (some spec) = cell_set namespace name

abbrev pub endpoint_address : K1sInferenceEndpoint → Address
endpoint_address endpoint =
    inference_address endpoint.meta.namespace endpoint.meta.name endpoint.spec.cell_set

abbrev fields_of : Any → Fields
fields_of (object fields) = fields
fields_of _ = empty

-- what json.Unmarshal reads, in the JSON text of this object, for the header of a manifest
abbrev pub header_of : Fields → ManifestHeader
header_of payload = record {
  kind = str_map payload "kind";
  name = str_map (fields_of (lookup payload "metadata")) "name";
  namespace = str_map (fields_of (lookup payload "metadata")) "namespace";
  failure = none;
}

module _ {W : Type 0} (P : Platform W) (endpoint : K1sInferenceEndpoint) where
  abbrev built_resource : String → K1sManagedResourceStatus
  built_resource raw = record {
    kind = inference_kind endpoint endpoint.spec.cell_set;
    namespace = endpoint.meta.namespace;
    name = endpoint.meta.name;
    hash = hash_bytes P raw;
  }

  header_of-inference_payload : header_of (inference_payload endpoint) ≡ record {
    kind = inference_kind endpoint endpoint.spec.cell_set;
    name = endpoint.meta.name;
    namespace = endpoint.meta.namespace;
    failure = none;
  }
  unfolding inference_payload str_map lookup string_eq
  header_of-inference_payload = refl

  kind_not_empty : (c : Option K1sInferenceCellSetSpec) → (inference_kind endpoint c == "") ≡ false
  unfolding string_eq
  kind_not_empty none = refl
  kind_not_empty (some c) = refl

  managed_resource_built :
      (raw : String)
      → P.manifest_header raw ≡ header_of (inference_payload endpoint)
      → (endpoint.meta.name == "") ≡ false
      → (endpoint.meta.namespace == "") ≡ false
      → managed_resource_from_manifest P raw ≡ ok (built_resource raw)
  unfolding managed_resource_from_manifest managed_resource
  managed_resource_built raw reads named spaced =
      rw (reads ∙ header_of-inference_payload, kind_not_empty endpoint.spec.cell_set, named, spaced)

  stands_at-inference :
      (c : Option K1sInferenceCellSetSpec) (raw : String) (a : Address)
      → stands_at (record (built_resource raw) { kind = inference_kind endpoint c }) a
        ≡ (a == inference_address endpoint.meta.namespace endpoint.meta.name c)
  unfolding stands_at string_eq
  stands_at-inference none raw a = refl
  stands_at-inference (some c) raw a = refl

  module _ (api : Api W) (B : Backend P api) (S : Separate P P.inference_endpoints B.holds)
      (asks_cell : (namespace name : String)
        → Leaves B.holds (api.inference_cell_status namespace name))
      (asks_cell_set : (namespace name : String)
        → Leaves B.holds (api.inference_cell_set_status namespace name)) where
    ask_for-Leaves :
        (c : Option K1sInferenceCellSetSpec) → Leaves B.holds (ask_for P endpoint api c)
    ask_for-Leaves none = asks_cell _ _
    ask_for-Leaves (some c) = asks_cell_set _ _

    -- A pass over an endpoint with a name and a namespace, whose apply does not fail, brings to k1s the cell
    -- of that namespace and name, or the cell set if the endpoint has one, where it sends the manifest at all,
    -- and changes nothing else in k1s. The JSON text of the manifest is read as what was marshalled; the k1s
    -- API behaves as `Backend` says; reading a status and the calls of Kubernetes change nothing in k1s.
    pub inference_work-holds :
        (raw : String) (w : W) (o : Outcome InferenceStatus) (a : Address)
        → P.manifest_header raw ≡ header_of (inference_payload endpoint)
        → (endpoint.meta.name == "") ≡ false
        → (endpoint.meta.namespace == "") ≡ false
        → (inference_work P endpoint api raw w).0 ≡ ok o
        → was_applied o.observation ≡ true
        → B.holds (inference_work P endpoint api raw w).1 a
          ≡ (o.should && a == endpoint_address endpoint || B.holds w a)
    unfolding inference_work inference_status_for_endpoint
    inference_work-holds raw w o a reads named spaced h g =
        upkeep-holds P api (upkept_inference P endpoint api raw) B S (ask_for-Leaves _)
          (built_resource raw) w o a (managed_resource_built raw reads named spaced) h g
        ∙ ap (λ (b : Bool). o.should && b || B.holds w a)
            (stands_at-inference endpoint.spec.cell_set raw a)

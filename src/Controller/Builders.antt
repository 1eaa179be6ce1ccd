-- ===== src/Controller/Builders.antt =====
-- internal/controller/builders.go: the service, the endpoint slice and the ingress of an exposure, by the
-- fields that are set.
pub mod Wiring
use k1s_k8s_operator.Prelude.{
  String, Bool, not, List, [], ◌∷◌, Option, none, some, ◌==◌, string_eq, if◌then◌else◌, ℤ, pos,
  ltb_ℤ,
}
use k1s_k8s_operator.Go.Errors.{message, Result, ok, err}
use k1s_k8s_operator.Api.Meta.{StringMap, ObjectMeta, assign}
use k1s_k8s_operator.Api.Cluster.{
  K1sProxyMode, K1sProxyServiceRef, K1sProxyExternalSpec, K1sCluster, service, external,
  unsupported,
}
use k1s_k8s_operator.Api.Exposure.{K1sExposure, ingress_enabled_or_default}
use k1s_k8s_operator.Controller.Names.{
  exposure_service_name, exposure_endpoint_slice_name, exposure_ingress_name, exposure_path,
  exposure_service_port, managed_labels,
}
use k1s_k8s_operator.Controller.Platform.{SliceEndpoint}
use k1s_k8s_operator.Controller.Proxy.{ProxyEndpoint}

-- A port of a service or of an endpoint slice; the target port of an endpoint slice is the port itself.
pub record ServicePort : Type 0 where
  pub name : String
  pub protocol : String
  pub port : ℤ
  pub target_port : ℤ

pub record Service : Type 0 where
  pub meta : ObjectMeta
  pub kind : String
  pub ports : List ServicePort

pub record EndpointSlice : Type 0 where
  pub meta : ObjectMeta
  pub address_type : String
  pub ports : List ServicePort
  pub endpoints : List SliceEndpoint

pub record IngressPath : Type 0 where
  pub path : String
  pub path_type : String
  pub service_name : String
  pub service_port : ℤ

pub record IngressRule : Type 0 where
  pub host : String
  pub paths : List IngressPath

pub record IngressTls : Type 0 where
  pub hosts : List String
  pub secret_name : String

pub record Ingress : Type 0 where
  pub meta : ObjectMeta
  pub class_name : Option String
  pub rules : List IngressRule
  pub tls : List IngressTls

-- `discoveryv1.LabelServiceName`
abbrev pub label_service_name : String
label_service_name = "kubernetes.io/service-name"

abbrev pub new_meta : (name namespace : String) (labels annotations : StringMap) → ObjectMeta
new_meta name namespace labels annotations = record {
  name = name;
  namespace = namespace;
  generation = 0;
  labels = labels;
  annotations = annotations;
  finalizers = [];
  deletion_timestamp = none;
}

-- the loop over the endpoints, which passes over those with no address
unfoldable pub slice_endpoints : List ProxyEndpoint → List SliceEndpoint
slice_endpoints [] = []
slice_endpoints (e ∷ es) =
    let rest = slice_endpoints es in
    elim e.addresses [
      | [] ↦ rest
      | a ∷ more ↦
          record { addresses = a ∷ more; node_name = e.node_name; ready = some e.ready } ∷ rest
    ]

module _ (cluster : K1sCluster) (exposure : K1sExposure) where
  abbrev pub http_port : ℤ → ServicePort
  http_port port = record { name = "http"; protocol = "TCP"; port = port; target_port = port }

  abbrev pub positive_or_service_port : ℤ → ℤ
  positive_or_service_port port =
      if ltb_ℤ (pos 0) port then port else exposure_service_port exposure

  abbrev pub service_ref_port : Option K1sProxyServiceRef → ℤ
  service_ref_port none = exposure_service_port exposure
  service_ref_port (some ref) = positive_or_service_port ref.port

  abbrev pub external_port : Option K1sProxyExternalSpec → ℤ
  external_port none = exposure_service_port exposure
  external_port (some spec) = positive_or_service_port spec.port

  abbrev pub target_port_of : K1sProxyMode → ℤ
  target_port_of service = service_ref_port cluster.spec.proxy.service_ref
  target_port_of external = external_port cluster.spec.proxy.external
  target_port_of (unsupported mode) = exposure_service_port exposure

  unfoldable pub proxy_target_port : ℤ
  proxy_target_port = target_port_of cluster.spec.proxy.mode

  unfoldable pub build_exposure_service : Service
  build_exposure_service = record {
    meta =
        new_meta (exposure_service_name exposure) exposure.meta.namespace
          (managed_labels exposure cluster.meta.name) [];
    kind = "ClusterIP";
    ports = http_port (exposure_service_port exposure) ∷ [];
  }

  unfoldable pub build_exposure_endpoint_slice : List ProxyEndpoint → EndpointSlice
  build_exposure_endpoint_slice endpoints = record {
    meta =
        new_meta (exposure_endpoint_slice_name exposure) exposure.meta.namespace
          (assign label_service_name (exposure_service_name exposure)
            (managed_labels exposure cluster.meta.name))
          [];
    address_type = "IPv4";
    ports = http_port proxy_target_port ∷ [];
    endpoints = slice_endpoints endpoints;
  }

  unfoldable pub build_exposure_ingress : Result (Option Ingress)
  build_exposure_ingress =
      if not (ingress_enabled_or_default exposure.spec.ingress)
      then ok none
      else if exposure.spec.host == ""
      then err (message "host is required when ingress is enabled")
      else ok (
          some (record {
            meta =
                new_meta (exposure_ingress_name exposure) exposure.meta.namespace
                  (managed_labels exposure cluster.meta.name) exposure.spec.ingress.annotations;
            class_name = exposure.spec.ingress.class_name;
            rules =
                record {
                  host = exposure.spec.host;
                  paths =
                      record {
                        path = exposure_path exposure;
                        path_type = "Prefix";
                        service_name = exposure_service_name exposure;
                        service_port = exposure_service_port exposure;
                      }
                      ∷ [];
                }
                ∷ [];
            tls =
                if exposure.spec.ingress.tls_secret_name == ""
                then []
                else record {
                  hosts = exposure.spec.host ∷ [];
                  secret_name = exposure.spec.ingress.tls_secret_name;
                }
                  ∷ [];
          }))

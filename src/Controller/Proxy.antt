-- ===== src/Controller/Proxy.antt =====
-- internal/controller/proxy.go, and `ProxyEndpoint` of builders.go.
pub mod Endpoints
pub mod Ready
use k1s_k8s_operator.Prelude.{
  String, ◌<>◌, Bool, true, false, List, [], ◌∷◌, ◌++◌, map, Option, none, some, ◌==◌, string_eq,
  if◌then◌else◌,
}
use k1s_k8s_operator.Go.Errors.{Error, message, Result, ok, err}
use k1s_k8s_operator.Api.Common.{namespace_or}
use k1s_k8s_operator.Api.Cluster.{
  K1sProxyMode, K1sProxyServiceRef, K1sProxyExternalSpec, K1sCluster, service, external,
  unsupported,
}
use k1s_k8s_operator.Controller.Auth.{quoted}
use k1s_k8s_operator.Controller.Platform.{SliceEndpoint, Platform}

pub record ProxyEndpoint : Type 0 where
  pub addresses : List String
  pub node_name : Option String
  pub ready : Bool

-- The two results of `discoverProxyEndpoints`, which can both be there.
pub record Discovery : Type 0 where
  pub endpoints : List ProxyEndpoint
  pub failure : Option Error

abbrev pub undiscovered : Error → Discovery
undiscovered e = record { endpoints = []; failure = some e }

-- an endpoint is ready unless its condition says that it is not
abbrev pub is_ready_endpoint : SliceEndpoint → Bool
is_ready_endpoint e = elim e.ready [ none ↦ true | some ready ↦ ready ]

abbrev pub proxy_endpoint : SliceEndpoint → ProxyEndpoint
proxy_endpoint e = record { addresses = e.addresses; node_name = e.node_name; ready = true }

-- the loop over the endpoints of one slice
unfoldable pub ready_endpoints : List SliceEndpoint → List ProxyEndpoint
ready_endpoints [] = []
ready_endpoints (e ∷ es) =
    let rest = ready_endpoints es in if is_ready_endpoint e then proxy_endpoint e ∷ rest else rest

-- the loop over the slices
unfoldable pub ready_in_slices : List (List SliceEndpoint) → List ProxyEndpoint
ready_in_slices [] = []
ready_in_slices (slice ∷ slices) = ready_endpoints slice ++ ready_in_slices slices

abbrev pub address_endpoint : String → ProxyEndpoint
address_endpoint address = record { addresses = address ∷ []; node_name = none; ready = true }

module _ {W : Type 0} (P : Platform W) where
  -- the loop over the listed addresses, which passes over what is no IP address
  unfoldable pub external_addresses : List String → List ProxyEndpoint
  external_addresses [] = []
  external_addresses (address ∷ addresses) =
      let rest = external_addresses addresses in
      if P.is_ip address then address_endpoint address ∷ rest else rest

  abbrev pub in_slices : Result (List (List SliceEndpoint)) × W → Discovery × W
  in_slices (err e, w) = (undiscovered e, w)
  in_slices (ok slices, w) = (record { endpoints = ready_in_slices slices; failure = none }, w)

  unfoldable pub service_endpoints : String → Option K1sProxyServiceRef → W → Discovery × W
  service_endpoints cluster_namespace none w =
      (undiscovered (message "proxy.serviceRef is required when proxy.mode=Service"), w)
  service_endpoints cluster_namespace (some ref) w =
      in_slices (P.endpoint_slices (namespace_or ref.namespace cluster_namespace) ref.name w)

  -- behind the resolver: beside its error stand the endpoints of the listed addresses
  abbrev pub resolved : List ProxyEndpoint → Result (List String) × W → Discovery × W
  resolved out (err e, w) = (record { endpoints = out; failure = some e }, w)
  resolved out (ok found, w) =
      (record { endpoints = out ++ map address_endpoint found; failure = none }, w)

  unfoldable pub external_endpoints : Option K1sProxyExternalSpec → W → Discovery × W
  external_endpoints none w =
      (undiscovered (message "proxy.external is required when proxy.mode=External"), w)
  external_endpoints (some spec) w =
      if spec.dns_name == ""
      then (record { endpoints = external_addresses spec.addresses; failure = none }, w)
      else resolved (external_addresses spec.addresses) (P.lookup_host spec.dns_name w)

  abbrev pub discover_by : K1sCluster → K1sProxyMode → W → Discovery × W
  discover_by cluster service w =
      service_endpoints cluster.meta.namespace cluster.spec.proxy.service_ref w
  discover_by cluster external w = external_endpoints cluster.spec.proxy.external w
  discover_by cluster (unsupported mode) w =
      (undiscovered (message ("unsupported proxy.mode " <> quoted mode)), w)

  unfoldable pub discover_proxy_endpoints : K1sCluster → W → Discovery × W
  discover_proxy_endpoints cluster = discover_by cluster cluster.spec.proxy.mode

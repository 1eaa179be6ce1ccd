-- ===== src/Controller/Proxy/Ready.antt =====
-- The readiness of the endpoints that proxy.go discovers.
use k1s_k8s_operator.Prelude.{
  String, ◌≡◌, refl, true, List, [], ◌∷◌, ◌++◌, map, Option, none, some, All, ◌==◌, string_eq,
  Bool-cases, inl, inr,
}
use k1s_k8s_operator.Go.Errors.{Result, ok, err}
use k1s_k8s_operator.Api.Cluster.{
  K1sProxyMode, K1sProxyServiceRef, K1sProxyExternalSpec, K1sCluster, service, external,
  unsupported,
}
use k1s_k8s_operator.Controller.Platform.{SliceEndpoint, Platform}
use k1s_k8s_operator.Controller.Proxy.{
  ProxyEndpoint, is_ready_endpoint, ready_endpoints, ready_in_slices, address_endpoint,
  external_addresses, in_slices, service_endpoints, resolved, discover_by, external_endpoints,
  discover_proxy_endpoints,
}

abbrev pub IsReady : ProxyEndpoint → Type 0
IsReady e = e.ready ≡ true

All-append : (xs ys : List ProxyEndpoint) → All IsReady xs → All IsReady ys → All IsReady (xs ++ ys)
All-append [] ys h g = g
All-append (x ∷ xs) ys (hx, h) g = (hx, All-append xs ys h g)

ready_endpoints-All : (es : List SliceEndpoint) → All IsReady (ready_endpoints es)
unfolding ready_endpoints
ready_endpoints-All [] = tt
ready_endpoints-All (e ∷ es) = elim (Bool-cases (is_ready_endpoint e)) [
  | inl is ↦ rw is (refl, ready_endpoints-All es)
  | inr not_ready ↦ rw not_ready (ready_endpoints-All es)
]

ready_in_slices-All : (slices : List (List SliceEndpoint)) → All IsReady (ready_in_slices slices)
unfolding ready_in_slices
ready_in_slices-All [] = tt
ready_in_slices-All (slice ∷ slices) =
    All-append _ _ (ready_endpoints-All slice) (ready_in_slices-All slices)

address_endpoint-All : (found : List String) → All IsReady (map address_endpoint found)
address_endpoint-All [] = tt
address_endpoint-All (x ∷ xs) = (refl, address_endpoint-All xs)

module _ {W : Type 0} (P : Platform W) where
  external_addresses-All : (addresses : List String) → All IsReady (external_addresses P addresses)
  unfolding external_addresses
  external_addresses-All [] = tt
  external_addresses-All (a ∷ more) = elim (Bool-cases (P.is_ip a)) [
    | inl ip ↦ rw ip (refl, external_addresses-All more)
    | inr other ↦ rw other (external_addresses-All more)
  ]

  in_slices-All :
      (p : Result (List (List SliceEndpoint)) × W) → All IsReady (in_slices P p).0.endpoints
  in_slices-All (err e, w) = tt
  in_slices-All (ok slices, w) = ready_in_slices-All slices

  service_endpoints-All :
      (namespace : String) (ref : Option K1sProxyServiceRef) (w : W)
      → All IsReady (service_endpoints P namespace ref w).0.endpoints
  unfolding service_endpoints
  service_endpoints-All namespace none w = tt
  service_endpoints-All namespace (some ref) w = in_slices-All _

  resolved-All :
      (out : List ProxyEndpoint)
      → All IsReady out
      → (p : Result (List String) × W) → All IsReady (resolved P out p).0.endpoints
  resolved-All out h (err e, w) = h
  resolved-All out h (ok found, w) = All-append out _ h (address_endpoint-All found)

  external_endpoints-All :
      (spec : Option K1sProxyExternalSpec) (w : W)
      → All IsReady (external_endpoints P spec w).0.endpoints
  unfolding external_endpoints
  external_endpoints-All none w = tt
  external_endpoints-All (some spec) w = elim (Bool-cases (spec.dns_name == "")) [
    | inl blank ↦ rw blank (external_addresses-All spec.addresses)
    | inr named ↦ rw named (resolved-All _ (external_addresses-All spec.addresses) _)
  ]

  discover_by-All :
      (cluster : K1sCluster) (mode : K1sProxyMode) (w : W)
      → All IsReady (discover_by P cluster mode w).0.endpoints
  discover_by-All cluster service w = service_endpoints-All _ _ w
  discover_by-All cluster external w = external_endpoints-All _ w
  discover_by-All cluster (unsupported mode) w = tt

  -- Whatever the mode of the proxy, and whether or not an error comes with them, every endpoint that is
  -- discovered is a ready one.
  pub discover_proxy_endpoints-All :
      (cluster : K1sCluster) (w : W)
      → All IsReady (discover_proxy_endpoints P cluster w).0.endpoints
  unfolding discover_proxy_endpoints
  discover_proxy_endpoints-All cluster w = discover_by-All cluster cluster.spec.proxy.mode w

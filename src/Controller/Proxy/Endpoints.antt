-- ===== src/Controller/Proxy/Endpoints.antt =====
-- The endpoints that are discovered, against what the mode of the proxy offers.
use k1s_k8s_operator.Prelude.{
  String, ◌≡◌, refl, sym, ap, List, [], ◌∷◌, ◌++◌, map, append-nil, Bool, true, false, Option, none,
  some, ◌==◌, string_eq, Bool-cases, inl, inr, if◌then◌else◌,
}
use k1s_k8s_operator.Go.Errors.{Result, ok, err}
use k1s_k8s_operator.Api.Common.{namespace_or}
use k1s_k8s_operator.Api.Cluster.{
  K1sProxyMode, K1sProxyServiceRef, K1sProxyExternalSpec, K1sCluster, service, external,
  unsupported,
}
use k1s_k8s_operator.Controller.Platform.{SliceEndpoint, Platform}
use k1s_k8s_operator.Controller.Proxy.{
  ProxyEndpoint, proxy_endpoint, ready_endpoints, ready_in_slices, address_endpoint,
  external_addresses, in_slices, service_endpoints, resolved, discover_by, external_endpoints,
  discover_proxy_endpoints,
}

-- those that a test holds of, in their order
abbrev pub chosen : {A : Type 0} → (A → Bool) → List A → List A
chosen test [] = []
chosen test (x ∷ xs) = if test x then x ∷ chosen test xs else chosen test xs

abbrev pub joined : {A : Type 0} → List (List A) → List A
joined [] = []
joined (xs ∷ rest) = xs ++ joined rest

-- whether the condition is absent or true, as Kubernetes documents it
abbrev pub serves : Option Bool → Bool
serves none = true
serves (some b) = b

abbrev pub offered_slices : Result (List (List SliceEndpoint)) → List ProxyEndpoint
offered_slices (err e) = []
offered_slices (ok slices) = map proxy_endpoint (chosen (λ e. serves e.ready) (joined slices))

abbrev pub resolved_addresses : Result (List String) → List String
resolved_addresses (err e) = []
resolved_addresses (ok found) = found

module _ {W : Type 0} (P : Platform W) where
  abbrev pub offered_service :
      (namespace : String) → Option K1sProxyServiceRef → W → List ProxyEndpoint
  offered_service namespace none w = []
  offered_service namespace (some ref) w =
      offered_slices (P.endpoint_slices (namespace_or ref.namespace namespace) ref.name w).0

  abbrev pub offered_external : Option K1sProxyExternalSpec → W → List ProxyEndpoint
  offered_external none w = []
  offered_external (some spec) w = map address_endpoint (
      chosen P.is_ip spec.addresses
      ++ (if spec.dns_name == "" then [] else resolved_addresses (P.lookup_host spec.dns_name w).0))

  -- What a mode offers: of a service, the endpoints of its slices that are ready; of an external proxy, the
  -- IP addresses of its list, and those to which its name resolves.
  abbrev pub offered : K1sCluster → K1sProxyMode → W → List ProxyEndpoint
  offered cluster service w =
      offered_service cluster.meta.namespace cluster.spec.proxy.service_ref w
  offered cluster external w = offered_external cluster.spec.proxy.external w
  offered cluster (unsupported mode) w = []

map-append : {A B : Type 0} (f : A → B) (xs ys : List A) → map f (xs ++ ys) ≡ map f xs ++ map f ys
map-append f [] ys = refl
map-append f (x ∷ xs) ys = ap (λ zs. f x ∷ zs) (map-append f xs ys)

chosen-append :
    {A : Type 0} (test : A → Bool) (xs ys : List A)
    → chosen test (xs ++ ys) ≡ chosen test xs ++ chosen test ys
chosen-append test [] ys = refl
chosen-append test (x ∷ xs) ys = elim (Bool-cases (test x)) [
  | inl is ↦ rw (is, chosen-append test xs ys) refl
  | inr other ↦ rw (other, chosen-append test xs ys) refl
]

ready_endpoints-cons :
    (o : Option Bool) (e : SliceEndpoint) (rest : List SliceEndpoint)
    → e.ready ≡ o
    → ready_endpoints rest ≡ map proxy_endpoint (chosen (λ x. serves x.ready) rest)
    → ready_endpoints (e ∷ rest) ≡ map proxy_endpoint (chosen (λ x. serves x.ready) (e ∷ rest))
unfolding ready_endpoints
ready_endpoints-cons none e rest h same = rw (h, same) refl
ready_endpoints-cons (some true) e rest h same = rw (h, same) refl
ready_endpoints-cons (some false) e rest h same = rw (h, same) refl

ready_endpoints_lem :
    (es : List SliceEndpoint)
    → ready_endpoints es ≡ map proxy_endpoint (chosen (λ e. serves e.ready) es)
unfolding ready_endpoints
ready_endpoints_lem [] = refl
ready_endpoints_lem (e ∷ es) = ready_endpoints-cons e.ready e es refl (ready_endpoints_lem es)

ready_in_slices_lem :
    (slices : List (List SliceEndpoint))
    → ready_in_slices slices ≡ map proxy_endpoint (chosen (λ e. serves e.ready) (joined slices))
unfolding ready_in_slices
ready_in_slices_lem [] = refl
ready_in_slices_lem (slice ∷ slices) =
    rw
      (
        ready_endpoints_lem slice,
        ready_in_slices_lem slices,
        chosen-append (λ (e : SliceEndpoint). serves e.ready) slice (joined slices),
        map-append proxy_endpoint (chosen (λ e. serves e.ready) slice)
            (chosen (λ e. serves e.ready) (joined slices)),
      )
      refl

module _ {W : Type 0} (P : Platform W) where
  external_addresses_lem :
      (addresses : List String)
      → external_addresses P addresses ≡ map address_endpoint (chosen P.is_ip addresses)
  unfolding external_addresses
  external_addresses_lem [] = refl
  external_addresses_lem (a ∷ more) = elim (Bool-cases (P.is_ip a)) [
    | inl ip ↦ rw (ip, external_addresses_lem more) refl
    | inr other ↦ rw (other, external_addresses_lem more) refl
  ]

  in_slices_lem :
      (p : Result (List (List SliceEndpoint)) × W)
      → (in_slices P p).0.endpoints ≡ offered_slices p.0
  in_slices_lem (err e, w) = refl
  in_slices_lem (ok slices, w) = ready_in_slices_lem slices

  service_endpoints_lem :
      (namespace : String) (ref : Option K1sProxyServiceRef) (w : W)
      → (service_endpoints P namespace ref w).0.endpoints ≡ offered_service P namespace ref w
  unfolding service_endpoints
  service_endpoints_lem namespace none w = refl
  service_endpoints_lem namespace (some ref) w = in_slices_lem _

  resolved_lem :
      (known : List String) (p : Result (List String) × W)
      → (resolved P (map address_endpoint known) p).0.endpoints
        ≡ map address_endpoint (known ++ resolved_addresses p.0)
  resolved_lem known (err e, w) = ap (map address_endpoint) (sym (append-nil known))
  resolved_lem known (ok found, w) = sym (map-append address_endpoint known found)

  external_endpoints_lem :
      (spec : Option K1sProxyExternalSpec) (w : W)
      → (external_endpoints P spec w).0.endpoints ≡ offered_external P spec w
  unfolding external_endpoints
  external_endpoints_lem none w = refl
  external_endpoints_lem (some spec) w = elim (Bool-cases (spec.dns_name == "")) [
    | inl blank ↦
        rw (blank, append-nil (chosen P.is_ip spec.addresses))
          (external_addresses_lem spec.addresses)
    | inr named ↦
        rw (named, external_addresses_lem spec.addresses)
          (resolved_lem (chosen P.is_ip spec.addresses) (P.lookup_host spec.dns_name w))
  ]

  discover_by_lem :
      (cluster : K1sCluster) (mode : K1sProxyMode) (w : W)
      → (discover_by P cluster mode w).0.endpoints ≡ offered P cluster mode w
  discover_by_lem cluster service w = service_endpoints_lem _ _ w
  discover_by_lem cluster external w = external_endpoints_lem _ w
  discover_by_lem cluster (unsupported mode) w = refl

  -- The endpoints that are discovered, whether or not an error comes with them, are in their order what the
  -- mode of the proxy offers: of a service, the endpoints of all its slices whose condition is absent or
  -- true; of an external proxy, the IP addresses of its list and behind them those to which its name
  -- resolves; and none where something is missing, the slices cannot be listed, or the mode is another.
  pub discover_proxy_endpoints_lem :
      (cluster : K1sCluster) (w : W)
      → (discover_proxy_endpoints P cluster w).0.endpoints
        ≡ offered P cluster cluster.spec.proxy.mode w
  unfolding discover_proxy_endpoints
  discover_proxy_endpoints_lem cluster w = discover_by_lem cluster cluster.spec.proxy.mode w

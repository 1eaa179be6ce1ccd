-- ===== src/Controller/Exposure/Reconcile/Stored.antt =====
-- What Kubernetes holds of an exposure after its endpoint slice and its ingress were reconciled.
use k1s_k8s_operator.Prelude.{
  ◌≡◌, refl, sym, ◌⊎◌, inl, inr, String, true, false, List, [], ◌∷◌, Option, none, some, All, ◌==◌,
  string_eq, Bool-cases,
}
use k1s_k8s_operator.Go.Errors.{Error, Result, ok, err, ok_inj}
use k1s_k8s_operator.K1s.Status.{AppStatus}
use k1s_k8s_operator.K1s.Client.Routes.{Api}
use k1s_k8s_operator.Api.Meta.{NamespacedName, find_or_empty}
use k1s_k8s_operator.Api.Cluster.{K1sCluster}
use k1s_k8s_operator.Api.Exposure.{K1sExposure, ingress_enabled_or_default}
use k1s_k8s_operator.Controller.Names.{exposure_service_name, exposure_endpoint_slice_name}
use k1s_k8s_operator.Controller.Platform.{SliceEndpoint, Platform}
use k1s_k8s_operator.Controller.Patch.{object_key}
use k1s_k8s_operator.Controller.Patch.Recorded.{find_or_empty-assign}
use k1s_k8s_operator.Controller.Owned.{Stores}
use k1s_k8s_operator.Controller.Proxy.{ProxyEndpoint}
use k1s_k8s_operator.Controller.Proxy.Ready.{IsReady, discover_proxy_endpoints-All}
use k1s_k8s_operator.Controller.Builders.{
  EndpointSlice, Ingress, label_service_name, slice_endpoints, build_exposure_endpoint_slice,
  build_exposure_ingress, build_exposure_service,
}
use k1s_k8s_operator.Controller.Builders.Wiring.{RuleLeadsTo, some_inj, build_exposure_wiring}
use k1s_k8s_operator.Controller.Exposure.Objects.{
  owned_then, as_slice, as_ingress, ingress_key, reconcile_endpoint_slice, write_ingress,
  reconcile_ingress,
}
use k1s_k8s_operator.Controller.Exposure.Status.{Sighting, is_found, traffic_endpoints}
use k1s_k8s_operator.Controller.Exposure.Reconcile.{ExposureReconciler, look}

-- What `CreateOrUpdate` writes, if it ends well, is the change of some object.
owned_then-eq-ok :
    {Object : Type 0} (change : Object → Object) (r : Result Object) {after : Object}
    → owned_then change r ≡ ok after
    → (before : Object) × (after ≡ change before)
owned_then-eq-ok change (ok before) h = (before, sym (ok_inj h))
owned_then-eq-ok change (err e) h = cc

-- A ready endpoint with an address.
abbrev pub slice_key : K1sExposure → NamespacedName
slice_key exposure = record {
  namespace = exposure.meta.namespace;
  name = exposure_endpoint_slice_name exposure;
}

abbrev pub IsServing : SliceEndpoint → Type 0
IsServing e =
    (e.ready ≡ some true) × ((a : String) × (more : List String) × (e.addresses ≡ a ∷ more))

slice_endpoints-All :
    (es : List ProxyEndpoint) → All IsReady es → All IsServing (slice_endpoints es)
unfolding slice_endpoints
slice_endpoints-All [] h = tt
slice_endpoints-All (e ∷ es) (is, h) = serving e.addresses _ (slice_endpoints-All es h)
  where
    serving :
        (addresses : List String) (rest : List SliceEndpoint)
        → All IsServing rest
        → All IsServing (elim addresses [
          | [] ↦ rest
          | a ∷ more ↦
              record { addresses = a ∷ more; node_name = e.node_name; ready = some e.ready } ∷ rest
        ])
    serving [] rest g = g
    serving (a ∷ more) rest g = ((rw is refl, (a, more, refl)), g)

-- A serving endpoint of an app that was found.
abbrev pub ServesFound : Sighting → SliceEndpoint → Type 0
ServesFound s e = IsServing e × (is_found s.reply ≡ true)

with_found :
    (s : Sighting)
    → is_found s.reply ≡ true
    → (es : List SliceEndpoint) → All IsServing es
    → All (ServesFound s) es
with_found s found [] h = tt
with_found s found (e ∷ es) (x, h) = ((x, found), with_found s found es h)

traffic_endpoints-All :
    (r : Result AppStatus) (endpoints : List ProxyEndpoint) (failure : Option Error)
    → All IsReady endpoints
    → let s : Sighting = record {
      reply = r;
      proxy = record { endpoints = endpoints; failure = failure };
    } in
      All (ServesFound s) (slice_endpoints (traffic_endpoints s))
unfolding traffic_endpoints slice_endpoints
traffic_endpoints-All (ok seen) endpoints failure h =
    with_found
      (record { reply = ok seen; proxy = record { endpoints = endpoints; failure = failure } }) refl
      _ (slice_endpoints-All endpoints h)
traffic_endpoints-All (err e) endpoints failure h = tt

module _ {W : Type 0} (P : Platform W) (R : ExposureReconciler W) (cluster : K1sCluster)
    (exposure : K1sExposure) where
  -- What an endpoint slice is to hold after a sighting: endpoints that are ready and have an address, and
  -- these only if the app was found; and in its label the name of the exposure's service.
  abbrev pub Directs : Sighting → EndpointSlice → Type 0
  Directs s slice =
      All (ServesFound s) slice.endpoints
      × (find_or_empty label_service_name slice.meta.labels ≡ exposure_service_name exposure)

  Directs-as_slice :
      (s : Sighting)
      → All (ServesFound s) (slice_endpoints (traffic_endpoints s))
      → (before : EndpointSlice)
      → Directs s
          (as_slice (build_exposure_endpoint_slice cluster exposure (traffic_endpoints s)) before)
  unfolding build_exposure_endpoint_slice
  Directs-as_slice s serves before = (serves, find_or_empty-assign label_service_name _ _)

  -- When the endpoint slice of an exposure is reconciled without an error, after what k1s answered of the
  -- app and a discovery of the proxy, the slice that Kubernetes then holds has only endpoints that are
  -- ready and have an address, has none unless the app was found, and names the exposure's service.
  -- `CreateOrUpdate` behaves as `Stores` says.
  pub reconcile_endpoint_slice-stored :
      (S : Stores R.slices) (api : Api W) (v w : W)
      → (reconcile_endpoint_slice cluster exposure R.slices
          (traffic_endpoints (look P R exposure api cluster v).0)
          w).0
        ≡ ok tt
      → (slice : EndpointSlice) × (S.stored
            (reconcile_endpoint_slice cluster exposure R.slices
              (traffic_endpoints (look P R exposure api cluster v).0)
              w).1
            (slice_key exposure)
          ≡ some slice)
        × Directs (look P R exposure api cluster v).0 slice
  unfolding reconcile_endpoint_slice look build_exposure_endpoint_slice
  reconcile_endpoint_slice-stored S api v w h =
      let s = (look P R exposure api cluster v).0 in
      let (before, after, made, held) = S.updates _ _ w h in
      let (current, e) =
        owned_then-eq-ok
          (as_slice (build_exposure_endpoint_slice cluster exposure (traffic_endpoints s))) _
          made in
      (
        after,
        held,
        rw e (
            Directs-as_slice s
              (traffic_endpoints-All s.reply s.proxy.endpoints s.proxy.failure
                (discover_proxy_endpoints-All P cluster _))
              current),
      )

  -- An ingress of which every path leads to the exposure's service.
  abbrev pub Stands : Option Ingress → Type 0
  Stands found =
      (i : Ingress) × (found ≡ some i)
      × All (RuleLeadsTo (build_exposure_service cluster exposure)) i.rules

  build-none :
      build_exposure_ingress cluster exposure ≡ ok none
      → ingress_enabled_or_default exposure.spec.ingress ≡ false
  unfolding build_exposure_ingress
  build-none h = elim (Bool-cases (ingress_enabled_or_default exposure.spec.ingress)) [
    | inr off ↦ off
    | inl on ↦ elim (Bool-cases (exposure.spec.host == "")) [
      | inl blank ↦ cc (rw (on, blank) at h)
      | inr hosted ↦ cc (rw (on, hosted) at h)
    ]
  ]

  build-some :
      (wanted : Ingress)
      → build_exposure_ingress cluster exposure ≡ ok (some wanted)
      → ingress_enabled_or_default exposure.spec.ingress ≡ true
  unfolding build_exposure_ingress
  build-some wanted h = elim (Bool-cases (ingress_enabled_or_default exposure.spec.ingress)) [
    | inr off ↦ cc (rw off at h)
    | inl on ↦ on
  ]

  build-key :
      (wanted : Ingress)
      → build_exposure_ingress cluster exposure ≡ ok (some wanted)
      → object_key wanted.meta ≡ ingress_key exposure
  unfolding build_exposure_ingress
  build-key wanted h = elim (Bool-cases (ingress_enabled_or_default exposure.spec.ingress)) [
    | inr off ↦ cc (rw off at h)
    | inl on ↦ elim (Bool-cases (exposure.spec.host == "")) [
      | inl blank ↦ cc (rw (on, blank) at h)
      | inr hosted ↦ rw (sym (some_inj (ok_inj (rw (on, hosted) at h))))
    ]
  ]

  write_ingress-stored :
      (S : Stores R.ingresses) (w : W) (r : Result (Option Ingress))
      → build_exposure_ingress cluster exposure ≡ r
      → (write_ingress cluster exposure R.ingresses r w).0 ≡ ok tt
      → ((ingress_enabled_or_default exposure.spec.ingress ≡ false)
          × (S.stored (write_ingress cluster exposure R.ingresses r w).1 (ingress_key exposure)
              ≡ none))
        ⊎ ((ingress_enabled_or_default exposure.spec.ingress ≡ true)
            × Stands (
                S.stored (write_ingress cluster exposure R.ingresses r w).1 (ingress_key exposure)))
  write_ingress-stored S w (err e) b h = cc
  write_ingress-stored S w (ok none) b h = inl (build-none b, S.removes (ingress_key exposure) w h)
  write_ingress-stored S w (ok (some wanted)) b h =
      let (before, after, made, held) = S.updates _ _ w h in
      let (current, e) = owned_then-eq-ok (as_ingress wanted) _ made in
      inr (
        build-some wanted b,
        (
          after,
          rw (sym (build-key wanted b)) held,
          rw e (build_exposure_wiring cluster exposure wanted [] b).0,
        ),
      )

  -- When the ingress of an exposure is reconciled without an error, then Kubernetes holds none if the
  -- ingress is disabled, and otherwise one whose every path leads to the exposure's service, in a port that
  -- the service has. `CreateOrUpdate` and `Delete` behave as `Stores` says.
  pub reconcile_ingress-stored :
      (S : Stores R.ingresses) (w : W)
      → (reconcile_ingress cluster exposure R.ingresses w).0 ≡ ok tt
      → ((ingress_enabled_or_default exposure.spec.ingress ≡ false)
          × (S.stored (reconcile_ingress cluster exposure R.ingresses w).1 (ingress_key exposure)
              ≡ none))
        ⊎ ((ingress_enabled_or_default exposure.spec.ingress ≡ true)
            × Stands (
                S.stored
                  (reconcile_ingress cluster exposure R.ingresses w).1
                  (ingress_key exposure)))
  unfolding reconcile_ingress
  reconcile_ingress-stored S w h =
      write_ingress-stored S w (build_exposure_ingress cluster exposure) refl h

-- ===== src/Controller/Exposure/Reconcile/Evidence.antt =====
-- internal/controller/exposure_controller.go: an exposure is ready only on evidence.
use k1s_k8s_operator.Prelude.{
  ◌≡◌, refl, sym, ap, ◌∙◌, ◌⊎◌, inl, inr, Bool, true, false, ◌&&◌, Option, none, some, arith,
  Bool-cases, List,
}
use k1s_k8s_operator.Go.Errors.{Error, Result, ok, err, Exec, continue, handle, ok_inj, pure, ◌>>=◌}
use k1s_k8s_operator.K1s.Status.{AppStatus}
use k1s_k8s_operator.K1s.Client.Routes.{Api}
use k1s_k8s_operator.Api.Common.{namespace_or_default}
use k1s_k8s_operator.Api.Cluster.{K1sCluster}
use k1s_k8s_operator.Api.Exposure.{K1sExposure, probe_enabled_or_default}
use k1s_k8s_operator.Controller.Platform.{Platform}
use k1s_k8s_operator.Controller.Proxy.{ProxyEndpoint, discover_proxy_endpoints}
use k1s_k8s_operator.Controller.Cluster.{has_endpoints}
use k1s_k8s_operator.Controller.Exposure.Objects.{
  reconcile_service, reconcile_endpoint_slice, reconcile_ingress,
}
use k1s_k8s_operator.Controller.Exposure.Status.{
  Sighting, ExposureOutcome, app_status_of, is_reached, traffic_endpoints, traffic_ready,
  exposure_ready,
}
use k1s_k8s_operator.Controller.Exposure.Reconcile.{
  ExposureReconciler, probe_with, look, probe_traffic, mirror_and_probe, write_objects, expose,
}

-- What an action ends well with has a property.
abbrev Gives : {W A : Type 0} → (A → Type 0) → Exec W A → Type 0
Gives {W} {A} Q m = (w : W) (a : A) → (m w).0 ≡ ok a → Q a

continue-Gives :
    {W A B : Type 0} (Q : B → Type 0) (f : A → Exec W B)
    → ((a : A) → Gives Q (f a))
    → (p : Result A × W) (b : B) → (continue f p).0 ≡ ok b
    → Q b
continue-Gives Q f each (ok a, w) b h = each a w b h
continue-Gives Q f each (err e, w) b h = cc

bind-Gives :
    {W A B : Type 0} (Q : B → Type 0) (m : Exec W A) (f : A → Exec W B)
    → ((a : A) → Gives Q (f a))
    → Gives Q (m >>= f)
bind-Gives Q m f each w b h = continue-Gives Q f each (m w) b h

handle-Gives :
    {W A B : Type 0} (Q : B → Type 0) (m : Exec W A) (f : Result A → Exec W B)
    → ((r : Result A) → Gives Q (f r))
    → Gives Q (handle m f)
handle-Gives Q m f each w b h = each (m w).0 (m w).1 b h

mapped :
    {W A B : Type 0} (g : A → B) (p : Result A × W) {b : B}
    → (continue (λ a. pure (g a)) p).0 ≡ ok b
    → (a : A) × (p.0 ≡ ok a) × (g a ≡ b)
mapped g (ok a, w) h = (a, refl, ok_inj h)
mapped g (err e, w) h = cc

module _ {W : Type 0} (P : Platform W) (R : ExposureReconciler W) (exposure : K1sExposure)
    (api : Api W) (cluster : K1sCluster) where
  -- k1s has told, of the app that is exposed, a status that is ready.
  abbrev pub AppServes : Type 0
  AppServes =
      (v : W) × (seen : AppStatus) × ((api.app_status (namespace_or_default exposure.spec.app_ref)
          exposure.spec.app_ref.name v).0
        ≡ ok seen)
      × (seen.ready ≡ true)

  -- A discovery of the proxy has found endpoints, and no error.
  abbrev pub ProxyServes : Type 0
  ProxyServes =
      (v : W) × ((discover_proxy_endpoints P cluster v).0.failure ≡ none)
      × (has_endpoints (discover_proxy_endpoints P cluster v).0.endpoints ≡ true)

  -- The traffic probe is off, or has passed.
  abbrev pub TrafficServes : Type 0
  TrafficServes =
      (probe_enabled_or_default exposure.spec.traffic_probe ≡ false)
      ⊎ ((v : W) × ((probe_with P R R.traffic_probe exposure v).0 ≡ ok tt))

  passed : (r : Result (Unit {0})) → traffic_ready (some r) ≡ true → r ≡ ok tt
  passed (ok _) h = refl
  passed (err e) h = cc

  probe_traffic-evidence :
      (v : W) (probe : Option (Result (Unit {0})))
      → (probe_traffic P R exposure v).0 ≡ ok probe
      → traffic_ready probe ≡ true
      → TrafficServes
  unfolding probe_traffic
  probe_traffic-evidence v probe h passes =
      elim (Bool-cases (probe_enabled_or_default exposure.spec.traffic_probe)) [
        | inr off ↦ inl off
        | inl on ↦ inr (v, passed _ (ap traffic_ready (ok_inj (rw on at h)) ∙ passes))
      ]

  -- An outcome tells of a sighting, and of a probe that was made.
  abbrev Tells : Sighting → ExposureOutcome → Type 0
  Tells s o = (o.sighting ≡ s) × ((v : W) × ((probe_traffic P R exposure v).0 ≡ ok o.probe))

  mirror_and_probe-Gives :
      (s : Sighting) (r : Result (Unit {0})) → Gives (Tells s) (mirror_and_probe P R exposure s r)
  mirror_and_probe-Gives s r = bind-Gives _ _ _ λ _ w o h.
      let (probe, asked, e) =
        mapped
          (λ (probe : Option (Result (Unit {0}))). record {
            sighting = s;
            ingress = r;
            probe = probe;
          })
          (probe_traffic P R exposure w) h in
      rw (sym e) (refl, (w, asked))

  write_objects-Gives : (s : Sighting) → Gives (Tells s) (write_objects P R exposure cluster s)
  unfolding write_objects
  write_objects-Gives s =
      bind-Gives (Tells s) (reconcile_service cluster exposure R.services) _ λ _.
        bind-Gives (Tells s)
          (reconcile_endpoint_slice cluster exposure R.slices (traffic_endpoints s)) _
          λ _.
            handle-Gives (Tells s) (reconcile_ingress cluster exposure R.ingresses)
              (mirror_and_probe P R exposure s) (mirror_and_probe-Gives s)

  reply-evidence :
      (v : W) (r : Result AppStatus)
      → (api.app_status (namespace_or_default exposure.spec.app_ref) exposure.spec.app_ref.name v).0
        ≡ r
      → (app_status_of r).ready ≡ true
      → AppServes
  reply-evidence v (ok seen) told ready = (v, seen, told, ready)
  reply-evidence v (err e) told ready = cc

  reached :
      (failure : Option Error) (endpoints : List ProxyEndpoint)
      → is_reached (record { endpoints = endpoints; failure = failure }) ≡ true
      → (failure ≡ none) × (has_endpoints endpoints ≡ true)
  reached none endpoints h = (refl, h)
  reached (some e) endpoints h = cc

  four : (a b c d : Bool) → (a && (b && (c && d))) ≡ true → (b ≡ true) × (c ≡ true) × (d ≡ true)
  four a b c d h = ground arith

  -- If the status that a reconciliation of an exposure publishes is Ready, then k1s has told, of the app,
  -- a status that is ready, a discovery of the proxy has found endpoints and no error, and the traffic probe
  -- is off or has passed.
  pub exposure_ready_evidence :
      (w : W) (o : ExposureOutcome)
      → (expose P R exposure api cluster w).0 ≡ ok o
      → exposure_ready o ≡ true
      → AppServes × ProxyServes × TrafficServes
  unfolding expose look exposure_ready
  exposure_ready_evidence w o h ready =
      let (s, w') = look P R exposure api cluster w in
      let (same, (v, asked)) = write_objects-Gives s w' o h in
      let (serves, reaches, passes) = four _ _ _ _ (rw same at ready) in
      let (clean, found) = reached s.proxy.failure s.proxy.endpoints reaches in
      (
        reply-evidence w s.reply refl serves,
        (_, clean, found),
        probe_traffic-evidence v o.probe asked passes,
      )

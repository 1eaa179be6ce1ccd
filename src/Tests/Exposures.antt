-- ===== src/Tests/Exposures.antt =====
-- The theorems on exposures, at an app that runs behind a proxy with one address.
use k1s_k8s_operator.Prelude.{
  ◌≡◌, refl, ◌⊎◌, true, false, List, [], ◌∷◌, Option, none, some, string_eq, nat_eq,
}
use k1s_k8s_operator.Go.Errors.{message, Result, ok, err, Exec, pure, fail}
use k1s_k8s_operator.K1s.Client.Routes.{Api}
use k1s_k8s_operator.Api.Common.{namespace_or_default}
use k1s_k8s_operator.Api.Exposure.{
  K1sExposure, ingress_enabled_or_default, probe_enabled_or_default,
}
use k1s_k8s_operator.Controller.Manifest.{resource_delete_name}
use k1s_k8s_operator.Controller.Managed.Backend.{app, address_eq}
use k1s_k8s_operator.Controller.Platform.{Platform}
use k1s_k8s_operator.Controller.Owned.{Owned, Stores}
use k1s_k8s_operator.Controller.Proxy.{
  ProxyEndpoint, external_addresses, external_endpoints, discover_proxy_endpoints,
}
use k1s_k8s_operator.Controller.Builders.{EndpointSlice, Ingress, new_meta, build_exposure_ingress}
use k1s_k8s_operator.Controller.Exposure.Objects.{
  mirror_of_key, ingress_key, reconcile_service, reconcile_endpoint_slice, reconcile_ingress,
  reconcile_mirror,
}
use k1s_k8s_operator.Controller.Exposure.Status.{ExposureOutcome, traffic_endpoints, exposure_ready}
use k1s_k8s_operator.Controller.Exposure.Reconcile.{
  ExposureReconciler, look, probe_traffic, write_objects, expose,
}
use k1s_k8s_operator.Controller.Exposure.Reconcile.Evidence.{
  AppServes, ProxyServes, TrafficServes, exposure_ready_evidence,
}
use k1s_k8s_operator.Controller.Exposure.Reconcile.Stored.{
  slice_key, Directs, Stands, reconcile_endpoint_slice-stored, reconcile_ingress-stored,
}
use k1s_k8s_operator.Tests.Objects.{edge, exposure, running}
use k1s_k8s_operator.Tests.World.{World, no_objects, platform_in, platform, api}

-- Objects that are written with success, and are not kept.
abbrev unkept : {W Object : Type 0} → Owned W Object
unkept = record {
  create_or_update = λ key mutate. pure tt;
  set_controller_reference = λ owner object. ok object;
  remove = λ key. pure tt;
}

abbrev reconciler_in : (W : Type 0) → ExposureReconciler W
reconciler_in W = record {
  exposures = no_objects (λ o. o.meta) (λ o m. record o { meta = m });
  mirrors = record (no_objects (λ o. o.meta) (λ o m. record o { meta = m })) {
    get = λ key. pure (mirror_of_key (platform_in W) exposure);
  };
  services = unkept;
  slices = unkept;
  ingresses = unkept;
  owned_mirrors = unkept;
  traffic_probe = some (λ e. pure tt);
  prober = record {
    join_host_port = λ host port. host;
    connect = λ seconds address. pure tt;
    get = λ seconds url. pure 204;
  };
}

abbrev probed : K1sExposure
probed = record exposure {
  spec = record exposure.spec {
    traffic_probe = record exposure.spec.traffic_probe { enabled = some true };
  };
}

abbrev pub reconciler : ExposureReconciler World
reconciler = reconciler_in World

abbrev running_web : World
running_web = app "shop--web" ∷ []

abbrev outcome : ExposureOutcome
outcome = record {
  sighting = (look platform reconciler probed api edge running_web).0;
  ingress = ok tt;
  probe = some (ok tt);
}

exposed : (expose platform reconciler probed api edge running_web).0 ≡ ok outcome
unfolding expose write_objects reconcile_service reconcile_endpoint_slice reconcile_mirror
    probe_traffic probe_enabled_or_default reconcile_ingress build_exposure_ingress
    ingress_enabled_or_default string_eq
exposed = refl

outcome-ready : exposure_ready outcome ≡ true
unfolding exposure_ready look address_eq resource_delete_name namespace_or_default
    discover_proxy_endpoints external_endpoints external_addresses string_eq
outcome-ready = refl

exposure_ready_evidence_example :
    AppServes platform reconciler probed api edge
    × ProxyServes platform reconciler probed api edge
    × TrafficServes platform reconciler probed api edge
exposure_ready_evidence_example =
    exposure_ready_evidence platform reconciler probed api edge running_web outcome exposed
      outcome-ready

-- Room for one object, which starts from a blank one.
abbrev written : {Object : Type 0} → Result Object → Exec (Option Object) (Unit {0})
written (ok object) slot = (ok tt, some object)
written (err e) slot = (err e, slot)

abbrev kept : {Object : Type 0} → Object → Owned (Option Object) Object
kept blank = record {
  create_or_update = λ key mutate. written (mutate blank);
  set_controller_reference = λ owner object. ok object;
  remove = λ key slot. (ok tt, none);
}

written-stored :
    {Object : Type 0} (r : Result Object) (slot : Option Object)
    → (written r slot).0 ≡ ok tt
    → (after : Object) × (r ≡ ok after) × ((written r slot).1 ≡ some after)
written-stored (ok object) slot h = (object, refl, refl)
written-stored (err e) slot h = cc

kept-Stores : {Object : Type 0} (blank : Object) → Stores (kept blank)
kept-Stores blank = record {
  stored = λ slot key. slot;
  updates = λ key mutate slot h.
      let (after, made, held) = written-stored (mutate blank) slot h in (blank, after, made, held);
  removes = λ key slot h. refl;
}

abbrev blank_slice : EndpointSlice
blank_slice = record { meta = new_meta "" "" [] []; address_type = ""; ports = []; endpoints = [] }

abbrev slice_reconciler : ExposureReconciler (Option EndpointSlice)
slice_reconciler = record (reconciler_in (Option EndpointSlice)) { slices = kept blank_slice }

-- A k1s API that tells of every app that it runs.
abbrev telling : Api (Option EndpointSlice)
telling = record {
  health = pure tt;
  nodes = fail (message "unavailable");
  app_status = λ namespace name. pure (running name);
  apply = λ raw. fail (message "unavailable");
  delete_app = λ name purge. fail (message "unavailable");
  inference_cell_status = λ namespace name. fail (message "unavailable");
  inference_cell_set_status = λ namespace name. fail (message "unavailable");
  delete_inference_cell = λ namespace name. fail (message "unavailable");
  delete_inference_cell_set = λ namespace name. fail (message "unavailable");
}

abbrev no_slice : Option EndpointSlice
no_slice = none

abbrev slice_platform : Platform (Option EndpointSlice)
slice_platform = platform_in (Option EndpointSlice)

abbrev directed : List ProxyEndpoint
directed = traffic_endpoints (look slice_platform slice_reconciler exposure telling edge no_slice).0

slice-written :
    (reconcile_endpoint_slice edge exposure slice_reconciler.slices directed no_slice).0 ≡ ok tt
unfolding reconcile_endpoint_slice
slice-written = refl

reconcile_endpoint_slice-stored_example :
    (slice : EndpointSlice) × ((kept-Stores blank_slice).stored
        (reconcile_endpoint_slice edge exposure slice_reconciler.slices directed no_slice).1
        (slice_key exposure)
      ≡ some slice)
    × Directs slice_platform slice_reconciler edge exposure
        (look slice_platform slice_reconciler exposure telling edge no_slice).0
        slice
reconcile_endpoint_slice-stored_example =
    reconcile_endpoint_slice-stored slice_platform slice_reconciler edge exposure
      (kept-Stores blank_slice) telling no_slice no_slice slice-written

abbrev blank_ingress : Ingress
blank_ingress = record { meta = new_meta "" "" [] []; class_name = none; rules = []; tls = [] }

abbrev ingress_reconciler : ExposureReconciler (Option Ingress)
ingress_reconciler = record (reconciler_in (Option Ingress)) { ingresses = kept blank_ingress }

abbrev no_ingress : Option Ingress
no_ingress = none

ingress-written :
    (reconcile_ingress edge exposure ingress_reconciler.ingresses no_ingress).0 ≡ ok tt
unfolding reconcile_ingress build_exposure_ingress ingress_enabled_or_default string_eq
ingress-written = refl

reconcile_ingress-stored_example :
    ((ingress_enabled_or_default exposure.spec.ingress ≡ false)
      × ((kept-Stores blank_ingress).stored
            (reconcile_ingress edge exposure ingress_reconciler.ingresses no_ingress).1
            (ingress_key exposure)
          ≡ none))
    ⊎ ((ingress_enabled_or_default exposure.spec.ingress ≡ true)
        × Stands (platform_in (Option Ingress)) ingress_reconciler edge exposure (
            (kept-Stores blank_ingress).stored
              (reconcile_ingress edge exposure ingress_reconciler.ingresses no_ingress).1
              (ingress_key exposure)))
reconcile_ingress-stored_example =
    reconcile_ingress-stored (platform_in (Option Ingress)) ingress_reconciler edge exposure
      (kept-Stores blank_ingress) no_ingress ingress-written

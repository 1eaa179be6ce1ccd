-- ===== src/Controller/Exposure/Objects.antt =====
-- The objects that an exposure owns: its service, endpoint slice, ingress and mirror.
use k1s_k8s_operator.Prelude.{Bool, false, ◌&&◌, List, [], ◌∷◌, Option, none, some, string_eq, pos}
use k1s_k8s_operator.Go.Errors.{Result, ok, err, Exec, ◌>>◌}
use k1s_k8s_operator.K1s.Status.{AppStatus, Placement}
use k1s_k8s_operator.Api.Meta.{Time, NamespacedName}
use k1s_k8s_operator.Api.Common.{condition_ready}
use k1s_k8s_operator.Api.Cluster.{K1sCluster}
use k1s_k8s_operator.Api.Exposure.{K1sExposure}
use k1s_k8s_operator.Api.Mirror.{
  K1sAppMirrorSpec, K1sAppMirrorStatus, K1sAppMirror, K1sPlacementStatus,
}
use k1s_k8s_operator.Controller.Helpers.{condition_status, reason_for_bool, ready_message}
use k1s_k8s_operator.Controller.Names.{exposure_ingress_name}
use k1s_k8s_operator.Controller.Platform.{KubeClient, Platform}
use k1s_k8s_operator.Controller.Patch.{object_key, set_condition, patch_status}
use k1s_k8s_operator.Controller.Owned.{Owned, removed}
use k1s_k8s_operator.Controller.Proxy.{ProxyEndpoint}
use k1s_k8s_operator.Controller.Builders.{
  Service, EndpointSlice, Ingress, new_meta, build_exposure_service, build_exposure_endpoint_slice,
  build_exposure_ingress,
}

-- the second half of a function that is given to `CreateOrUpdate`, behind `SetControllerReference`
abbrev pub owned_then : {Object : Type 0} → (Object → Object) → Result Object → Result Object
owned_then change (ok current) = ok (change current)
owned_then change (err e) = err e

-- A service is given by no selector, so that clearing it leaves nothing to write.
abbrev pub as_service : Service → Service → Service
as_service wanted current = record current {
  meta = record current.meta { labels = wanted.meta.labels };
  kind = wanted.kind;
  ports = wanted.ports;
}

abbrev pub as_slice : EndpointSlice → EndpointSlice → EndpointSlice
as_slice wanted current = record current {
  meta = record current.meta { labels = wanted.meta.labels };
  address_type = wanted.address_type;
  ports = wanted.ports;
  endpoints = wanted.endpoints;
}

abbrev pub as_ingress : Ingress → Ingress → Ingress
as_ingress wanted current = record current {
  meta = record current.meta { labels = wanted.meta.labels; annotations = wanted.meta.annotations };
  class_name = wanted.class_name;
  rules = wanted.rules;
  tls = wanted.tls;
}

abbrev pub ingress_key : K1sExposure → NamespacedName
ingress_key exposure = record {
  namespace = exposure.meta.namespace;
  name = exposure_ingress_name exposure;
}

module _ {W : Type 0} (cluster : K1sCluster) (exposure : K1sExposure) where
  unfoldable pub reconcile_service : Owned W Service → Exec W (Unit {0})
  reconcile_service services =
      let wanted = build_exposure_service cluster exposure in
      services.create_or_update (object_key wanted.meta) λ current.
        owned_then (as_service wanted) (services.set_controller_reference exposure current)

  unfoldable pub reconcile_endpoint_slice :
      Owned W EndpointSlice → List ProxyEndpoint → Exec W (Unit {0})
  reconcile_endpoint_slice slices endpoints =
      let wanted = build_exposure_endpoint_slice cluster exposure endpoints in
      slices.create_or_update (object_key wanted.meta)
        λ current. owned_then (as_slice wanted) (slices.set_controller_reference exposure current)

  abbrev pub write_ingress : Owned W Ingress → Result (Option Ingress) → Exec W (Unit {0})
  write_ingress ingresses (err e) w = (err e, w)
  write_ingress ingresses (ok none) w =
      let (reply, w') = ingresses.remove (ingress_key exposure) w in (removed reply, w')
  write_ingress ingresses (ok (some wanted)) w =
      ingresses.create_or_update (object_key wanted.meta)
        (λ current.
          owned_then (as_ingress wanted) (ingresses.set_controller_reference exposure current))
        w

  unfoldable pub reconcile_ingress : Owned W Ingress → Exec W (Unit {0})
  reconcile_ingress ingresses = write_ingress ingresses (build_exposure_ingress cluster exposure)

unfoldable pub mirror_placements : List Placement → List K1sPlacementStatus
mirror_placements [] = []
mirror_placements (p ∷ ps) =
    record { node = p.node; site = ""; ready = p.ready } ∷ mirror_placements ps

module _ {W : Type 0} (P : Platform W) (exposure : K1sExposure) where
  -- The status starts from nothing: the conditions of the mirror are not carried on.
  unfoldable pub mirror_status_from_app :
      K1sAppMirror → AppStatus → Bool → Time → K1sAppMirrorStatus
  unfolding mirror_placements
  mirror_status_from_app mirror seen found now =
      let ready = found && seen.ready in
      record {
        observed_generation = mirror.meta.generation;
        ready = ready;
        replicas = record {
          desired = seen.desired_replicas;
          ready = seen.ready_replicas;
          live = seen.live_replicas;
        };
        image = seen.image;
        revision = seen.revision;
        observed_host = seen.ingress_host;
        placements = mirror_placements seen.placements;
        last_sync_time = some now;
        conditions =
            set_condition P [] condition_ready (condition_status ready) (reason_for_bool ready)
              (ready_message ready) mirror.meta.generation now;
      }

  abbrev pub mirror_spec : K1sAppMirrorSpec
  mirror_spec = record {
    cluster_ref = exposure.spec.cluster_ref;
    app_ref = exposure.spec.app_ref;
    exposure_ref = some (record { name = exposure.meta.name; namespace = "" });
  }

  -- the mirror as `reconcileMirror` starts from it, which has nothing but a key
  abbrev pub mirror_of_key : K1sAppMirror
  mirror_of_key = record {
    meta = new_meta exposure.meta.name exposure.meta.namespace [] [];
    spec = record {
      cluster_ref = record { name = ""; namespace = "" };
      app_ref = record { name = ""; namespace = "" };
      exposure_ref = none;
    };
    status = record {
      observed_generation = 0;
      ready = false;
      replicas = record { desired = pos 0; ready = pos 0; live = pos 0 };
      image = "";
      revision = "";
      observed_host = "";
      placements = [];
      last_sync_time = none;
      conditions = [];
    };
  }

  abbrev pub publish_mirror : KubeClient W K1sAppMirror → AppStatus → Bool → Exec W (Unit {0})
  publish_mirror mirrors seen found w =
      patch_status P mirrors mirror_of_key
        (λ current. record current { status = mirror_status_from_app current seen found (P.now w) })
        w

  unfoldable pub reconcile_mirror :
      Owned W K1sAppMirror → KubeClient W K1sAppMirror → AppStatus → Bool → Exec W (Unit {0})
  unfolding patch_status
  reconcile_mirror owned mirrors seen found = do
    owned.create_or_update (object_key mirror_of_key.meta) λ current.
        owned_then (λ mirror. record mirror { spec = mirror_spec })
          (owned.set_controller_reference exposure current)
    publish_mirror mirrors seen found

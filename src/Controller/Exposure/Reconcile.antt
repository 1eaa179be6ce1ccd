-- ===== src/Controller/Exposure/Reconcile.antt =====
-- `Reconcile` of K1sExposureReconciler.
pub mod Evidence
pub mod Stored
use k1s_k8s_operator.Prelude.{Bool, false, List, Option, none, some, if◌then◌else◌, [], ◌∷◌}
use k1s_k8s_operator.Go.Errors.{
  Error, is_kube_not_found, Result, ok, err, Exec, pure, fail, handle, ◌>>◌, ◌>>=◌,
}
use k1s_k8s_operator.K1s.Client.Transport.{Client, new_client, with_bearer_token, with_ca_bundle}
use k1s_k8s_operator.K1s.Client.Routes.{Api, client_api}
use k1s_k8s_operator.Api.Meta.{Time, NamespacedName}
use k1s_k8s_operator.Api.Common.{namespace_or, namespace_or_default}
use k1s_k8s_operator.Api.Cluster.{K1sCluster}
use k1s_k8s_operator.Api.Exposure.{K1sExposure, K1sExposureStatus, probe_enabled_or_default}
use k1s_k8s_operator.Api.Mirror.{K1sAppMirror}
use k1s_k8s_operator.Controller.Helpers.{poll_interval}
use k1s_k8s_operator.Controller.Platform.{KubeClient, Platform}
use k1s_k8s_operator.Controller.Auth.{ApiCredentials, load_credentials}
use k1s_k8s_operator.Controller.Owned.{Owned}
use k1s_k8s_operator.Controller.Proxy.{Discovery, discover_proxy_endpoints}
use k1s_k8s_operator.Controller.Builders.{Service, EndpointSlice, Ingress}
use k1s_k8s_operator.Controller.ResourceSet.Types.{ReconcileResult, done}
use k1s_k8s_operator.Controller.Probe.{Prober, default_traffic_probe}
use k1s_k8s_operator.Controller.Exposure.Objects.{
  reconcile_service, reconcile_endpoint_slice, reconcile_ingress, reconcile_mirror,
}
use k1s_k8s_operator.Controller.Exposure.Status.{
  Sighting, ExposureOutcome, app_status_of, is_found, traffic_endpoints, no_cluster_status,
  no_credentials_status, no_api_status, exposure_status, publish_exposure,
}

-- What the reconciler holds beside the platform: the clients of its kinds of object, the field
-- `TrafficProbe`, and what the default probe takes of the network.
pub record ExposureReconciler (W : Type 0) : Type 0 where
  pub exposures : KubeClient W K1sExposure
  pub mirrors : KubeClient W K1sAppMirror
  pub services : Owned W Service
  pub slices : Owned W EndpointSlice
  pub ingresses : Owned W Ingress
  pub owned_mirrors : Owned W K1sAppMirror
  pub traffic_probe : Option (K1sExposure → Exec W (Unit {0}))
  pub prober : Prober W

module _ {W : Type 0} (P : Platform W) (R : ExposureReconciler W) where
  abbrev pub probe_with : Option (K1sExposure → Exec W (Unit {0})) → K1sExposure → Exec W (Unit {0})
  probe_with none = default_traffic_probe R.prober
  probe_with (some probe) = probe

  module _ (exposure : K1sExposure) where
    abbrev pub publish_with : (Time → K1sExposureStatus) → Exec W (Unit {0})
    publish_with status w = publish_exposure P exposure R.exposures (status (P.now w)) w

    unfoldable pub look : Api W → K1sCluster → W → Sighting × W
    look api cluster w =
        let (reply, w₁) =
          api.app_status (namespace_or_default exposure.spec.app_ref) exposure.spec.app_ref.name
            w in
        let (proxy, w₂) = discover_proxy_endpoints P cluster w₁ in
        (record { reply = reply; proxy = proxy }, w₂)

    -- An error of the probe is a value.
    unfoldable pub probe_traffic : Exec W (Option (Result (Unit {0})))
    probe_traffic =
        if probe_enabled_or_default exposure.spec.traffic_probe
        then handle (probe_with R.traffic_probe exposure) (λ r. pure (some r))
        else pure none

    abbrev pub mirror_and_probe : Sighting → Result (Unit {0}) → Exec W ExposureOutcome
    mirror_and_probe s ingress = do
      reconcile_mirror P exposure R.owned_mirrors R.mirrors (app_status_of s.reply)
          (is_found s.reply)
      probe ← probe_traffic
      pure (record { sighting = s; ingress = ingress; probe = probe })

    -- The objects are written in this order; of their errors, that of the ingress is a value.
    unfoldable pub write_objects : K1sCluster → Sighting → Exec W ExposureOutcome
    write_objects cluster s = do
      reconcile_service cluster exposure R.services
      reconcile_endpoint_slice cluster exposure R.slices (traffic_endpoints s)
      handle (reconcile_ingress cluster exposure R.ingresses) (mirror_and_probe s)

    unfoldable pub expose : Api W → K1sCluster → Exec W ExposureOutcome
    expose api cluster w = let (s, w') = look api cluster w in write_objects cluster s w'

    unfoldable pub settle_exposure : K1sCluster → ExposureOutcome → Exec W ReconcileResult
    settle_exposure cluster o = do
      publish_with (exposure_status P exposure o)
      pure (record {
        requeue = false;
        requeue_after = poll_interval cluster.spec.poll_interval_seconds;
      })

    unfoldable pub reconcile_exposure_with : Api W → K1sCluster → Exec W ReconcileResult
    reconcile_exposure_with api cluster = expose api cluster >>= settle_exposure cluster

    abbrev pub with_api : K1sCluster → Result Client → Exec W ReconcileResult
    with_api cluster (err e) = publish_with (no_api_status P exposure e) >> pure done
    with_api cluster (ok c) = reconcile_exposure_with (client_api P.transport c) cluster

    abbrev pub with_credentials : K1sCluster → Result ApiCredentials → Exec W ReconcileResult
    with_credentials cluster (err e) =
        publish_with (no_credentials_status P exposure e) >> pure done
    with_credentials cluster (ok creds) = with_api cluster (
        new_client P.transport cluster.spec.controller.url
          (with_bearer_token creds.read_token ∷ with_ca_bundle creds.ca_bundle ∷ []))

    abbrev pub with_cluster : Result K1sCluster → Exec W ReconcileResult
    with_cluster (err e) = publish_with (no_cluster_status P exposure e) >> pure done
    with_cluster (ok cluster) =
        handle (load_credentials P cluster.meta.namespace cluster.spec.auth_secret_ref)
          (with_credentials cluster)

    unfoldable pub reconcile_exposure_found : Exec W ReconcileResult
    reconcile_exposure_found =
        let ref = exposure.spec.cluster_ref in
        handle
          (P.clusters.get (record {
            namespace = namespace_or ref.namespace exposure.meta.namespace;
            name = ref.name;
          }))
          with_cluster

  unfoldable pub reconcile_exposure : NamespacedName → Exec W ReconcileResult
  reconcile_exposure key = handle (R.exposures.get key) λ r. elim r [
    | err e ↦ if is_kube_not_found e then pure done else fail e
    | ok exposure ↦ reconcile_exposure_found exposure
  ]

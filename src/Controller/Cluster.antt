-- ===== src/Controller/Cluster.antt =====
-- The K1sCluster reconciler of internal/controller/cluster_controller.go. The status is built from nothing
-- in steps, each of which reads something and adds what it found.
pub mod Evidence
use k1s_k8s_operator.Prelude.{
  ℕ, zero, String, Bool, true, false, ◌&&◌, List, [], ◌∷◌, length, Option, none, some, pos,
  string_eq, if◌then◌else◌,
}
use k1s_k8s_operator.Go.Errors.{
  Error, error_text, is_kube_not_found, Result, ok, err, Exec, pure, fail, handle, ◌>>◌,
}
use k1s_k8s_operator.K1s.Status.{NodeSummary}
use k1s_k8s_operator.K1s.Client.Transport.{Client, new_client, with_bearer_token, with_ca_bundle}
use k1s_k8s_operator.K1s.Client.Routes.{Api, client_api}
use k1s_k8s_operator.Api.Meta.{
  Time, NamespacedName, Condition, ConditionStatus, is_true, is_false, ConfigMap, find_or_empty,
}
use k1s_k8s_operator.Api.Common.{
  K1sEndpointSpec, NamespacedNameRef, namespace_or, condition_ready, condition_controller_available,
  condition_proxy_ready, condition_credentials_valid, condition_bootstrap_loaded,
  condition_apishim_available, reason_ready, reason_unavailable, reason_missing, reason_invalid,
  reason_pending,
}
use k1s_k8s_operator.Api.Cluster.{K1sCluster, K1sClusterStatus}
use k1s_k8s_operator.Controller.Helpers.{
  condition_status, reason_for_bool, cluster_ready_message, poll_interval,
}
use k1s_k8s_operator.Controller.Platform.{Platform}
use k1s_k8s_operator.Controller.Patch.{set_condition, patch_status}
use k1s_k8s_operator.Controller.Auth.{ApiCredentials, load_credentials}
use k1s_k8s_operator.Controller.Proxy.{ProxyEndpoint, Discovery, discover_proxy_endpoints}
use k1s_k8s_operator.Controller.ResourceSet.Types.{ReconcileResult, done}

unfoldable pub proxy_message : ℕ → String
proxy_message zero = "proxy has no ready endpoints"
proxy_message _ = "proxy has ready endpoints"

abbrev pub has_endpoints : List ProxyEndpoint → Bool
has_endpoints [] = false
has_endpoints (e ∷ es) = true

abbrev pub is_ok : {A : Type 0} → Result A → Bool
is_ok (ok a) = true
is_ok (err e) = false

module _ {W : Type 0} (P : Platform W) where
  module _ (cluster : K1sCluster) where
    abbrev pub blank_status : K1sClusterStatus
    blank_status = record {
      observed_generation = cluster.meta.generation;
      controller_available = false;
      apishim_available = false;
      proxy_ready = false;
      stack_domain = "";
      wildcard_apps_domain = "";
      node_summary = record { ready = pos 0; stale = pos 0; total = pos 0 };
      conditions = [];
    }

    abbrev pub noted :
        String → ConditionStatus → (reason text : String) → W → K1sClusterStatus → K1sClusterStatus
    noted kind value reason text w status = record status {
      conditions =
          set_condition P status.conditions kind value reason text cluster.meta.generation
            (P.now w);
    }

    abbrev pub note_credentials : Result ApiCredentials → W → K1sClusterStatus → K1sClusterStatus
    note_credentials (ok creds) w status =
        noted condition_credentials_valid is_true reason_ready "credentials loaded" w status
    note_credentials (err e) w status =
        noted condition_credentials_valid is_false reason_missing (error_text e) w status

    abbrev pub note_bootstrap : K1sClusterStatus → Result ConfigMap × W → K1sClusterStatus × W
    note_bootstrap status (err e, w) =
        (noted condition_bootstrap_loaded is_false reason_missing (error_text e) w status, w)
    note_bootstrap status (ok cm, w) =
        let loaded = record status {
          stack_domain = find_or_empty "stack_domain" cm.entries;
          wildcard_apps_domain = find_or_empty "wildcard_apps_domain" cm.entries;
        } in
        (noted condition_bootstrap_loaded is_true reason_ready "bootstrap loaded" w loaded, w)

    unfoldable pub load_bootstrap :
        Option NamespacedNameRef → K1sClusterStatus → W → K1sClusterStatus × W
    load_bootstrap none status w = (
      noted condition_bootstrap_loaded is_false reason_missing "bootstrap configmap not configured"
          w status,
      w,
    )
    load_bootstrap (some ref) status w = note_bootstrap status (
        P.config_map
          (record {
            namespace = namespace_or ref.namespace cluster.meta.namespace;
            name = ref.name;
          })
          w)

    abbrev pub note_nodes : K1sClusterStatus → Result NodeSummary × W → K1sClusterStatus × W
    note_nodes status (err e, w) = (status, w)
    note_nodes status (ok nodes, w) = (
      record status {
        node_summary = record { ready = nodes.ready; stale = nodes.stale; total = nodes.total };
      },
      w,
    )

    abbrev pub note_health : Api W → K1sClusterStatus → Result (Unit {0}) × W → K1sClusterStatus × W
    note_health api status (err e, w) = (
      noted condition_controller_available is_false reason_unavailable (error_text e) w status,
      w,
    )
    note_health api status (ok _, w) =
        let available = record status { controller_available = true } in
        note_nodes
          (noted condition_controller_available is_true reason_ready "controller API is reachable" w
            available)
          (api.nodes w)

    -- The API is asked through the client that the URL and the read token give.
    abbrev pub ask_controller : K1sClusterStatus → Result Client → W → K1sClusterStatus × W
    ask_controller status (err e) w =
        (noted condition_controller_available is_false reason_invalid (error_text e) w status, w)
    ask_controller status (ok c) w =
        let api = client_api P.transport c in note_health api status (api.health w)

    unfoldable pub check_controller :
        Result ApiCredentials → K1sClusterStatus → W → K1sClusterStatus × W
    check_controller (err e) status w = (status, w)
    check_controller (ok creds) status w =
        ask_controller status
          (new_client P.transport cluster.spec.controller.url
            (with_bearer_token creds.read_token ∷ with_ca_bundle creds.ca_bundle ∷ []))
          w

    abbrev pub note_endpoints :
        List ProxyEndpoint → Option Error → K1sClusterStatus → W → K1sClusterStatus
    note_endpoints endpoints (some e) status w =
        noted condition_proxy_ready is_false reason_unavailable (error_text e) w status
    note_endpoints endpoints none status w =
        let ready = has_endpoints endpoints in
        noted condition_proxy_ready (condition_status ready) (reason_for_bool ready)
          (proxy_message (length endpoints)) w (record status { proxy_ready = ready })

    unfoldable pub check_proxy : K1sClusterStatus → W → K1sClusterStatus × W
    check_proxy status w =
        let (found, w') = discover_proxy_endpoints P cluster w in
        (note_endpoints found.endpoints found.failure status w', w')

    unfoldable pub note_apishim : Option K1sEndpointSpec → K1sClusterStatus → W → K1sClusterStatus
    note_apishim none status w = status
    note_apishim (some spec) status w =
        noted condition_apishim_available is_false reason_pending
          "apishim URL configured; active apishim health check is deferred" w
          (record status { apishim_available = false })

    -- the variable `ready`
    unfoldable pub cluster_ready : Result ApiCredentials → K1sClusterStatus → Bool
    cluster_ready creds status = status.controller_available && status.proxy_ready && is_ok creds

    unfoldable pub note_ready : Bool → K1sClusterStatus → W → K1sClusterStatus
    note_ready ready status w =
        noted condition_ready (condition_status ready) (reason_for_bool ready)
          (cluster_ready_message ready) w status

    -- what the status says, before the last condition, and the credentials that were read for it
    unfoldable pub survey_cluster : W → (Result ApiCredentials × K1sClusterStatus) × W
    survey_cluster w =
        let (creds, w₁) =
          load_credentials P cluster.meta.namespace cluster.spec.auth_secret_ref w in
        let (booted, w₂) =
          load_bootstrap cluster.spec.bootstrap_config_map_ref
            (note_credentials creds w₁ blank_status) w₁ in
        let (asked, w₃) = check_controller creds booted w₂ in
        let (proxied, w₄) = check_proxy asked w₃ in
        ((creds, note_apishim cluster.spec.apishim proxied w₄), w₄)

    unfoldable pub reconcile_cluster_found : Exec W ReconcileResult
    reconcile_cluster_found w =
        let ((creds, status), w') = survey_cluster w in
        (do
          patch_status P P.clusters cluster (λ current. record current {
            status = note_ready (cluster_ready creds status) status w';
          })
          pure (record {
            requeue = false;
            requeue_after = poll_interval cluster.spec.poll_interval_seconds;
          }))
          w'

  unfoldable pub reconcile_cluster : NamespacedName → Exec W ReconcileResult
  reconcile_cluster key = handle (P.clusters.get key) λ r. elim r [
    | err e ↦ if is_kube_not_found e then pure done else fail e
    | ok cluster ↦ reconcile_cluster_found cluster
  ]

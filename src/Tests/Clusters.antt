-- ===== src/Tests/Clusters.antt =====
-- The theorems on clusters, on the proxy and on the manager's flags.
use k1s_k8s_operator.Prelude.{◌≡◌, refl, true, [], string_eq, nat_eq}
use k1s_k8s_operator.Go.Text.{trim_space, trim_left, trim_right, has_suffix, split_n2}
use k1s_k8s_operator.K1s.Client.Transport.{new_client, with_bearer_token, with_ca_bundle}
use k1s_k8s_operator.K1s.Client.Request.{build_url, read_response, do_json_request}
use k1s_k8s_operator.K1s.Client.Leader.{do_json_with_leader_retry}
use k1s_k8s_operator.K1s.Client.Routes.{client_api, health, nodes, get_json}
use k1s_k8s_operator.Controller.Auth.{load_credentials}
use k1s_k8s_operator.Controller.Proxy.{
  external_addresses, external_endpoints, discover_proxy_endpoints,
}
use k1s_k8s_operator.Controller.Proxy.Endpoints.{offered, discover_proxy_endpoints_lem}
use k1s_k8s_operator.Controller.Cluster.{
  load_bootstrap, check_controller, check_proxy, note_apishim, cluster_ready, survey_cluster,
}
use k1s_k8s_operator.Controller.Cluster.Evidence.{Healthy, Reachable, cluster_ready_evidence}
use k1s_k8s_operator.Tests.Objects.{edge}
use k1s_k8s_operator.Tests.World.{platform}

discover_proxy_endpoints_lem_example :
    (discover_proxy_endpoints platform edge []).0.endpoints
    ≡ offered platform edge edge.spec.proxy.mode []
discover_proxy_endpoints_lem_example = discover_proxy_endpoints_lem platform edge []

edge-ready :
    cluster_ready platform edge
      (survey_cluster platform edge []).0.0
      (survey_cluster platform edge []).0.1
    ≡ true
unfolding cluster_ready survey_cluster load_credentials load_bootstrap check_controller check_proxy
    note_apishim new_client with_bearer_token with_ca_bundle client_api health nodes get_json
    do_json_with_leader_retry do_json_request build_url read_response discover_proxy_endpoints
    external_endpoints external_addresses trim_space trim_left trim_right has_suffix split_n2
    string_eq nat_eq
edge-ready = refl

cluster_ready_evidence_example :
    Healthy platform edge (survey_cluster platform edge []).0.0 × Reachable platform edge
cluster_ready_evidence_example = cluster_ready_evidence platform edge [] edge-ready

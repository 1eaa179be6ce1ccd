-- ===== src/Controller/Cluster/Evidence.antt =====
-- A cluster is reported ready only on the word of its controller and of its proxy.
use k1s_k8s_operator.Prelude.{
  ◌≡◌, refl, sym, ◌∙◌, Bool, true, false, ◌&&◌, List, Option, none, some, arith, [], ◌∷◌,
}
use k1s_k8s_operator.Go.Errors.{Error, Result, ok, err}
use k1s_k8s_operator.K1s.Status.{NodeSummary}
use k1s_k8s_operator.K1s.Client.Transport.{Client, new_client, with_bearer_token, with_ca_bundle}
use k1s_k8s_operator.K1s.Client.Routes.{Api, client_api}
use k1s_k8s_operator.Api.Meta.{ConfigMap}
use k1s_k8s_operator.Api.Common.{NamespacedNameRef, K1sEndpointSpec}
use k1s_k8s_operator.Api.Cluster.{K1sCluster, K1sClusterStatus}
use k1s_k8s_operator.Controller.Platform.{Platform}
use k1s_k8s_operator.Controller.Auth.{ApiCredentials, load_credentials}
use k1s_k8s_operator.Controller.Proxy.{ProxyEndpoint, discover_proxy_endpoints}
use k1s_k8s_operator.Controller.Cluster.{
  has_endpoints, note_credentials, note_bootstrap, load_bootstrap, note_nodes, note_health,
  ask_controller, check_controller, note_endpoints, check_proxy, note_apishim, cluster_ready,
  survey_cluster, blank_status,
}

module _ {W : Type 0} (P : Platform W) (cluster : K1sCluster) where
  -- The credentials were read, they give a client, and a health check of that client succeeded.
  abbrev pub Healthy : Result ApiCredentials → Type 0
  Healthy r =
      (creds : ApiCredentials) × (r ≡ ok creds)
      × ((c : Client) × (new_client P.transport cluster.spec.controller.url
              (with_bearer_token creds.read_token ∷ with_ca_bundle creds.ca_bundle ∷ [])
            ≡ ok c)
          × ((v : W) × (((client_api P.transport c).health v).0 ≡ ok tt)))

  -- A discovery found endpoints of the proxy and met no error.
  abbrev pub Reachable : Type 0
  Reachable =
      (v : W) × ((discover_proxy_endpoints P cluster v).0.failure ≡ none)
      × (has_endpoints (discover_proxy_endpoints P cluster v).0.endpoints ≡ true)

  -- A step that touches neither of the two flags.
  abbrev Keeps : (before after : K1sClusterStatus) → Type 0
  Keeps before after =
      (after.controller_available ≡ before.controller_available)
      × (after.proxy_ready ≡ before.proxy_ready)

  note_credentials-Keeps :
      (r : Result ApiCredentials) (w : W) (s : K1sClusterStatus)
      → Keeps s (note_credentials P cluster r w s)
  note_credentials-Keeps (ok c) w s = (refl, refl)
  note_credentials-Keeps (err e) w s = (refl, refl)

  note_bootstrap-Keeps :
      (s : K1sClusterStatus) (p : Result ConfigMap × W) → Keeps s (note_bootstrap P cluster s p).0
  note_bootstrap-Keeps s (err e, w) = (refl, refl)
  note_bootstrap-Keeps s (ok cm, w) = (refl, refl)

  load_bootstrap-Keeps :
      (ref : Option NamespacedNameRef) (s : K1sClusterStatus) (w : W)
      → Keeps s (load_bootstrap P cluster ref s w).0
  unfolding load_bootstrap
  load_bootstrap-Keeps none s w = (refl, refl)
  load_bootstrap-Keeps (some ref) s w = note_bootstrap-Keeps s _

  note_nodes-Keeps :
      (s : K1sClusterStatus) (p : Result NodeSummary × W) → Keeps s (note_nodes P cluster s p).0
  note_nodes-Keeps s (err e, w) = (refl, refl)
  note_nodes-Keeps s (ok nodes, w) = (refl, refl)

  note_apishim-Keeps :
      (spec : Option K1sEndpointSpec) (s : K1sClusterStatus) (w : W)
      → Keeps s (note_apishim P cluster spec s w)
  unfolding note_apishim
  note_apishim-Keeps none s w = (refl, refl)
  note_apishim-Keeps (some spec) s w = (refl, refl)

  note_health-evidence :
      (api : Api W) (s : K1sClusterStatus) (v : W) (p : Result (Unit {0}) × W)
      → (api.health v).0 ≡ p.0
      → s.controller_available ≡ false
      → let x = (note_health P cluster api s p).0 in
        (x.proxy_ready ≡ s.proxy_ready) × (x.controller_available ≡ true → (api.health v).0 ≡ ok tt)
  note_health-evidence api s v (err e, w) h off = (refl, λ on. cc)
  note_health-evidence api s v (ok _, w) h off = ((note_nodes-Keeps _ (api.nodes w)).1, λ on. h)

  ask_controller-evidence :
      (creds : ApiCredentials) (s : K1sClusterStatus) (r : Result Client) (w : W)
      → new_client P.transport cluster.spec.controller.url
          (with_bearer_token creds.read_token ∷ with_ca_bundle creds.ca_bundle ∷ [])
        ≡ r
      → s.controller_available ≡ false
      → let x = (ask_controller P cluster s r w).0 in
        (x.proxy_ready ≡ s.proxy_ready) × (x.controller_available ≡ true → Healthy (ok creds))
  ask_controller-evidence creds s (err e) w h off = (refl, λ on. cc)
  ask_controller-evidence creds s (ok c) w h off =
      let api = client_api P.transport c in
      let (kept, told) = note_health-evidence api s w (api.health w) refl off in
      (kept, λ on. (creds, refl, (c, h, (w, told on))))

  check_controller-evidence :
      (r : Result ApiCredentials) (s : K1sClusterStatus) (w : W)
      → s.controller_available ≡ false
      → let x = (check_controller P cluster r s w).0 in
        (x.proxy_ready ≡ s.proxy_ready) × (x.controller_available ≡ true → Healthy r)
  unfolding check_controller
  check_controller-evidence (err e) s w off = (refl, λ on. cc)
  check_controller-evidence (ok creds) s w off = ask_controller-evidence creds s _ w refl off

  note_endpoints-evidence :
      (endpoints : List ProxyEndpoint) (failure : Option Error) (s : K1sClusterStatus) (w : W)
      → s.proxy_ready ≡ false
      → let x = note_endpoints P cluster endpoints failure s w in
        (x.controller_available ≡ s.controller_available)
        × (x.proxy_ready ≡ true → (failure ≡ none) × (has_endpoints endpoints ≡ true))
  note_endpoints-evidence endpoints (some e) s w off = (refl, λ on. cc)
  note_endpoints-evidence endpoints none s w off = (refl, λ on. (refl, on))

  and-true : (a b c : Bool) → (a && b && c) ≡ true → (a ≡ true) × (b ≡ true)
  and-true a b c h = (ground arith, ground arith)

  -- If the reconciliation of a cluster finds it ready, then its credentials were read, a client with the
  -- read token had a health check of the k1s controller succeed, and a discovery of the proxy found at
  -- least one endpoint and no error.
  pub cluster_ready_evidence :
      (w : W)
      → cluster_ready P cluster (survey_cluster P cluster w).0.0 (survey_cluster P cluster w).0.1
        ≡ true
      → Healthy (survey_cluster P cluster w).0.0 × Reachable
  unfolding survey_cluster cluster_ready check_proxy
  cluster_ready_evidence w ready =
      let p₁ = load_credentials P cluster.meta.namespace cluster.spec.auth_secret_ref w in
      let noted = note_credentials P cluster p₁.0 p₁.1 (blank_status P cluster) in
      let p₂ = load_bootstrap P cluster cluster.spec.bootstrap_config_map_ref noted p₁.1 in
      let p₃ = check_controller P cluster p₁.0 p₂.0 p₂.1 in
      let p₄ = discover_proxy_endpoints P cluster p₃.1 in
      let proxied = note_endpoints P cluster p₄.0.endpoints p₄.0.failure p₃.0 p₄.1 in
      let (noted-available, noted-proxy) =
        note_credentials-Keeps p₁.0 p₁.1 (blank_status P cluster) in
      let (booted-available, booted-proxy) =
        load_bootstrap-Keeps cluster.spec.bootstrap_config_map_ref noted p₁.1 in
      let (asked-proxy, healthy) =
        check_controller-evidence p₁.0 p₂.0 p₂.1 (booted-available ∙ noted-available) in
      let (proxied-available, reached) =
        note_endpoints-evidence p₄.0.endpoints p₄.0.failure p₃.0 p₄.1
          (asked-proxy ∙ booted-proxy ∙ noted-proxy) in
      let (shim-available, shim-proxy) = note_apishim-Keeps cluster.spec.apishim proxied p₄.1 in
      let (available, proxy) = and-true _ _ _ ready in
      let (clean, found) = reached (sym shim-proxy ∙ proxy) in
      (healthy (sym proxied-available ∙ sym shim-available ∙ available), (p₃.1, clean, found))

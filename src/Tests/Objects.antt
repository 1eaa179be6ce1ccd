-- ===== src/Tests/Objects.antt =====
-- The objects of the examples.
use k1s_k8s_operator.Prelude.{String, true, false, List, [], ◌∷◌, none, some, string_eq, pos}
use k1s_k8s_operator.K1s.Status.{AppStatus, InferenceStatus}
use k1s_k8s_operator.Go.Values.{FloatConversions}
use k1s_k8s_operator.K1s.Client.Transport.{Url}
use k1s_k8s_operator.Api.Meta.{StringMap, ObjectMeta}
use k1s_k8s_operator.Api.Cluster.{K1sCluster, external}
use k1s_k8s_operator.Api.Exposure.{K1sExposure}
use k1s_k8s_operator.Api.Capability.{
  K1sApp, K1sInferenceEndpoint, K1sResourceSet, K1sManagedResourceStatus, delete,
}
use k1s_k8s_operator.Controller.Managed.Backend.{address_eq}
use k1s_k8s_operator.Controller.ResourceSet.Types.{capability_finalizer}

abbrev pub no_url : Url
no_url = record { scheme = "https"; host = "k1s"; path = ""; raw_query = ""; rest = "" }

abbrev pub floats : FloatConversions
floats = record { to_int32 = λ i. i; to_int64 = λ i. i }

-- A set of one Deployment, which managed an inference cell before.
abbrev pub meta : List String → ObjectMeta
meta finalizers = record {
  name = "shop";
  namespace = "default";
  generation = 1;
  labels = [];
  annotations = [];
  finalizers = finalizers;
  deletion_timestamp = none;
}

abbrev pub managed : String → String → String → K1sManagedResourceStatus
managed kind name hash = record { kind = kind; namespace = "shop"; name = name; hash = hash }

abbrev pub set_of : List String → K1sResourceSet
set_of manifests = record {
  meta = meta (capability_finalizer ∷ []);
  spec = record {
    cluster_ref = record { name = "edge"; namespace = "" };
    manifests = manifests;
    allowed_kinds = [];
    prune = true;
    delete_policy = delete;
  };
  status = record {
    observed_generation = 0;
    applied = pos 0;
    ready = false;
    managed_resources = managed "InferenceCell" "llm" "" ∷ [];
    last_sync_time = none;
    conditions = [];
  };
}

-- An app of one manifest, with what its annotations record as applied.
abbrev pub app_of : String → StringMap → K1sApp
app_of manifest annotations = record {
  meta = record (meta (capability_finalizer ∷ [])) { annotations = annotations };
  spec = record {
    cluster_ref = record { name = "edge"; namespace = "" };
    manifest = manifest;
    delete_policy = delete;
  };
  status = record {
    observed_generation = 0;
    app_name = "";
    ready = false;
    phase = "";
    endpoint = "";
    replicas = record { desired = pos 0; ready = pos 0; live = pos 0 };
    image = "";
    revision = "";
    last_sync_time = none;
    conditions = [];
  };
}

-- An inference endpoint of one cell.
abbrev pub endpoint_of : String → K1sInferenceEndpoint
endpoint_of model = record {
  meta = record (meta (capability_finalizer ∷ [])) { name = "llm"; namespace = "shop" };
  spec = record {
    cluster_ref = record { name = "edge"; namespace = "" };
    model = record { model_id = model; local_path = "" };
    parallelism = record { tp = pos 0; pp = pos 2 };
    executor = record {
      kind = "";
      fallback_mode = "strict";
      ray_image = "";
      mp_image = "";
      launcher_image = "";
      dtype = "";
      runtime_class_name = "";
    };
    fabric = record { mode = ""; policy_mode = ""; ttl_seconds = pos 0 };
    members = none;
    cell_set = none;
    delete_policy = delete;
  };
  status = record {
    observed_generation = 0;
    ready = false;
    phase = "";
    cell_name = "";
    cell_set_name = "";
    api_endpoint = "";
    active_executor = "";
    last_error = "";
    last_sync_time = none;
    conditions = [];
  };
}

-- the status of a cell that serves
abbrev pub serving : String → InferenceStatus
serving name = record {
  kind = "InferenceCell";
  name = name;
  namespace = "shop";
  phase = "Ready";
  status = "";
  ready = true;
  api_endpoint = "";
  active_executor = "ray";
  last_error = "";
  desired = pos 1;
  current = pos 1;
  ready_count = pos 1;
}

-- the status of an app that runs as it should
abbrev pub running : String → AppStatus
running name = record {
  app_name = name;
  name = name;
  namespace = "shop";
  ready = true;
  desired_replicas = pos 1;
  ready_replicas = pos 1;
  live_replicas = pos 1;
  revision = "1";
  revision_status = "live";
  image = "web:1";
  ingress_host = "";
  ingress_path = "";
  placements = [];
}

abbrev pub cluster : K1sCluster
cluster = record {
  meta = meta [];
  spec = record {
    controller = record { url = "https://k1s" };
    apishim = none;
    bootstrap_config_map_ref = none;
    auth_secret_ref = none;
    proxy = record { mode = external; service_ref = none; external = none };
    poll_interval_seconds = none;
  };
  status = record {
    observed_generation = 0;
    controller_available = false;
    apishim_available = false;
    proxy_ready = false;
    stack_domain = "";
    wildcard_apps_domain = "";
    node_summary = record { ready = pos 0; stale = pos 0; total = pos 0 };
    conditions = [];
  };
}

-- A cluster behind an external proxy at one address, one that is none beside it.
abbrev pub edge : K1sCluster
edge = record cluster {
  spec = record cluster.spec {
    proxy = record {
      mode = external;
      service_ref = none;
      external =
          some (record { addresses = "10.0.0.1" ∷ "proxy" ∷ []; dns_name = ""; port = pos 443 });
    };
  };
}

-- An exposure of the app shop/web.
abbrev pub exposure : K1sExposure
exposure = record {
  meta = meta [];
  spec = record {
    cluster_ref = record { name = "edge"; namespace = "" };
    app_ref = record { name = "web"; namespace = "shop" };
    host = "shop.example";
    path = "";
    service = record { name = ""; port = pos 0 };
    ingress = record {
      enabled = none;
      name = "";
      class_name = none;
      tls_secret_name = "";
      annotations = [];
    };
    traffic_probe = record {
      enabled = none;
      kind = "";
      scheme = "";
      path = "";
      port = pos 0;
      timeout_seconds = pos 0;
      expected_status = "200-299";
    };
  };
  status = record {
    observed_generation = 0;
    app_ready = false;
    service_name = "";
    endpoint_slice_name = "";
    ingress_name = "";
    proxy_endpoint_count = pos 0;
    last_app_sync_time = none;
    conditions = [];
  };
}

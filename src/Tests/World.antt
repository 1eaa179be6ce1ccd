-- ===== src/Tests/World.antt =====
-- A world that is the list of what k1s holds, with a Kubernetes that answers every call.
use k1s_k8s_operator.Prelude.{
  Bool, String, ◌≡◌, refl, true, false, ◌||◌, List, [], ◌∷◌, none, arith, ◌==◌, string_eq, contains,
  if◌then◌else◌,
}
use k1s_k8s_operator.K1s.Status.{AppStatus}
use k1s_k8s_operator.Go.Values.{Fields, empty}
use k1s_k8s_operator.Go.Errors.{api_error, message, Result, ok, err, Exec, pure, fail, lift}
use k1s_k8s_operator.K1s.Client.Transport.{Transport, HttpResponse}
use k1s_k8s_operator.K1s.Client.Routes.{Api}
use k1s_k8s_operator.Api.Meta.{ObjectMeta}
use k1s_k8s_operator.Api.Capability.{K1sManagedResourceStatus}
use k1s_k8s_operator.Controller.Platform.{KubeClient, ManifestHeader, Platform}
use k1s_k8s_operator.Controller.Manifest.{resource_delete_name, managed_resource_from_manifest}
use k1s_k8s_operator.Controller.Managed.Backend.{
  Address, app, cell, cell_set, address_eq, stands_at, Backend,
}
use k1s_k8s_operator.Controller.Separate.{Leaves, Separate}
use k1s_k8s_operator.Tests.Objects.{
  no_url, floats, meta, set_of, app_of, endpoint_of, running, serving,
}

abbrev pub World : Type 0
World = List Address

-- A client that holds no object.
abbrev pub no_objects :
    {W Object : Type 0}
    → (Object → ObjectMeta)
    → (Object → ObjectMeta → Object)
    → KubeClient W Object
no_objects meta set_meta = record {
  meta = meta;
  set_meta = set_meta;
  get = λ key. fail (message "unavailable");
  patch = λ before after. pure tt;
  patch_status = λ before after. pure tt;
}

-- The manifests of the examples, by their whole text.
abbrev pub header : String → ManifestHeader
header raw =
    if raw == "web"
    then record { kind = "Deployment"; name = "web"; namespace = "shop"; failure = none }
    else if raw == "pod"
    then record { kind = "Pod"; name = "web"; namespace = ""; failure = none }
    else if raw == "cell"
    then record { kind = "InferenceCell"; name = "llm"; namespace = "shop"; failure = none }
    else record { kind = ""; name = ""; namespace = ""; failure = none }

-- A server that answers every request with the same reply.
abbrev pub replying : {W : Type 0} → Result HttpResponse → Transport W
replying response = record {
  parse_url = λ s. ok no_url;
  url_string = λ u. u.path;
  redacted = λ u. u.path;
  join_path = λ a b. b;
  path_escape = λ s. s;
  query_escape = λ s. s;
  request_error = λ m u. none;
  request_path = λ u. u;
  send = λ timeout ca_bundle r. lift response;
  select = λ duration w. (none, w);
  unmarshal = λ s. ok empty;
  marshal = λ f. ok "{}";
  accepts_pem = λ s. true;
  floats = floats;
}

-- A platform that reads its objects whatever the world is.
abbrev pub platform_in : (W : Type 0) → Platform W
platform_in W = record {
  clusters = no_objects (λ o. o.meta) (λ o m. record o { meta = m });
  apps = record (no_objects (λ o. o.meta) (λ o m. record o { meta = m })) {
    get = λ key. pure (app_of "web" []);
  };
  inference_endpoints = record (no_objects (λ o. o.meta) (λ o m. record o { meta = m })) {
    get = λ key. pure (endpoint_of "llama");
  };
  resource_sets = record (no_objects (λ o. o.meta) (λ o m. record o { meta = m })) {
    get = λ key. pure (set_of []);
  };
  secret = λ key. fail (message "unavailable");
  config_map = λ key. fail (message "unavailable");
  endpoint_slices = λ namespace service. fail (message "unavailable");
  is_ip = λ text. text == "10.0.0.1";
  lookup_host = λ name. fail (message "unavailable");
  retry_on_conflict = λ m. m;
  set_status_condition = λ conditions c. c ∷ conditions;
  now = λ w. 0;
  sha256_hex = λ text. text;
  manifest_header = header;
  transport = replying (ok (record { status = 200; body = "" }));
}

abbrev pub platform : Platform World
platform = platform_in World

-- A k1s API that keeps what is applied and forgets what is deleted.
abbrev pub without : Address → World → World
without a [] = []
without a (b ∷ w) = let rest = without a w in if b == a then rest else b ∷ rest

abbrev pub with_resource : K1sManagedResourceStatus → World → World
with_resource r w =
    if r.kind == "Deployment"
    then app (resource_delete_name r.namespace r.name) ∷ w
    else if r.kind == "InferenceCell"
    then cell r.namespace r.name ∷ w
    else if r.kind == "InferenceCellSet"
    then cell_set r.namespace r.name ∷ w
    else w

abbrev pub applied : Result K1sManagedResourceStatus → Exec World Fields
applied (ok r) w = (ok empty, with_resource r w)
applied (err e) w = (err e, w)

abbrev pub looked : String → Bool → Exec World AppStatus
looked name true w = (ok (running name), w)
looked name false w = (err (api_error "GET" "/status" 404 ""), w)

abbrev pub api : Api World
api = record {
  health = pure tt;
  nodes = fail (message "unavailable");
  app_status =
      λ namespace name w. looked name (contains w (app (resource_delete_name namespace name))) w;
  apply = λ raw. applied (managed_resource_from_manifest platform raw);
  delete_app = λ name purge w. (ok empty, without (app name) w);
  inference_cell_status = λ namespace name. pure (serving name);
  inference_cell_set_status = λ namespace name. fail (message "unavailable");
  delete_inference_cell = λ namespace name w. (ok empty, without (cell namespace name) w);
  delete_inference_cell_set = λ namespace name w. (ok empty, without (cell_set namespace name) w);
}

pub contains-without :
    (b : Address)
    → (w : World) → (a : Address)
    → contains (without b w) a ≡ (if a == b then false else contains w a)
contains-without b [] a = ground arith
contains-without b (c ∷ w) a = ground (arith, contains-without b w a)

contains-with_resource :
    (r : K1sManagedResourceStatus)
    → (w : World) → (a : Address) → contains (with_resource r w) a ≡ (stands_at r a || contains w a)
unfolding stands_at
contains-with_resource r w a = ground arith

pub contains-applied :
    (x : Result K1sManagedResourceStatus) (r : K1sManagedResourceStatus) (w : World) (a : Address)
    → x ≡ ok r
    → contains (applied x w).1 a ≡ (stands_at r a || contains w a)
contains-applied (ok r) s w a h = cc (contains-with_resource r w a)
contains-applied (err e) s w a h = ground arith

unfoldable pub api-Backend : Backend platform api
api-Backend = record {
  holds = contains;
  deletes_app = λ name purge w h a. contains-without (app name) w a;
  deletes_cell = λ namespace name w h a. contains-without (cell namespace name) w a;
  deletes_cell_set = λ namespace name w h a. contains-without (cell_set namespace name) w a;
  applies = λ raw r w out read h a.
      contains-applied (managed_resource_from_manifest platform raw) r w a read;
}

pub platform-Separate : Separate platform platform.resource_sets api-Backend.holds
unfolding api-Backend
platform-Separate = record {
  get_leaves = λ key w a. refl;
  patch_leaves = λ before after w a. refl;
  patch_status_leaves = λ before after w a. refl;
  retry_leaves = λ m h. h;
}

pub platform-apps-Separate : Separate platform platform.apps api-Backend.holds
unfolding api-Backend
platform-apps-Separate = record {
  get_leaves = λ key w a. refl;
  patch_leaves = λ before after w a. refl;
  patch_status_leaves = λ before after w a. refl;
  retry_leaves = λ m h. h;
}

pub platform-endpoints-Separate : Separate platform platform.inference_endpoints api-Backend.holds
unfolding api-Backend
platform-endpoints-Separate = record {
  get_leaves = λ key w a. refl;
  patch_leaves = λ before after w a. refl;
  patch_status_leaves = λ before after w a. refl;
  retry_leaves = λ m h. h;
}

looked-Leaves : (name : String) (b : Bool) → Leaves api-Backend.holds (looked name b)
looked-Leaves name true w a = refl
looked-Leaves name false w a = refl

pub app_status-Leaves :
    (namespace name : String) → Leaves api-Backend.holds (api.app_status namespace name)
app_status-Leaves namespace name w a =
    looked-Leaves name (contains w (app (resource_delete_name namespace name))) w a

-- ===== src/K1s/Client/Routes.antt =====
-- The methods of the client: one route of the k1s API each. `Api` is what the controllers use of a
-- client, and `client_api` is the client's implementation of it.
use k1s_k8s_operator.Prelude.{
  String, ◌<>◌, Bool, not, ◌&&◌, none, some, ◌==◌, string_eq, if◌then◌else◌,
}
use k1s_k8s_operator.Go.Text.{contains_char, replace_all}
use k1s_k8s_operator.Go.Values.{Fields, empty}
use k1s_k8s_operator.Go.Errors.{ok, err, Exec, pure, lift, handle, ◌>>=◌}
use k1s_k8s_operator.K1s.Status.{
  AppStatus, NodeSummary, InferenceStatus, parse_app_status, parse_node_summary,
  parse_inference_status,
}
use k1s_k8s_operator.K1s.Client.Transport.{Transport, Client}
use k1s_k8s_operator.K1s.Client.Leader.{do_json_with_leader_retry}

pub record Api (W : Type 0) : Type 0 where
  pub health : Exec W (Unit {0})
  pub nodes : Exec W NodeSummary
  pub app_status : (namespace name : String) → Exec W AppStatus
  pub apply : String → Exec W Fields
  pub delete_app : String → Bool → Exec W Fields
  pub inference_cell_status : (namespace name : String) → Exec W InferenceStatus
  pub inference_cell_set_status : (namespace name : String) → Exec W InferenceStatus
  pub delete_inference_cell : (namespace name : String) → Exec W Fields
  pub delete_inference_cell_set : (namespace name : String) → Exec W Fields

-- the name that `AppStatus` asks for first
unfoldable pub app_ref : (namespace name : String) → String
app_ref namespace name =
    if not (namespace == "") && not (namespace == "default")
    then namespace <> ("/" <> name)
    else name

module _ {W : Type 0} (T : Transport W) (c : Client) where
  unfoldable pub get_json : String → Exec W Fields
  get_json endpoint = do_json_with_leader_retry T c "GET" endpoint none

  unfoldable pub post_json : String → Fields → Exec W Fields
  post_json endpoint payload = do
    body ← lift (T.marshal payload)
    do_json_with_leader_retry T c "POST" endpoint (some body)

  unfoldable pub health : Exec W (Unit {0})
  unfolding get_json
  health =
      handle (get_json "/health")
        λ r. elim r [ ok _ ↦ pure tt | err _ ↦ get_json "/healthz" >>= λ _. pure tt ]

  unfoldable pub status : Exec W Fields
  unfolding get_json
  status = get_json "/status"

  unfoldable pub app_status : (namespace name : String) → Exec W AppStatus
  unfolding get_json app_ref
  app_status namespace name =
      let ref = app_ref namespace name in
      handle (get_json ("/status/" <> (T.path_escape ref <> "?details=1"))) λ r. elim r [
        | ok payload ↦ pure (parse_app_status T.floats payload)
        | err e ↦
            if contains_char ref b'/'
            then (do
              payload ← get_json ("/status/" <> (replace_all ref b'/' "--" <> "?details=1"))
              pure (parse_app_status T.floats payload))
            else lift (err e)
      ]

  unfoldable pub nodes : Exec W NodeSummary
  unfolding get_json
  nodes = do payload ← get_json "/nodes"; pure (parse_node_summary T.floats payload)

  unfoldable pub apply : String → Exec W Fields
  unfolding post_json
  apply manifest = do payload ← lift (T.unmarshal manifest); post_json "/apply" payload

  unfoldable pub delete_app : String → Bool → Exec W Fields
  unfolding post_json
  delete_app app purge =
      let endpoint = "/delete/" <> T.path_escape app in
      post_json (if purge then endpoint <> "?purge=1" else endpoint) empty

  unfoldable pub inference_status : (collection namespace name : String) → Exec W InferenceStatus
  unfolding get_json
  inference_status collection namespace name = do
    payload ← get_json (
        "/inference/"
        <> (collection <> ("/" <> (T.path_escape namespace <> ("/" <> T.path_escape name)))))
    pure (parse_inference_status T.floats payload)

  unfoldable pub delete_inference : (collection namespace name : String) → Exec W Fields
  unfolding post_json
  delete_inference collection namespace name =
      let endpoint = "/inference/delete/" <> (collection <> ("/" <> T.path_escape name)) in
      post_json
        (if namespace == ""
          then endpoint
          else endpoint <> ("?namespace=" <> T.query_escape namespace))
        empty

  unfoldable pub client_api : Api W
  unfolding health nodes app_status apply delete_app inference_status delete_inference
  client_api = record {
    health = health;
    nodes = nodes;
    app_status = app_status;
    apply = apply;
    delete_app = delete_app;
    inference_cell_status = inference_status "cells";
    inference_cell_set_status = inference_status "cellsets";
    delete_inference_cell = delete_inference "cells";
    delete_inference_cell_set = delete_inference "cellsets";
  }

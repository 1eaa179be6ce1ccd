-- ===== src/K1s/Status.antt =====
-- internal/k1s/status.go: what the client reads out of the decoded replies of the k1s API.
pub mod Counting
pub mod Numbers
use k1s_k8s_operator.Prelude.{
  String, Bool, false, not, ◌&&◌, ◌||◌, List, [], ◌∷◌, length, ◌==◌, string_eq, if◌then◌else◌, ℤ,
  pos, succ_ℤ, leb_ℤ, ltb_ℤ, wrap32,
}
use k1s_k8s_operator.Go.Strconv.{format_int, atoi}
use k1s_k8s_operator.Go.Values.{
  Any, bool, float64, int, int32, int64, string, slice, object, Fields, lookup, elements,
  FloatConversions,
}

pub record Placement : Type 0 where
  pub node : String
  pub ready : Bool

pub record AppStatus : Type 0 where
  pub app_name : String
  pub name : String
  pub namespace : String
  pub ready : Bool
  pub desired_replicas : ℤ
  pub ready_replicas : ℤ
  pub live_replicas : ℤ
  pub revision : String
  pub revision_status : String
  pub image : String
  pub ingress_host : String
  pub ingress_path : String
  pub placements : List Placement

pub record NodeSummary : Type 0 where
  pub ready : ℤ
  pub stale : ℤ
  pub total : ℤ

pub record InferenceStatus : Type 0 where
  pub kind : String
  pub name : String
  pub namespace : String
  pub phase : String
  pub status : String
  pub ready : Bool
  pub api_endpoint : String
  pub active_executor : String
  pub last_error : String
  pub desired : ℤ
  pub current : ℤ
  pub ready_count : ℤ

unfoldable pub boolv : Any → Bool
boolv (bool b) = b
boolv (string t) = t == "true" || t == "True" || t == "READY" || t == "Ready"
boolv _ = false

unfoldable pub equal_fold_ready : String → Bool
equal_fold_ready value = value == "ready" || value == "Ready" || value == "READY"

-- the loop over `values`
unfoldable pub first_status : List String → String
first_status [] = ""
first_status (value ∷ values) = if value == "" then first_status values else value

-- `n++` on an int32
abbrev pub increment : ℤ → ℤ
increment n = wrap32 (succ_ℤ n)

module _ (floats : FloatConversions) where
  unfoldable pub str : Any → String
  str (string t) = t
  str (float64 t) = format_int (floats.to_int64 t)
  str (int t) = format_int t
  str (int64 t) = format_int t
  str _ = ""

  unfoldable pub i32 : Any → ℤ
  i32 (float64 t) = floats.to_int32 t
  i32 (int t) = wrap32 t
  i32 (int32 t) = t
  i32 (int64 t) = wrap32 t
  i32 (string t) = wrap32 (atoi t).0
  i32 _ = pos 0

  -- one round of the loop over the pods: an entry that is no object is passed over
  abbrev pub placement : Any → List Placement → List Placement
  placement (object pod) rest =
      record { node = str (lookup pod "node"); ready = boolv (lookup pod "ready") } ∷ rest
  placement _ rest = rest

  unfoldable pub placements_of : List Any → List Placement
  placements_of [] = []
  placements_of (pod ∷ pods) = placement pod (placements_of pods)

  abbrev pub pods_of : Any → List Placement
  pods_of (slice pods) = placements_of (elements pods)
  pods_of _ = []

  unfoldable pub parse_app_status : Fields → AppStatus
  parse_app_status payload =
      let desired = i32 (lookup payload "desired_replicas") in
      let ready = i32 (lookup payload "ready_replicas") in
      record {
        app_name = str (lookup payload "app_name");
        name = str (lookup payload "name");
        namespace = str (lookup payload "namespace");
        ready = ltb_ℤ (pos 0) desired && leb_ℤ desired ready;
        desired_replicas = desired;
        ready_replicas = ready;
        live_replicas = i32 (lookup payload "live_replicas");
        revision = str (lookup payload "revision");
        revision_status = str (lookup payload "revision_status");
        image = str (lookup payload "image");
        ingress_host = str (lookup payload "ingress_host");
        ingress_path = str (lookup payload "ingress_path");
        placements = pods_of (lookup payload "pods");
      }

  unfoldable pub parse_inference_status : Fields → InferenceStatus
  parse_inference_status payload =
      let phase =
        first_status (str (lookup payload "phase") ∷ str (lookup payload "status") ∷ []) in
      let kind = str (lookup payload "kind") in
      let desired = i32 (lookup payload "desired") in
      let count = i32 (lookup payload "ready") in
      let ready = boolv (lookup payload "ready") || equal_fold_ready phase in
      record {
        kind = kind;
        name = str (lookup payload "name");
        namespace = str (lookup payload "namespace");
        phase = phase;
        status = str (lookup payload "status");
        ready =
            if kind == "InferenceCellSet" && ltb_ℤ (pos 0) desired
            then ready || leb_ℤ desired count
            else ready;
        api_endpoint = str (lookup payload "api_endpoint");
        active_executor = str (lookup payload "active_executor");
        last_error = str (lookup payload "last_error");
        desired = desired;
        current = i32 (lookup payload "current");
        ready_count = count;
      }

  abbrev pub count_node : Any → NodeSummary → NodeSummary
  count_node (object node) summary = record summary {
    stale = if boolv (lookup node "stale") then increment summary.stale else summary.stale;
    ready =
        if str (lookup node "status") == "Ready" && not (boolv (lookup node "stale"))
        then increment summary.ready
        else summary.ready;
  }
  count_node _ summary = summary

  -- the loop over the nodes
  unfoldable pub count_nodes : List Any → NodeSummary → NodeSummary
  count_nodes [] summary = summary
  count_nodes (node ∷ nodes) summary = count_nodes nodes (count_node node summary)

  abbrev pub summary_of : Any → ℤ → NodeSummary
  summary_of (slice nodes) count =
      count_nodes (elements nodes)
        (record { ready = pos 0; stale = pos 0; total = wrap32 (pos (length (elements nodes))) })
  summary_of _ count = record { ready = pos 0; stale = pos 0; total = count }

  unfoldable pub parse_node_summary : Fields → NodeSummary
  parse_node_summary payload = summary_of (lookup payload "nodes") (i32 (lookup payload "count"))

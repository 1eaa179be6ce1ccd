-- ===== src/Controller/Helpers.antt =====
-- The small helpers of internal/controller: capability_controller.go, cluster_controller.go,
-- conditions.go and exposure_controller.go.
use k1s_k8s_operator.Prelude.{
  ℕ, zero, String, ◌<>◌, Bool, true, false, ◌||◌, List, [], ◌∷◌, Option, none, some, ◌==◌, contains,
  string_eq, if◌then◌else◌, ℤ, pos, pos_part, leb_ℤ,
}
use k1s_k8s_operator.Go.Values.{Any, string, Fields, lookup}
use k1s_k8s_operator.K1s.Status.{AppStatus}
use k1s_k8s_operator.Api.Meta.{ConditionStatus, is_true, is_false}
use k1s_k8s_operator.Api.Common.{reason_ready, reason_unavailable}

unfoldable pub condition_status : Bool → ConditionStatus
condition_status true = is_true
condition_status false = is_false

unfoldable pub reason_for_bool : Bool → String
reason_for_bool true = reason_ready
reason_for_bool false = reason_unavailable

unfoldable pub ready_message : Bool → String
ready_message true = "resource is ready"
ready_message false = "resource is not ready"

unfoldable pub app_ready_message : Bool → String
app_ready_message true = "k1s app is ready"
app_ready_message false = "k1s app is not ready"

unfoldable pub cluster_ready_message : Bool → String
cluster_ready_message true = "cluster is ready"
cluster_ready_message false = "cluster is not ready"

-- `pollInterval`, in seconds: the nanoseconds of a `time.Duration` hold any int32 of seconds.
unfoldable pub poll_interval : Option ℤ → ℕ
poll_interval none = 30
poll_interval (some raw) = if leb_ℤ raw (pos 0) then 30 else pos_part raw

-- `payload[key].(string)`
abbrev pub string_of : Any → String
string_of (string t) = t
string_of _ = ""

unfoldable pub str_map : Fields → String → String
str_map payload key = string_of (lookup payload key)

unfoldable pub default_i32 : ℤ → ℤ → ℤ
default_i32 (pos zero) fallback = fallback
default_i32 value fallback = value

unfoldable pub first_non_empty : List String → String
first_non_empty [] = ""
first_non_empty (value ∷ values) = if value == "" then first_non_empty values else value

unfoldable pub contains_string : List String → String → Bool
contains_string values wanted = contains values wanted

unfoldable pub remove_string : List String → String → List String
remove_string [] unwanted = []
remove_string (value ∷ values) unwanted =
    let rest = remove_string values unwanted in if value == unwanted then rest else value ∷ rest

unfoldable pub observed_endpoint : AppStatus → String
observed_endpoint observed =
    if observed.ingress_host == ""
    then ""
    else if observed.ingress_path == "" || observed.ingress_path == "/"
    then observed.ingress_host
    else observed.ingress_host <> observed.ingress_path

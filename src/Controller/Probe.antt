-- ===== src/Controller/Probe.antt =====
-- internal/controller/traffic_probe.go.
pub mod Range
use k1s_k8s_operator.Prelude.{
  ℕ, String, ◌<>◌, Bool, ◌||◌, Option, none, some, ◌==◌, string_eq, if◌then◌else◌, ℤ, pos, ltb_ℤ,
}
use k1s_k8s_operator.Go.Text.{to_lower, split_n2}
use k1s_k8s_operator.Go.Strconv.{format_int, atoi}
use k1s_k8s_operator.Go.Errors.{Error, message, Result, ok, err, Exec, pure, fail, lift, ◌>>=◌}
use k1s_k8s_operator.Api.Exposure.{
  K1sExposure, k1s_traffic_probe_scheme_http, k1s_traffic_probe_type_tcp,
}
use k1s_k8s_operator.Controller.Helpers.{default_i32}
use k1s_k8s_operator.Controller.Names.{exposure_service_name, exposure_service_port, exposure_path}

-- What the probe takes of package net and net/http: `net.JoinHostPort`, a TCP connection that is opened
-- and closed, and the status of the reply to a GET, both within a number of seconds.
pub record Prober (W : Type 0) : Type 0 where
  pub join_host_port : String → String → String
  pub connect : ℤ → String → Exec W (Unit {0})
  pub get : ℤ → String → Exec W ℕ

-- a result of `strconv.Atoi`
abbrev pub number : ℤ × Option String → Result ℤ
number (n, none) = ok n
number (n, some text) = err (message text)

abbrev pub ordered : ℤ → ℤ → Result (ℤ × ℤ)
ordered low high =
    if ltb_ℤ high low
    then err (
        message (
          "expectedStatus lower bound "
          <> (format_int low <> (" is greater than upper bound " <> format_int high))))
    else ok (low, high)

abbrev pub upper_bound : ℤ → Result ℤ → Result (ℤ × ℤ)
upper_bound low (err e) = err e
upper_bound low (ok high) = ordered low high

abbrev pub from_lower : Option String → Result ℤ → Result (ℤ × ℤ)
from_lower behind (err e) = err e
from_lower none (ok low) = ordered low low
from_lower (some text) (ok low) = upper_bound low (number (atoi text))

unfoldable pub expected_status_range : String → Result (ℤ × ℤ)
expected_status_range raw =
    if raw == ""
    then ok (pos 200, pos 399)
    else let (before, behind) = split_n2 raw b'-' in from_lower behind (number (atoi before))

abbrev pub in_range : ℕ → Result (ℤ × ℤ) → Result (Unit {0})
in_range status (err e) = err e
in_range status (ok (low, high)) =
    if ltb_ℤ (pos status) low || ltb_ℤ high (pos status)
    then err (message ("traffic probe returned HTTP " <> format_int (pos status)))
    else ok tt

module _ {W : Type 0} (N : Prober W) (exposure : K1sExposure) where
  abbrev pub probe_address : String
  probe_address =
      N.join_host_port
        (exposure_service_name exposure <> ("." <> (exposure.meta.namespace <> ".svc")))
        (format_int (default_i32 exposure.spec.traffic_probe.port (exposure_service_port exposure)))

  -- in seconds
  abbrev pub probe_timeout : ℤ
  probe_timeout = default_i32 exposure.spec.traffic_probe.timeout_seconds (pos 3)

  abbrev pub probe_url : String
  probe_url =
      let spec = exposure.spec.traffic_probe in
      let scheme = if spec.scheme == "" then k1s_traffic_probe_scheme_http else spec.scheme in
      let path = if spec.path == "" then exposure_path exposure else spec.path in
      to_lower scheme <> ("://" <> (probe_address <> path))

  unfoldable pub default_traffic_probe : Exec W (Unit {0})
  default_traffic_probe =
      if exposure.spec.traffic_probe.kind == k1s_traffic_probe_type_tcp
      then N.connect probe_timeout probe_address
      else N.get probe_timeout probe_url >>= λ status.
          lift (in_range status (expected_status_range exposure.spec.traffic_probe.expected_status))

-- ===== src/Tests/Probes.antt =====
-- The theorems on the traffic probe, at a service that answers 204, and on what is built for an exposure.
use k1s_k8s_operator.Prelude.{
  some, All, ◌∷◌, ℕ, ◌<>◌, ◌≡◌, refl, false, [], none, ◌==◌, string_eq, nat_eq, ℤ, pos, ◌≤ℤ◌,
}
use k1s_k8s_operator.Go.Text.{split_n2}
use k1s_k8s_operator.Go.Strconv.{atoi, scan}
use k1s_k8s_operator.Go.Errors.{ok, pure}
use k1s_k8s_operator.Api.Exposure.{ingress_enabled_or_default}
use k1s_k8s_operator.Api.Meta.{find_or_empty}
use k1s_k8s_operator.Controller.Names.Bounds.{IsLabel, dns_label-IsLabel}
use k1s_k8s_operator.Controller.Names.{
  dns_label, exposure_service_name, exposure_ingress_name, managed_labels, exposure_path,
  exposure_service_port,
}
use k1s_k8s_operator.Controller.Builders.{
  Ingress, new_meta, label_service_name, build_exposure_service, build_exposure_endpoint_slice,
  build_exposure_ingress,
}
use k1s_k8s_operator.Controller.Builders.Wiring.{RuleLeadsTo, build_exposure_wiring}
use k1s_k8s_operator.Controller.Probe.{
  Prober, expected_status_range, probe_timeout, probe_url, default_traffic_probe,
}
use k1s_k8s_operator.Controller.Probe.Range.{default_traffic_probe_evidence}
use k1s_k8s_operator.Tests.Objects.{cluster, exposure}
use k1s_k8s_operator.Tests.World.{World}

abbrev prober : Prober World
prober = record {
  join_host_port = λ host port. host <> (":" <> port);
  connect = λ seconds address. pure tt;
  get = λ seconds url. pure 204;
}

no_tcp : (exposure.spec.traffic_probe.kind == "TCP") ≡ false
unfolding string_eq
no_tcp = refl

passes : (default_traffic_probe prober exposure []).0 ≡ ok tt
unfolding default_traffic_probe expected_status_range split_n2 atoi scan string_eq nat_eq
passes = refl

default_traffic_probe_evidence_example :
    (status : ℕ) × ((prober.get (probe_timeout prober exposure) (probe_url prober exposure) []).0
      ≡ ok status)
    × ((r : ℤ × ℤ) × (expected_status_range "200-299" ≡ ok r)
        × (r.0 ≤ℤ pos status)
        × (pos status ≤ℤ r.1))
default_traffic_probe_evidence_example =
    default_traffic_probe_evidence prober exposure [] no_tcp passes

dns_label-IsLabel_example : IsLabel (dns_label " -Web_Shop.v1- ")
dns_label-IsLabel_example = dns_label-IsLabel " -Web_Shop.v1- "

abbrev shop_ingress : Ingress
shop_ingress = record {
  meta = new_meta (exposure_ingress_name exposure) "default" (managed_labels exposure "shop") [];
  class_name = none;
  rules =
      record {
        host = "shop.example";
        paths =
            record {
              path = exposure_path exposure;
              path_type = "Prefix";
              service_name = exposure_service_name exposure;
              service_port = exposure_service_port exposure;
            }
            ∷ [];
      }
      ∷ [];
  tls = [];
}

built : build_exposure_ingress cluster exposure ≡ ok (some shop_ingress)
unfolding build_exposure_ingress ingress_enabled_or_default string_eq
built = refl

build_exposure_wiring_example :
    All (RuleLeadsTo (build_exposure_service cluster exposure)) shop_ingress.rules
    × (find_or_empty label_service_name
          (build_exposure_endpoint_slice cluster exposure []).meta.labels
        ≡ (build_exposure_service cluster exposure).meta.name)
    × (shop_ingress.meta.namespace ≡ (build_exposure_service cluster exposure).meta.namespace)
    × ((build_exposure_endpoint_slice cluster exposure []).meta.namespace
        ≡ (build_exposure_service cluster exposure).meta.namespace)
build_exposure_wiring_example = build_exposure_wiring cluster exposure shop_ingress [] built

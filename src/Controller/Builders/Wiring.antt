-- ===== src/Controller/Builders/Wiring.antt =====
-- The parts of an exposure fit together: ingress, service and endpoint slice.
use k1s_k8s_operator.Prelude.{
  ◌≡◌, refl, sym, List, [], ◌∷◌, some, All, ◌==◌, string_eq, ℤ, Bool-cases, inl, inr,
}
use k1s_k8s_operator.Go.Errors.{ok, ok_inj}
use k1s_k8s_operator.Api.Meta.{find_or_empty}
use k1s_k8s_operator.Api.Cluster.{K1sCluster}
use k1s_k8s_operator.Api.Exposure.{K1sExposure, ingress_enabled_or_default}
use k1s_k8s_operator.Controller.Patch.Recorded.{find_or_empty-assign}
use k1s_k8s_operator.Controller.Proxy.{ProxyEndpoint}
use k1s_k8s_operator.Controller.Builders.{
  ServicePort, Service, IngressPath, IngressRule, Ingress, label_service_name,
  build_exposure_service, build_exposure_endpoint_slice, build_exposure_ingress,
}

-- Whether a service has a port of a number.
abbrev pub HasPort : List ServicePort → ℤ → Type 0
HasPort ports port = (p : ServicePort) × (ports ≡ p ∷ []) × (p.port ≡ port)

-- A path leads to a service: by its name, in a port that it has.
abbrev pub LeadsTo : Service → IngressPath → Type 0
LeadsTo s path = (path.service_name ≡ s.meta.name) × HasPort s.ports path.service_port

abbrev pub RuleLeadsTo : Service → IngressRule → Type 0
RuleLeadsTo s rule = All (LeadsTo s) rule.paths

pub some_inj : {A : Type 0} {a b : A} → some a ≡ some b → a ≡ b
some_inj h = cc

module _ (cluster : K1sCluster) (exposure : K1sExposure) where
  -- If an ingress is built, then each path of its rules leads to the service that is built, in a port that
  -- the service has; the endpoint slice names the service in its label; and the three are in one namespace.
  pub build_exposure_wiring :
      (ingress : Ingress) (endpoints : List ProxyEndpoint)
      → build_exposure_ingress cluster exposure ≡ ok (some ingress)
      → All (RuleLeadsTo (build_exposure_service cluster exposure)) ingress.rules
        × (find_or_empty label_service_name
              (build_exposure_endpoint_slice cluster exposure endpoints).meta.labels
            ≡ (build_exposure_service cluster exposure).meta.name)
        × (ingress.meta.namespace ≡ (build_exposure_service cluster exposure).meta.namespace)
        × ((build_exposure_endpoint_slice cluster exposure endpoints).meta.namespace
            ≡ (build_exposure_service cluster exposure).meta.namespace)
  unfolding build_exposure_ingress build_exposure_service build_exposure_endpoint_slice
  build_exposure_wiring ingress endpoints h =
      elim (Bool-cases (ingress_enabled_or_default exposure.spec.ingress)) [
        | inr off ↦ cc (rw off at h)
        | inl on ↦ elim (Bool-cases (exposure.spec.host == "")) [
          | inl blank ↦ cc (rw (on, blank) at h)
          | inr hosted ↦ rw (sym (some_inj (ok_inj (rw (on, hosted) at h)))) (
            (((refl, (_, refl, refl)), tt), tt),
            find_or_empty-assign label_service_name _ _,
            refl,
            refl,
          )
        ]
      ]

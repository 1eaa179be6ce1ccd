-- ===== src/Controller/Frame/Rounds.antt =====
-- Rounds of the reconcilers of sets, apps and inference endpoints, one behind the other in any order.
use k1s_k8s_operator.Prelude.{◌≡◌, refl, ◌∙◌, Bool, false, String, List, All, ◌==◌}
use k1s_k8s_operator.Go.Errors.{ok}
use k1s_k8s_operator.K1s.Client.Routes.{Api}
use k1s_k8s_operator.Api.Cluster.{K1sCluster}
use k1s_k8s_operator.Api.Capability.{K1sResourceSet, K1sApp, K1sInferenceEndpoint}
use k1s_k8s_operator.Controller.Platform.{Platform}
use k1s_k8s_operator.Controller.Separate.{Separate}
use k1s_k8s_operator.Controller.Managed.Backend.{Address, app, address_eq, any_at}
use k1s_k8s_operator.Controller.ResourceSet.Reconcile.{reconcile_with}
use k1s_k8s_operator.Controller.App.Reconcile.{app_delete_name, reconcile_app_with}
use k1s_k8s_operator.Controller.Inference.Manifest.{build_inference_manifest}
use k1s_k8s_operator.Controller.Inference.Pass.Address.{endpoint_address}
use k1s_k8s_operator.Controller.Inference.Reconcile.{reconcile_inference_with}
use k1s_k8s_operator.Controller.Frame.{Misses, Local}
use k1s_k8s_operator.Controller.Frame.Sets.{reconcile_with-Keeps}
use k1s_k8s_operator.Controller.Frame.Apps.{reconcile_app_with-Keeps}
use k1s_k8s_operator.Controller.Frame.Endpoints.{reconcile_inference_with-Keeps}

-- The calls of Kubernetes leave alone what k1s holds.
pub record Apart {W : Type 0} (P : Platform W) (holds : W → Address → Bool) : Type 0 where
  pub sets : Separate P P.resource_sets holds
  pub apps : Separate P P.apps holds
  pub endpoints : Separate P P.inference_endpoints holds

module _ {W : Type 0} (P : Platform W) (api : Api W) (holds : W → Address → Bool)
    (a : Address) where
  -- A round over an object that names the address nowhere: a set that does not manage a resource there and
  -- has no manifest of one; an app whose manifest describes none there, and that would not delete one there;
  -- an inference endpoint of another name, whose manifest, if it can be built, describes none there. The
  -- object is any, so a stale one too. Between rounds all may change but what k1s holds there.
  pub data Round : W → W → Type 0 where
    set_round :
        (set : K1sResourceSet) (configured : List String) (cluster : K1sCluster) (w : W)
        → any_at set.status.managed_resources a ≡ false
        → All (Misses P a) set.spec.manifests
        → Round w (reconcile_with P set configured api cluster w).1
    app_round :
        (o : K1sApp) (cluster : K1sCluster) (w : W)
        → (a == app (app_delete_name P o)) ≡ false
        → Misses P a o.spec.manifest
        → Round w (reconcile_app_with P o api cluster w).1
    endpoint_round :
        (o : K1sInferenceEndpoint) (cluster : K1sCluster) (w : W)
        → (a == endpoint_address o) ≡ false
        → ((raw : String) → build_inference_manifest o P ≡ ok raw → Misses P a raw)
        → Round w (reconcile_inference_with P o api cluster w).1
    elsewhere : (w w' : W) → holds w' a ≡ holds w a → Round w w'

  pub data Rounds (w : W) : W → Type 0 where
    none_yet : Rounds w w
    then_round : {v v' : W} → Rounds w v → Round v v' → Rounds w v'

  module _ (local : Local P api holds) (S : Apart P holds) where
    Round-same : {w w' : W} → Round w w' → holds w' a ≡ holds w a
    Round-same (set_round set configured cluster w unmanaged unwanted) =
        reconcile_with-Keeps P api holds local a (holds w a) set S.sets unmanaged unwanted
          configured cluster w refl
    Round-same (app_round o cluster w undeleted unwanted) =
        reconcile_app_with-Keeps P api holds local a (holds w a) o S.apps undeleted unwanted cluster
          w refl
    Round-same (endpoint_round o cluster w undeleted unwanted) =
        reconcile_inference_with-Keeps P api holds local a (holds w a) o S.endpoints undeleted
          unwanted cluster w refl
    Round-same (elsewhere w w' same) = same

    -- Whatever rounds of the reconcilers follow one another, in any order and whether they end well or not, if
    -- their objects name an address nowhere, then k1s holds there what it held. Be its replies errors or not,
    -- a call of the k1s API touches no address but the one that it is about, and those of Kubernetes none.
    pub Rounds-same : (w w' : W) → Rounds w w' → holds w' a ≡ holds w a
    Rounds-same w w' none_yet = refl
    Rounds-same w w' (then_round rounds round) = Round-same round ∙ Rounds-same _ _ rounds

-- ===== src/Controller/Setup.antt =====
-- SetupWithManager of the five reconcilers: for which type each is asked, and which types it owns.
use k1s_k8s_operator.Prelude.{String, List, [], ◌∷◌}
use k1s_k8s_operator.Go.Errors.{Exec}
use k1s_k8s_operator.Api.Meta.{NamespacedName}
use k1s_k8s_operator.Controller.Platform.{Platform}
use k1s_k8s_operator.Controller.ResourceSet.Types.{ReconcileResult}
use k1s_k8s_operator.Controller.ResourceSet.Reconcile.{reconcile}
use k1s_k8s_operator.Controller.App.Reconcile.{reconcile_app}
use k1s_k8s_operator.Controller.Inference.Reconcile.{reconcile_inference}
use k1s_k8s_operator.Controller.Cluster.{reconcile_cluster}
use k1s_k8s_operator.Controller.Exposure.Reconcile.{ExposureReconciler, reconcile_exposure}

-- What a controller is built of, where `V` is the world of the reconciler: the type of its objects,
-- the types that it owns, and the reconciler.
pub record Registration (V : Type 0) : Type 0 where
  pub object : String
  pub owned : List String
  pub reconciler : NamespacedName → Exec V ReconcileResult

-- `complete` is what `Complete` does with what the builder was given.
module _ {V W : Type 0} (complete : Registration V → Exec W (Unit {0})) (P : Platform V) where
  unfoldable pub setup_cluster : Exec W (Unit {0})
  setup_cluster =
      complete
        (record { object = "v1alpha1.K1sCluster"; owned = []; reconciler = reconcile_cluster P })

  unfoldable pub setup_exposure : ExposureReconciler V → Exec W (Unit {0})
  setup_exposure R = complete (record {
    object = "v1alpha1.K1sExposure";
    owned =
        "corev1.Service" ∷ "discoveryv1.EndpointSlice" ∷ "networkingv1.Ingress"
        ∷ "v1alpha1.K1sAppMirror" ∷ [];
    reconciler = reconcile_exposure P R;
  })

  unfoldable pub setup_app : Exec W (Unit {0})
  setup_app =
      complete (record { object = "v1alpha1.K1sApp"; owned = []; reconciler = reconcile_app P })

  unfoldable pub setup_inference : Exec W (Unit {0})
  setup_inference = complete (record {
    object = "v1alpha1.K1sInferenceEndpoint";
    owned = [];
    reconciler = reconcile_inference P;
  })

  unfoldable pub setup_resource_set : List String → Exec W (Unit {0})
  setup_resource_set allowed_kinds = complete (record {
    object = "v1alpha1.K1sResourceSet";
    owned = [];
    reconciler = reconcile P allowed_kinds;
  })

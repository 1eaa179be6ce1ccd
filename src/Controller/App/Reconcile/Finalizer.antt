-- ===== src/Controller/App/Reconcile/Finalizer.antt =====
-- The finalizer of a K1sApp goes only when k1s does not hold the app.
use k1s_k8s_operator.Prelude.{
  String, ◌≡◌, refl, ap, ◌∙◌, true, false, if◌then◌else◌, ◌==◌, string_eq,
}
use k1s_k8s_operator.Go.Errors.{Result, ok, err}
use k1s_k8s_operator.K1s.Client.Routes.{Api}
use k1s_k8s_operator.Api.Capability.{K1sApp}
use k1s_k8s_operator.Controller.Helpers.{contains_string, first_non_empty}
use k1s_k8s_operator.Controller.Platform.{Platform}
use k1s_k8s_operator.Controller.Separate.{Leaves, Separate, bind-Leaves, patch_finalizers-Leaves}
use k1s_k8s_operator.Controller.Managed.{delete_reply}
use k1s_k8s_operator.Controller.Managed.Backend.{Address, app, address_eq, Backend}
use k1s_k8s_operator.Controller.ResourceSet.Types.{capability_finalizer, ReconcileResult, is_orphan}
use k1s_k8s_operator.Controller.App.Reconcile.{
  app_delete_name, remove_app_finalizer, after_app_delete, finalize_app,
}

module _ {W : Type 0} (P : Platform W) (a : K1sApp) (api : Api W) (B : Backend P api)
    (S : Separate P P.apps B.holds) where
  remove_app_finalizer-Leaves : Leaves B.holds (remove_app_finalizer P a)
  unfolding remove_app_finalizer
  remove_app_finalizer-Leaves =
      bind-Leaves P P.apps B.holds S _ _ (patch_finalizers-Leaves P P.apps B.holds S a _)
        (λ _ w x. refl)

  after_app_delete-holds :
      (r : Result (Unit {0})) (w : W) (x : Address) {out : ReconcileResult}
      → (after_app_delete P a r w).0 ≡ ok out
      → (r ≡ ok tt) × (B.holds (after_app_delete P a r w).1 x ≡ B.holds w x)
  after_app_delete-holds (ok _) w x h = (refl, remove_app_finalizer-Leaves w x)
  after_app_delete-holds (err e) w x h = cc

  status_name-deletes : (a.status.app_name == "") ≡ false → app_delete_name P a ≡ a.status.app_name
  unfolding app_delete_name first_non_empty
  status_name-deletes named = rw named

  -- When the deletion of an app that is not orphaned and whose status names an app ends well, so that its
  -- finalizer is removed, k1s does not hold the app that the status names, and holds everything else as
  -- before. The k1s API behaves as `Backend` says, and the calls of Kubernetes leave k1s alone.
  pub holds-finalize_app :
      (w : W) (x : Address) {out : ReconcileResult}
      → contains_string a.meta.finalizers capability_finalizer ≡ true
      → is_orphan a.spec.delete_policy ≡ false
      → (a.status.app_name == "") ≡ false
      → (finalize_app P a api w).0 ≡ ok out
      → B.holds (finalize_app P a api w).1 x
        ≡ (if x == app a.status.app_name then false else B.holds w x)
  unfolding finalize_app
  holds-finalize_app w x has_it deletes named h =
      let p = delete_reply api (api.delete_app (app_delete_name P a) true) w in
      let (gone, same) = after_app_delete-holds p.0 p.1 x (rw (has_it, deletes) at h) in
      rw (has_it, deletes)
        (same
          ∙ B.deletes_app (app_delete_name P a) true w gone x
          ∙ ap (λ (n : String). if x == app n then false else B.holds w x)
              (status_name-deletes named))

-- ===== src/Controller/Inference/Life/Leak.antt =====
-- The finalizer of an inference endpoint, and what k1s holds for it, through its life.
use k1s_k8s_operator.Prelude.{
  ◌≡◌, refl, ◌∙◌, ◌⊎◌, inl, inr, Bool, true, false, Option, none, some, arith, Bool-cases, ◌==◌,
  string_eq, if◌then◌else◌,
}
use k1s_k8s_operator.Go.Errors.{Result, ok, err}
use k1s_k8s_operator.K1s.Client.Routes.{Api}
use k1s_k8s_operator.Api.Cluster.{K1sCluster}
use k1s_k8s_operator.Api.Capability.{K1sInferenceCellSetSpec, K1sInferenceEndpoint}
use k1s_k8s_operator.Controller.Platform.{Platform}
use k1s_k8s_operator.Controller.Separate.{Leaves, Separate, bind-Leaves, patch_finalizers-Leaves}
use k1s_k8s_operator.Controller.Managed.{delete_reply}
use k1s_k8s_operator.Controller.Managed.Backend.{Address, address_eq, Backend}
use k1s_k8s_operator.Controller.ResourceSet.Types.{is_deleted, is_orphan}
use k1s_k8s_operator.Controller.Inference.Manifest.{build_inference_manifest}
use k1s_k8s_operator.Controller.Inference.Pass.Address.{endpoint_address}
use k1s_k8s_operator.Controller.Inference.Reconcile.{
  delete_for, after_inference_delete, finalize_inference, add_inference_finalizer,
  reconcile_inference_with,
}
use k1s_k8s_operator.Controller.Inference.Reconcile.Finalizer.{
  remove_finalizer-Leaves, delete_for-holds,
}
use k1s_k8s_operator.Controller.Inference.Life.{
  has_finalizer, Server, Guarded, Step, round, edit, loss, Reach, here, next,
}
use k1s_k8s_operator.Controller.Keeps.{bind-Keeps, Keeps}
use k1s_k8s_operator.Controller.Inference.Life.Keeping.{Guarded-same, add_finalizer-Keeps}
use k1s_k8s_operator.Controller.Inference.Life.Guarded.{publish-Keeps, built-Keeps}

module _ {W : Type 0} (P : Platform W) (api : Api W) (server : Server P api) (B : Backend P api)
    (S : Separate P P.inference_endpoints B.holds) (a : Address) where
  -- k1s holds nothing at the address, or the object has the finalizer.
  abbrev pub Safe : W → Type 0
  Safe w = (B.holds w a ≡ false) ⊎ Guarded P api server w

  module _ (o : K1sInferenceEndpoint) where
    add-Leaves : Leaves B.holds (add_inference_finalizer P o)
    unfolding add_inference_finalizer
    add-Leaves =
        bind-Leaves P P.inference_endpoints B.holds S _ _
          (patch_finalizers-Leaves P P.inference_endpoints B.holds S o _) (λ _ w x. refl)

    add-Keeps : Keeps (Guarded P api server) (add_inference_finalizer P o)
    unfolding add_inference_finalizer
    add-Keeps =
        bind-Keeps (Guarded P api server) _ _ (add_finalizer-Keeps P api server o _) (λ _ w g. g)

    add-Safe : Keeps Safe (add_inference_finalizer P o)
    add-Safe w (inl gone) = inl (add-Leaves w a ∙ gone)
    add-Safe w (inr g) = inr (add-Keeps w g)

    delete_for-object :
        (c : Option K1sInferenceCellSetSpec) (w : W)
        → server.object (delete_reply api (delete_for P o api c) w).1 ≡ server.object w
    delete_for-object none w = server.deletes_cell _ _ w
    delete_for-object (some c) w = server.deletes_cell_set _ _ w

    after_delete-Safe :
        (r : Result (Unit {0})) (v : W)
        → Guarded P api server v
        → (r ≡ ok tt → B.holds v a ≡ false)
        → Safe (after_inference_delete P o r v).1
    after_delete-Safe (ok _) v g gone = inl (remove_finalizer-Leaves P o api B S v a ∙ gone refl)
    after_delete-Safe (err e) v g gone = inr (publish-Keeps P api server o _ v g)

  deleted-gone : (b : Bool) (x : Address) → x ≡ a → (if a == x then false else b) ≡ false
  deleted-gone b x e = ground arith

  -- A round keeps an endpoint safe, whether it ends well or not.
  round-Safe :
      (cluster : K1sCluster) (o : K1sInferenceEndpoint) (w : W)
      → (has_finalizer o ≡ true → Guarded P api server w)
      → (is_deleted o.meta ≡ true → endpoint_address o ≡ a)
      → (is_deleted o.meta ≡ true → is_orphan o.spec.delete_policy ≡ false)
      → Safe w
      → Safe (reconcile_inference_with P o api cluster w).1
  unfolding reconcile_inference_with finalize_inference
  round-Safe cluster o w guarded there deletes q = elim (Bool-cases (is_deleted o.meta)) [
    | inl dead ↦ elim (Bool-cases (has_finalizer o)) [
      | inl has ↦
          let p = delete_reply api (delete_for P o api o.spec.cell_set) w in
          rw (dead, has, deletes dead)
            (after_delete-Safe o p.0 p.1
              (Guarded-same P api server (delete_for-object o o.spec.cell_set w) (guarded has))
              (λ gone.
                delete_for-holds P o api B S o.spec.cell_set w a gone
                ∙ deleted-gone (B.holds w a) (endpoint_address o) (there dead)))
      | inr lacks ↦ rw (dead, lacks) q
    ]
    | inr alive ↦ elim (Bool-cases (has_finalizer o)) [
      | inl has ↦
          rw (alive, has)
            (inr
              (built-Keeps P api server o cluster (build_inference_manifest o P) w (guarded has)))
      | inr lacks ↦ rw (alive, lacks) (add-Safe o w q)
    ]
  ]

  Step-Safe : {w w' : W} → Step P api server B.holds a w w' → Safe w → Safe w'
  Step-Safe (round cluster o w guarded there deletes) q =
      round-Safe cluster o w guarded there deletes q
  Step-Safe (edit w w' keeps brings) (inl gone) = inl (brings gone)
  Step-Safe (edit w w' keeps brings) (inr g) = inr (keeps g)
  Step-Safe (loss w w' same lost) q = inl lost

  -- In every world that rounds, edits and losses lead to, k1s holds nothing at the address, or the endpoint
  -- is there and has its finalizer, if so it was at first. A round may fail at any call, and may be over a
  -- version of the endpoint that is behind, but not one from before its finalizer was removed. An edit may
  -- change all but remove the finalizer, and brings nothing to the address. Every version that a round finds
  -- being deleted has its cell, or its cell set, at the address and is not orphaned: an endpoint that is
  -- deleted after `spec.cellSet` was set or unset, or with the other policy, can leave what it had in k1s.
  -- Rounds and edits follow upon each other, each whole. The API server behaves as `Server` says, the k1s
  -- API as `Backend` does, and the calls of Kubernetes change nothing in k1s.
  pub Reach-Safe : (w w' : W) → Reach P api server B.holds a w w' → Safe w → Safe w'
  Reach-Safe w w' here q = q
  Reach-Safe w w' (next steps step) q = Step-Safe step (Reach-Safe _ _ steps q)

-- ===== src/Controller/Inference/Life/Guarded.antt =====
-- A pass over an inference endpoint keeps its finalizer.
use k1s_k8s_operator.Prelude.{
  ◌≡◌, refl, ◌∙◌, inl, inr, Bool, true, false, String, Option, none, some, Bool-cases,
}
use k1s_k8s_operator.Go.Values.{Fields}
use k1s_k8s_operator.Go.Errors.{Result, ok, err, pure}
use k1s_k8s_operator.K1s.Status.{InferenceStatus}
use k1s_k8s_operator.K1s.Client.Routes.{Api}
use k1s_k8s_operator.Api.Cluster.{K1sCluster}
use k1s_k8s_operator.Api.Capability.{
  K1sInferenceCellSetSpec, K1sInferenceEndpoint, K1sInferenceEndpointStatus,
}
use k1s_k8s_operator.Controller.Platform.{Platform}
use k1s_k8s_operator.Controller.Patch.{hash_bytes, patch_last_applied_hash}
use k1s_k8s_operator.Controller.Upkeep.{
  Outcome, surveyed, observation_of, manifest_changed, survey, recorded, apply_manifest, observe,
  conclude, upkeep,
}
use k1s_k8s_operator.Controller.Inference.Status.{publish_inference}
use k1s_k8s_operator.Controller.Inference.Pass.{
  ask_for, inference_status_for_endpoint, upkept_inference, inference_work, settle_inference,
  sync_inference,
}
use k1s_k8s_operator.Controller.Inference.Reconcile.{built}
use k1s_k8s_operator.Controller.Inference.Life.{Server, Guarded}
use k1s_k8s_operator.Controller.Keeps.{Keeps, bind-Keeps, handle-Keeps}
use k1s_k8s_operator.Controller.Inference.Life.Keeping.{
  same_strings_refl, Guarded-same, patch_object-Keeps, patch_status-Keeps,
}

module _ {W : Type 0} (P : Platform W) (api : Api W) (server : Server P api) where
  pub publish-Keeps :
      (o : K1sInferenceEndpoint) (status : K1sInferenceEndpointStatus)
      → Keeps (Guarded P api server) (publish_inference P o status)
  unfolding publish_inference
  publish-Keeps o status = patch_status-Keeps P api server o _

  record-Keeps :
      (o : K1sInferenceEndpoint) (hash : String)
      → Keeps (Guarded P api server) (patch_last_applied_hash P P.inference_endpoints o hash)
  unfolding patch_last_applied_hash
  record-Keeps o hash =
      patch_object-Keeps P api server o _
        λ c. inl (rw (server.writes_meta, server.reads_meta) (same_strings_refl c.meta.finalizers))

  module _ (o : K1sInferenceEndpoint) where
    ask_for-object :
        (c : Option K1sInferenceCellSetSpec) (w : W)
        → server.object (ask_for P o api c w).1 ≡ server.object w
    ask_for-object none w = server.asks_cell _ _ w
    ask_for-object (some c) w = server.asks_cell_set _ _ w

    ask-object :
        (w : W) → server.object (inference_status_for_endpoint P o api w).1 ≡ server.object w
    unfolding inference_status_for_endpoint
    ask-object w = ask_for-object o.spec.cell_set w

    surveyed-object :
        (p : Result InferenceStatus × W) → server.object (surveyed p).1 ≡ server.object p.1
    surveyed-object (ok seen, w) = refl
    surveyed-object (err e, w) = refl

    observation-object :
        (p : Result InferenceStatus × W) → server.object (observation_of p).1 ≡ server.object p.1
    observation-object (ok seen, w) = refl
    observation-object (err e, w) = refl

    module _ (raw : String) where
      survey-object :
          (w : W)
          → server.object (survey P api (upkept_inference P o api raw) w).1 ≡ server.object w
      unfolding survey
      survey-object w = elim (Bool-cases (manifest_changed P api (upkept_inference P o api raw))) [
        | inl changed ↦ rw changed
        | inr same ↦
            rw same (surveyed-object (inference_status_for_endpoint P o api w) ∙ ask-object w)
      ]

      observe-object :
          (seen : Option InferenceStatus) (r : Result Fields) (w : W)
          → server.object (observe P api (upkept_inference P o api raw) seen r w).1
            ≡ server.object w
      unfolding observe
      observe-object seen (err e) w = refl
      observe-object (some status) (ok out) w = refl
      observe-object none (ok out) w =
          observation-object (inference_status_for_endpoint P o api w) ∙ ask-object w

      recorded-Keeps :
          (r : Result Fields)
          → Keeps (Guarded P api server) (recorded P api (upkept_inference P o api raw) r)
      recorded-Keeps (err e) w q = q
      recorded-Keeps (ok out) w q =
          bind-Keeps (Guarded P api server)
            (patch_last_applied_hash P P.inference_endpoints o (hash_bytes P raw))
            (λ _. pure (ok out)) (record-Keeps o (hash_bytes P raw)) (λ _ v g. g) w q

      apply-Keeps :
          (should : Bool)
          → Keeps
              (Guarded P api server)
              (apply_manifest P api (upkept_inference P o api raw) should)
      unfolding apply_manifest
      apply-Keeps false w q = q
      apply-Keeps true w q =
          handle-Keeps (Guarded P api server) (api.apply raw)
            (recorded P api (upkept_inference P o api raw))
            (λ w q. Guarded-same P api server (server.applies raw w) q) recorded-Keeps w q

      work-Keeps : Keeps (Guarded P api server) (inference_work P o api raw)
      unfolding inference_work upkeep
      work-Keeps w q =
          let (s, w') = survey P api (upkept_inference P o api raw) w in
          bind-Keeps (Guarded P api server)
            (apply_manifest P api (upkept_inference P o api raw) s.should)
            (conclude P api (upkept_inference P o api raw) s) (apply-Keeps s.should)
            (λ r v g. Guarded-same P api server (observe-object s.seen r v) g) w'
            (Guarded-same P api server (survey-object w) q)

    settle-Keeps :
        (cluster : K1sCluster) (x : Outcome InferenceStatus)
        → Keeps (Guarded P api server) (settle_inference P o api cluster x)
    unfolding settle_inference
    settle-Keeps cluster x w q =
        bind-Keeps (Guarded P api server) (publish_inference P o _) _ (publish-Keeps o _)
          (λ _ v g. g) w q

    pub built-Keeps :
        (cluster : K1sCluster) (r : Result String)
        → Keeps (Guarded P api server) (built P o api cluster r)
    unfolding sync_inference
    built-Keeps cluster (ok raw) w q =
        bind-Keeps (Guarded P api server) (inference_work P o api raw)
          (settle_inference P o api cluster) (work-Keeps raw) (settle-Keeps cluster) w q
    built-Keeps cluster (err e) w q =
        bind-Keeps (Guarded P api server) (publish_inference P o _) _ (publish-Keeps o _)
          (λ _ v g. g) w q

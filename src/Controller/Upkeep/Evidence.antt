-- ===== src/Controller/Upkeep/Evidence.antt =====
-- What a pass has observed, k1s has told.
use k1s_k8s_operator.Prelude.{◌≡◌, refl, sym, inl, inr, Option, none, some, arith, Bool-cases}
use k1s_k8s_operator.Go.Values.{Fields}
use k1s_k8s_operator.Go.Errors.{Result, ok, err, continue, ok_inj}
use k1s_k8s_operator.K1s.Client.Routes.{Api}
use k1s_k8s_operator.Controller.Platform.{Platform}
use k1s_k8s_operator.Controller.Upkeep.{
  Upkept, Observation, observed, Survey, Outcome, surveyed, observation_of, manifest_changed,
  survey, apply_manifest, observe, conclude, upkeep,
}

module _ {W Object Seen : Type 0} (P : Platform W) (api : Api W) (u : Upkept W Object Seen) where
  -- k1s has told this status.
  abbrev pub Told : Seen → Type 0
  Told status = (v : W) × ((u.ask v).0 ≡ ok status)

  abbrev AllTold : Option Seen → Type 0
  AllTold none = Unit
  AllTold (some status) = Told status

  abbrev pub Founded : Observation Seen → Type 0
  Founded (observed status) = Told status
  Founded _ = Unit

  surveyed-AllTold : (v : W) (p : Result Seen × W) → (u.ask v).0 ≡ p.0 → AllTold (surveyed p).0.seen
  surveyed-AllTold v (ok status, w) h = (v, h)
  surveyed-AllTold v (err e, w) h = tt

  survey-AllTold : (w : W) → AllTold (survey P api u w).0.seen
  unfolding survey
  survey-AllTold w = elim (Bool-cases (manifest_changed P api u)) [
    | inl changed ↦ rw changed tt
    | inr same ↦ rw same (surveyed-AllTold w (u.ask w) refl)
  ]

  observation_of-Founded :
      (v : W) (p : Result Seen × W) → (u.ask v).0 ≡ p.0 → Founded (observation_of p).0
  observation_of-Founded v (ok status, w) h = (v, h)
  observation_of-Founded v (err e, w) h = tt

  observe-Founded :
      (seen : Option Seen)
      → (r : Result Fields) → (w : W) → AllTold seen
      → Founded (observe P api u seen r w).0
  unfolding observe
  observe-Founded seen (err e) w h = tt
  observe-Founded (some status) (ok out) w h = h
  observe-Founded none (ok out) w h = observation_of-Founded w (u.ask w) refl

  conclude-Founded :
      (s : Survey Seen)
      → AllTold s.seen
      → (p : Result (Result Fields) × W) → {o : Outcome Seen}
      → (continue (conclude P api u s) p).0 ≡ ok o
      → Founded o.observation
  conclude-Founded s h (ok r, w) e = rw (sym (ok_inj e)) (observe-Founded s.seen r w h)
  conclude-Founded s h (err x, w) e = ground arith

  -- A status that a pass has observed is one that k1s has told.
  pub upkeep-Founded :
      (w : W) (o : Outcome Seen) → (upkeep P api u w).0 ≡ ok o → Founded o.observation
  unfolding upkeep
  upkeep-Founded w o h =
      let (s, w') = survey P api u w in
      conclude-Founded s (survey-AllTold w) (apply_manifest P api u s.should w') h

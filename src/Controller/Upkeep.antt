-- ===== src/Controller/Upkeep.antt =====
-- What the reconcilers of K1sApp and K1sInferenceEndpoint in capability_controller.go have in common:
-- whether an accepted manifest is to be applied, the apply, and what is observed.
pub mod Evidence
pub mod Repair
use k1s_k8s_operator.Prelude.{
  String, Bool, true, false, not, Option, none, some, ◌==◌, string_eq, if◌then◌else◌,
}
use k1s_k8s_operator.Go.Values.{Fields, empty}
use k1s_k8s_operator.Go.Errors.{
  Error, is_not_found, Result, ok, err, Exec, pure, handle, ◌>>◌, ◌>>=◌,
}
use k1s_k8s_operator.K1s.Client.Routes.{Api}
use k1s_k8s_operator.Api.Meta.{ObjectMeta}
use k1s_k8s_operator.Controller.Platform.{KubeClient, Platform}
use k1s_k8s_operator.Controller.Patch.{last_applied_hash, hash_bytes, patch_last_applied_hash}

-- What the two reconcilers differ in: the object and the client of its kind, the manifest, and the
-- request for the status of what the manifest describes, a `Seen`.
pub record Upkept (W Object Seen : Type 0) : Type 0 where
  pub kube : KubeClient W Object
  pub object : Object
  pub meta : ObjectMeta
  pub manifest : String
  pub ask : Exec W Seen

-- What the controller knows when it writes the status: the apply failed, or k1s told the status, or
-- did not.
pub data Observation (Seen : Type 0) : Type 0 where
  not_applied : Error → Observation Seen
  observed : Seen → Observation Seen
  unread : Error → Observation Seen

-- `shouldApply` and, where `observedOK`, `observed`, before the apply.
pub record Survey (Seen : Type 0) : Type 0 where
  pub should : Bool
  pub seen : Option Seen

-- What a pass leaves for the status: `shouldApply`, `result` and what is observed in the end.
pub record Outcome (Seen : Type 0) : Type 0 where
  pub should : Bool
  pub out : Fields
  pub observation : Observation Seen

-- `result`, which is nil if the apply failed
abbrev pub reply_of : Result Fields → Fields
reply_of (ok out) = out
reply_of (err e) = empty

-- Whether an observation is that of a pass whose apply did not fail.
abbrev pub was_applied : {Seen : Type 0} → Observation Seen → Bool
was_applied (not_applied e) = false
was_applied _ = true

abbrev pub surveyed : {W Seen : Type 0} → Result Seen × W → Survey Seen × W
surveyed (ok status, w) = (record { should = false; seen = some status }, w)
surveyed (err e, w) = (record { should = is_not_found e; seen = none }, w)

abbrev pub observation_of : {W Seen : Type 0} → Result Seen × W → Observation Seen × W
observation_of (ok status, w) = (observed status, w)
observation_of (err e, w) = (unread e, w)

module _ {W Object Seen : Type 0} (P : Platform W) (api : Api W) (u : Upkept W Object Seen) where
  unfoldable pub manifest_changed : Bool
  manifest_changed = not (last_applied_hash u.meta == hash_bytes P u.manifest)

  -- What was applied before is looked up: if k1s does not know it, it is applied again.
  unfoldable pub survey : W → Survey Seen × W
  survey w =
      if manifest_changed then (record { should = true; seen = none }, w) else surveyed (u.ask w)

  abbrev pub recorded : Result Fields → Exec W (Result Fields)
  recorded (err e) = pure (err e)
  recorded (ok out) =
      patch_last_applied_hash P u.kube u.object (hash_bytes P u.manifest) >> pure (ok out)

  -- An error of this action is one of recording the hash; that of the apply is a value.
  unfoldable pub apply_manifest : Bool → Exec W (Result Fields)
  apply_manifest false = pure (ok empty)
  apply_manifest true = handle (api.apply u.manifest) recorded

  unfoldable pub observe : Option Seen → Result Fields → W → Observation Seen × W
  observe seen (err e) w = (not_applied e, w)
  observe (some status) (ok out) w = (observed status, w)
  observe none (ok out) w = observation_of (u.ask w)

  abbrev pub conclude : Survey Seen → Result Fields → Exec W (Outcome Seen)
  conclude s reply w =
      let (observation, w') = observe s.seen reply w in
      (ok (record { should = s.should; out = reply_of reply; observation = observation }), w')

  unfoldable pub upkeep : Exec W (Outcome Seen)
  upkeep w = let (s, w') = survey w in (apply_manifest s.should >>= conclude s) w'

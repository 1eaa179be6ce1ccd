-- ===== src/Controller/Kinds.antt =====
-- The kind policy of capability_controller.go: `normalizeKindList`, `kindSet`, `allowedKindsFor`.
pub mod Laws
use k1s_k8s_operator.Prelude.{
  String, ◌<>◌, ◌||◌, List, [], ◌∷◌, ◌++◌, ◌==◌, contains, string_eq, if◌then◌else◌,
}
use k1s_k8s_operator.Go.Text.{trim_space}
use k1s_k8s_operator.Go.Errors.{message, Result, ok, err}
use k1s_k8s_operator.Controller.Auth.{quoted}

abbrev pub default_resource_set_allowed_kinds : List String
default_resource_set_allowed_kinds = "Deployment" ∷ "InferenceCell" ∷ "InferenceCellSet" ∷ []

-- The loop, whose map `seen` holds what `out` lists.
unfoldable pub normalize_into : List String → List String → List String
normalize_into [] out = out
normalize_into (raw ∷ kinds) out =
    let kind = trim_space raw in
    normalize_into kinds (if kind == "" || contains out kind then out else out ++ kind ∷ [])

unfoldable pub normalize_kind_list : List String → List String
unfolding normalize_into
normalize_kind_list kinds = normalize_into kinds []

-- A `map[string]bool` whose values are all true, by its keys.
abbrev pub KindSet : Type 0
KindSet = List String

unfoldable pub kind_set : List String → KindSet
kind_set kinds = kinds

-- the cap: the configured kinds, or the default ones where none is configured
abbrev pub or_default_kinds : List String → List String
or_default_kinds [] = normalize_kind_list default_resource_set_allowed_kinds
or_default_kinds (kind ∷ kinds) = kind ∷ kinds

unfoldable pub kind_cap : List String → List String
kind_cap configured = or_default_kinds (normalize_kind_list configured)

-- the loop over the requested kinds; the error is that of the first one outside the limit
unfoldable pub check_requested : KindSet → List String → Result (Unit {0})
check_requested limit [] = ok tt
check_requested limit (kind ∷ kinds) =
    if contains limit kind
    then check_requested limit kinds
    else err (
        message
          ("kind " <> (quoted kind <> " is outside the operator ResourceSet allowed-kind cap")))

abbrev pub chosen : KindSet → List String → KindSet
chosen limit [] = limit
chosen limit (kind ∷ kinds) = kind_set (kind ∷ kinds)

abbrev pub policy : KindSet → List String → Result (Unit {0}) → Result KindSet
policy limit requested (err e) = err e
policy limit requested (ok _) = ok (chosen limit requested)

unfoldable pub allowed_kinds_for : (configured spec_kinds : List String) → Result KindSet
allowed_kinds_for configured spec_kinds =
    let limit = kind_set (kind_cap configured) in
    let requested = normalize_kind_list spec_kinds in
    policy limit requested (check_requested limit requested)

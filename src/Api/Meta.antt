-- ===== src/Api/Meta.antt =====
-- The parts of Kubernetes objects that the code reads or writes.
use k1s_k8s_operator.Prelude.{
  ℕ, String, List, [], ◌∷◌, Option, none, some, ◌==◌, string_eq, if◌then◌else◌,
}

-- seconds
abbrev pub Time : Type 0
Time = ℕ

-- A `map[string]string`; the nil map and the empty one read alike.
abbrev pub StringMap : Type 0
StringMap = List (String × String)

unfoldable pub find : String → StringMap → Option String
find key [] = none
find key ((k, v) ∷ rest) = if key == k then some v else find key rest

-- `m[key]`, which is empty for a missing key
unfoldable pub find_or_empty : String → StringMap → String
unfolding find
find_or_empty key m = elim (find key m) [ none ↦ "" | some v ↦ v ]

-- `m[key] = value`
unfoldable pub assign : String → String → StringMap → StringMap
assign key value [] = (key, value) ∷ []
assign key value ((k, v) ∷ rest) =
    if key == k then (key, value) ∷ rest else (k, v) ∷ assign key value rest

pub record ObjectMeta : Type 0 where
  pub name : String
  pub namespace : String
  pub generation : ℕ
  pub labels : StringMap
  pub annotations : StringMap
  pub finalizers : List String
  pub deletion_timestamp : Option Time

pub record NamespacedName : Type 0 where
  pub namespace : String
  pub name : String

-- `metav1.ConditionStatus`
pub data ConditionStatus : Type 0 where
  is_true is_false is_unknown : ConditionStatus

-- `metav1.Condition`
pub record Condition : Type 0 where
  pub kind : String
  pub status : ConditionStatus
  pub reason : String
  pub message : String
  pub observed_generation : ℕ
  pub last_transition_time : Time

-- `corev1.Secret`, `corev1.ConfigMap`
pub record Secret : Type 0 where
  pub entries : StringMap

pub record ConfigMap : Type 0 where
  pub entries : StringMap

-- ===== src/Controller/Patch/Recorded.antt =====
-- The annotation that records the hash is read back.
use k1s_k8s_operator.Prelude.{String, ◌≡◌, [], ◌∷◌, arith, string_eq}
use k1s_k8s_operator.Api.Meta.{StringMap, find, find_or_empty, assign}

pub find_or_empty-assign : (k v : String) (m : StringMap) → find_or_empty k (assign k v m) ≡ v
unfolding find_or_empty find assign
find_or_empty-assign k v [] = ground arith
find_or_empty-assign k v ((j, u) ∷ m) = ground (arith, find_or_empty-assign k v m)

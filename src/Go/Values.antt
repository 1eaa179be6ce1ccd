-- ===== src/Go/Values.antt =====
-- Values of type `any`, and a decoded JSON object as a `map[string]any`.
use k1s_k8s_operator.Prelude.{String, Bool, List, [], ◌∷◌, ◌==◌, string_eq, if◌then◌else◌, ℤ}

-- The dynamic types that the code tells apart. A float64 is given by its integral part: the code
-- reads one only through `int32(f)` and `int64(f)`, which drop the fraction.
mutual
  pub data Any : Type 0 where
    nil : Any
    bool : Bool → Any
    float64 : ℤ → Any
    int : ℤ → Any
    int32 : ℤ → Any
    int64 : ℤ → Any
    string : String → Any
    slice : Items → Any
    object : Fields → Any

  pub data Items : Type 0 where
    end : Items
    item : Any → Items → Items

  pub data Fields : Type 0 where
    empty : Fields
    field : String → Any → Fields → Fields

-- `payload[key]`: nil for a missing key, and on the nil map. A decoded object has each key once.
unfoldable pub lookup : Fields → String → Any
lookup empty key = nil
lookup (field k v rest) key = if key == k then v else lookup rest key

-- `payload[key] = value`
unfoldable pub assign_field : Fields → String → Any → Fields
assign_field empty key value = field key value empty
assign_field (field k v rest) key value =
    if key == k then field k value rest else field k v (assign_field rest key value)

unfoldable pub elements : Items → List Any
elements end = []
elements (item a rest) = a ∷ elements rest

-- `int32(f)` and `int64(f)` of a float64 with this integral part: Go leaves the result to the
-- implementation where it does not fit.
pub record FloatConversions : Type 0 where
  pub to_int32 : ℤ → ℤ
  pub to_int64 : ℤ → ℤ

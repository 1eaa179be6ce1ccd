-- ===== src/K1s/Status/Numbers.antt =====
-- Numbers in the replies of the k1s API: `str` and `i32` of internal/k1s/status.go.
use k1s_k8s_operator.Prelude.{◌≡◌, ap, String, Option, ℤ, wrap32}
use k1s_k8s_operator.Go.Strconv.Trips.{InInt64, atoi-format_int}
use k1s_k8s_operator.Go.Values.{int64, string, FloatConversions}
use k1s_k8s_operator.K1s.Status.{str, i32}

-- The text that is read for an int64 is read, as a number, as the int64 itself is: k1s may send a count
-- as a number or as its text.
i32-str :
    (floats : FloatConversions) (i : ℤ)
    → InInt64 i
    → i32 floats (string (str floats (int64 i))) ≡ i32 floats (int64 i)
unfolding i32 str
i32-str floats i h = ap (λ (r : ℤ × Option String). wrap32 r.0) (atoi-format_int i h)

-- ===== src/K1s/Status/Counting.antt =====
-- The node summary against a plain count of the nodes.
use k1s_k8s_operator.Prelude.{
  ℕ, suc, ◌+◌, ◌≤◌, ◌<◌, ◌^◌, ◌≡◌, refl, ap, ◌∙◌, Bool, true, false, not, ◌&&◌, List, [], ◌∷◌,
  length, arith, ◌==◌, string_eq, if◌then◌else◌, ℤ, pos, wrap32,
}
use k1s_k8s_operator.Go.Values.{
  Any, nil, bool, float64, int, int32, int64, string, slice, object, Items, Fields, lookup,
  elements, FloatConversions,
}
use k1s_k8s_operator.K1s.Status.{
  NodeSummary, boolv, str, increment, count_node, count_nodes, summary_of, parse_node_summary, i32,
}

increment-pos : (n : ℕ) → n + 1 < 2 ^ 31 → increment (pos n) ≡ pos (suc n)
increment-pos n h = ground (arith, h)

increment-if :
    (b : Bool)
    → (n : ℕ) → n + 1 < 2 ^ 31
    → (if b then increment (pos n) else pos n) ≡ pos (if b then suc n else n)
increment-if true n h = increment-pos n h
increment-if false n h = refl

wrap32-pos : (n : ℕ) → n < 2 ^ 31 → wrap32 (pos n) ≡ pos n
wrap32-pos n h = ground (arith, h)

module _ (floats : FloatConversions) where
  abbrev pub is_stale : Any → Bool
  is_stale (object node) = boolv (lookup node "stale")
  is_stale _ = false

  abbrev pub is_ready : Any → Bool
  is_ready (object node) =
      str floats (lookup node "status") == "Ready" && not (boolv (lookup node "stale"))
  is_ready _ = false

  -- How many elements pass a test.
  abbrev pub count : (Any → Bool) → List Any → ℕ
  count p [] = 0
  count p (x ∷ xs) = if p x then suc (count p xs) else count p xs

  -- The nodes that a reply lists as stale, and those that it lists as ready and not stale.
  abbrev pub stale_nodes : List Any → ℕ
  stale_nodes = count is_stale

  abbrev pub ready_nodes : List Any → ℕ
  ready_nodes = count is_ready

  ready-add-stale-le : (nodes : List Any) → ready_nodes nodes + stale_nodes nodes ≤ length nodes
  ready-add-stale-le [] = omega arith
  ready-add-stale-le (object node ∷ nodes) = ground (arith, ready-add-stale-le nodes)
  ready-add-stale-le (nil ∷ nodes) = omega (arith, ready-add-stale-le nodes)
  ready-add-stale-le (bool b ∷ nodes) = omega (arith, ready-add-stale-le nodes)
  ready-add-stale-le (float64 b ∷ nodes) = omega (arith, ready-add-stale-le nodes)
  ready-add-stale-le (int b ∷ nodes) = omega (arith, ready-add-stale-le nodes)
  ready-add-stale-le (int32 b ∷ nodes) = omega (arith, ready-add-stale-le nodes)
  ready-add-stale-le (int64 b ∷ nodes) = omega (arith, ready-add-stale-le nodes)
  ready-add-stale-le (string b ∷ nodes) = omega (arith, ready-add-stale-le nodes)
  ready-add-stale-le (slice b ∷ nodes) = omega (arith, ready-add-stale-le nodes)

  abbrev pub summary : ℤ → ℤ → ℤ → NodeSummary
  summary r s t = record { ready = r; stale = s; total = t }

  -- Counting on from a summary whose counts leave room.
  abbrev pub counted : ℕ → ℕ → ℤ → NodeSummary
  counted r s total = summary (pos r) (pos s) total

  summary-cong : {r r' s s' t t' : ℤ} → r ≡ r' → s ≡ s' → t ≡ t' → summary r s t ≡ summary r' s' t'
  summary-cong e f g = λ i. summary (e i) (f i) (g i)

  count_node-counted :
      (x : Any)
      → (r s : ℕ) → (total : ℤ) → r + 1 < 2 ^ 31
      → s + 1 < 2 ^ 31
      → count_node floats x (counted r s total)
        ≡ counted (if is_ready x then suc r else r) (if is_stale x then suc s else s) total
  count_node-counted (object node) r s total hr hs =
      summary-cong (increment-if (is_ready (object node)) r hr)
        (increment-if (is_stale (object node)) s hs) refl
  count_node-counted nil r s total hr hs = refl
  count_node-counted (bool _) r s total hr hs = refl
  count_node-counted (float64 _) r s total hr hs = refl
  count_node-counted (int _) r s total hr hs = refl
  count_node-counted (int32 _) r s total hr hs = refl
  count_node-counted (int64 _) r s total hr hs = refl
  count_node-counted (string _) r s total hr hs = refl
  count_node-counted (slice _) r s total hr hs = refl

  count_nodes-counted :
      (nodes : List Any)
      → (r s : ℕ) → (total : ℤ) → r + length nodes < 2 ^ 31
      → s + length nodes < 2 ^ 31
      → count_nodes floats nodes (counted r s total)
        ≡ counted (r + ready_nodes nodes) (s + stale_nodes nodes) total
  unfolding count_nodes
  count_nodes-counted [] r s total hr hs =
      summary-cong (ap pos (omega arith)) (ap pos (omega arith)) refl
  count_nodes-counted (x ∷ nodes) r s total hr hs =
      ap (count_nodes floats nodes)
        (count_node-counted x r s total (omega (arith, hr)) (omega (arith, hs)))
      ∙ count_nodes-counted nodes (if is_ready x then suc r else r)
          (if is_stale x then suc s else s) total (ground (arith, hr)) (ground (arith, hs))
      ∙ summary-cong (ap pos (ground arith)) (ap pos (ground arith)) refl

  -- For a reply that lists fewer than 2^31 nodes, the summary's total is the number of the listed nodes,
  -- its stale count that of the nodes marked stale and its ready count that of the nodes with status Ready
  -- that are not marked stale, and no node is in both counts.
  pub parse_node_summary-counts :
      (payload : Fields)
      → (nodes : Items) → lookup payload "nodes" ≡ slice nodes
      → length (elements nodes) < 2 ^ 31
      → (parse_node_summary floats payload
          ≡ counted
              (ready_nodes (elements nodes))
              (stale_nodes (elements nodes))
              (pos (length (elements nodes))))
        × (ready_nodes (elements nodes) + stale_nodes (elements nodes) ≤ length (elements nodes))
  unfolding parse_node_summary
  parse_node_summary-counts payload nodes listed small = (
    ap (λ v. summary_of floats v (i32 floats (lookup payload "count"))) listed
        ∙ count_nodes-counted (elements nodes) 0 0 (wrap32 (pos (length (elements nodes))))
            (omega (arith, small)) (omega (arith, small))
        ∙ summary-cong (ap pos (omega arith)) (ap pos (omega arith))
            (wrap32-pos (length (elements nodes)) small),
    ready-add-stale-le (elements nodes),
  )

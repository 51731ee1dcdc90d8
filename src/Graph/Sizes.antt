-- ===== src/Graph/Sizes.antt =====
-- Sanitising and laying out add no nodes, and keep ids distinct.
use kprobe.Base.{
  ℕ, suc, ◌+◌, ◌≤◌, ◌≡◌, refl, ap, ◌∙◌, String, Option, List, [], ◌∷◌, map, arith, length,
  length-map, length-sort, Option-cases, inl, inr, if_both, Distinct, Distinct-sort, sort, put,
  length-put-le, string_key,
}
use kprobe.Json.{Num}
use kprobe.Graph.{
  GraphNode, GraphEdge, Collation, index_nodes, unique_nodes, place, by_time_and_id,
  fallback_layout, move_to, all_finite, layout_dag,
}
use kprobe.Graph.Layout.{ids-place, ids-move_to}

length-index_nodes :
    (m : List (String × GraphNode)) (ns : List GraphNode)
    → length (index_nodes m ns) ≤ length m + length ns
length-index_nodes m [] = omega arith
length-index_nodes m (n ∷ ns) =
    omega (arith, length-index_nodes (put n.id n m) ns, length-put-le n.id n m)

pub length-unique_nodes : (ns : List GraphNode) → length (unique_nodes ns) ≤ length ns
length-unique_nodes ns = omega (
  arith,
  length-index_nodes [] ns,
  length-map (λ (e : String × GraphNode). e.1) (index_nodes [] ns),
)

length-place : (columns k : ℕ) (ns : List GraphNode) → length (place columns k ns) ≡ length ns
unfolding place
length-place columns k [] = refl
length-place columns k (n ∷ ns) = ap suc (length-place columns (suc k) ns)

module _ (collation : Collation) where
  length-fallback_layout : (ns : List GraphNode) → length (fallback_layout collation ns) ≡ length ns
  unfolding fallback_layout
  length-fallback_layout ns = length-place _ 0 _ ∙ length-sort (by_time_and_id collation) ns

  Distinct-fallback_layout :
      (ns : List GraphNode)
      → Distinct (map (λ n. n.id) ns)
      → Distinct (map (λ n. n.id) (fallback_layout collation ns))
  unfolding fallback_layout
  Distinct-fallback_layout ns d =
      rw (ids-place collation _ 0 (sort (by_time_and_id collation) ns))
        (Distinct-sort (λ n. n.id) (by_time_and_id collation) ns d)

  -- A layout keeps the number of nodes, and distinct ids distinct.
  pub layout_dag-Distinct :
      (dagre : List GraphNode → List GraphEdge → Option (String → Option (Num × Num)))
      (ns : List GraphNode) (es : List GraphEdge)
      → Distinct (map (λ n. n.id) ns)
      → (length (layout_dag collation dagre ns es) ≡ length ns)
        × Distinct (map (λ n. n.id) (layout_dag collation dagre ns es))
  unfolding layout_dag
  layout_dag-Distinct dagre ns es d = elim (Option-cases (dagre ns es)) [
    | inl threw ↦ rw (threw, layout_dag) (length-fallback_layout ns, Distinct-fallback_layout ns d)
    | inr (position, laid) ↦
        rw (laid, layout_dag)
          (if_both
            (λ (ms : List GraphNode). (length ms ≡ length ns) × Distinct (map (λ n. n.id) ms))
            (all_finite (map (move_to position) ns)) _ _
            (λ fine. (length-map (move_to position) ns, rw (ids-move_to collation position ns) d))
            (λ _. (length-fallback_layout ns, Distinct-fallback_layout ns d)))
  ]

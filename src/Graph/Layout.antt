-- ===== src/Graph/Layout.antt =====
-- The grid of `fallbackLayout` keeps nodes apart.
use native.Mathlib.Nat.{div-add-mod, mod-lt}
use kprobe.Base.{
  ℕ, zero, suc, ◌+◌, ◌≤◌, ◌<◌, ◌≡◌, refl, ◌⊎◌, inl, inr, String, List, [], ◌∷◌, arith, get_elem?,
  length, sort, Memᴰ, Memᴰ-map-sort, map, Option, Option-cases, some, true, if_both, ◌↔◌,
}
use kprobe.Json.{Num, pos, is_finite}
use kprobe.Graph.{
  GraphNode, Collation, columns_of, cell_x, cell_y, place, by_time_and_id, fallback_layout, node_w,
  GraphEdge, layout_dag, all_finite, move_to, node_h,
}

-- The boxes of two nodes, of the width and height drawn, are at least 90 units apart on one axis.
pub record Apart (a b : GraphNode) : Type 0 where
  pub ax : ℕ
  pub ay : ℕ
  pub bx : ℕ
  pub by : ℕ
  pub a_at : (a.x ≡ pos ax) × (a.y ≡ pos ay)
  pub b_at : (b.x ≡ pos bx) × (b.y ≡ pos by)
  pub gap : (ax + node_w + 90 ≤ bx) ⊎ (bx + node_w + 90 ≤ ax) ⊎ (ay + node_h + 90 ≤ by)

place_at :
    (columns k i : ℕ) (ns : List GraphNode) (n : GraphNode)
    → get_elem? (place columns k ns) i ≡ some n
    → (n.x ≡ pos (cell_x columns (k + i))) × (n.y ≡ pos (cell_y columns (k + i)))
unfolding place
place_at columns k i [] n h = absurd (cc h)
place_at columns k zero (m ∷ ns) n h = let e : k + 0 ≡ k = omega arith in rw e (ground arith)
place_at columns k (suc i) (m ∷ ns) n h =
    let e : k + suc i ≡ suc k + i = omega arith in rw e (place_at columns (suc k) i ns n h)

cells_apart :
    (c i j : ℕ)
    → 0 < c
    → i < j
    → (cell_x c i + node_w + 90 ≤ cell_x c j)
      ⊎ (cell_x c j + node_w + 90 ≤ cell_x c i)
      ⊎ (cell_y c i + node_h + 90 ≤ cell_y c j)
cells_apart c i j p h = grind (arith, div-add-mod, mod-lt)

columns_pos : (n : ℕ) → 0 < columns_of n
unfolding columns_of
columns_pos n = omega arith

module _ (collation : Collation) where
  -- Any two nodes that the fallback layout places, in whatever order their times and ids put them,
  -- stand in boxes that are at least 90 units apart on one of the axes.
  pub fallback_layout-Apart :
      (nodes : List GraphNode) (i j : ℕ) (a b : GraphNode)
      → i < j
      → get_elem? (fallback_layout collation nodes) i ≡ some a
      → get_elem? (fallback_layout collation nodes) j ≡ some b
      → Apart a b
  unfolding fallback_layout
  fallback_layout-Apart nodes i j a b h p q =
      let ordered = sort (by_time_and_id collation) nodes in
      let columns = columns_of (length ordered) in
      record {
        ax = cell_x columns (0 + i);
        ay = cell_y columns (0 + i);
        bx = cell_x columns (0 + j);
        by = cell_y columns (0 + j);
        a_at = place_at columns 0 i ordered a p;
        b_at = place_at columns 0 j ordered b q;
        gap = cells_apart columns (0 + i) (0 + j) (columns_pos (length ordered)) (omega arith);
      }

  all_finite-place : (columns k : ℕ) (ns : List GraphNode) → all_finite (place columns k ns) ≡ true
  unfolding place is_finite
  all_finite-place columns k [] = refl
  all_finite-place columns k (n ∷ ns) = all_finite-place columns (suc k) ns

  pub ids-place :
      (columns k : ℕ) (ns : List GraphNode)
      → map (λ n. n.id) (place columns k ns) ≡ map (λ n. n.id) ns
  unfolding place
  ids-place columns k [] = refl
  ids-place columns k (n ∷ ns) = rw (ids-place columns (suc k) ns) refl

  pub ids-move_to :
      (position : String → Option (Num × Num)) (ns : List GraphNode)
      → map (λ n. n.id) (map (move_to position) ns) ≡ map (λ n. n.id) ns
  ids-move_to position [] = refl
  ids-move_to position (n ∷ ns) = ground (arith, ids-move_to position ns)

  fallback_ids :
      (nodes : List GraphNode) (j : String)
      → Memᴰ j (map (λ n. n.id) (fallback_layout collation nodes)) ↔ Memᴰ j (map (λ n. n.id) nodes)
  unfolding fallback_layout
  fallback_ids nodes j =
      rw (ids-place _ 0 (sort (by_time_and_id collation) nodes))
        (Memᴰ-map-sort (λ n. n.id) (by_time_and_id collation) j nodes)

  fallback_finite : (nodes : List GraphNode) → all_finite (fallback_layout collation nodes) ≡ true
  unfolding fallback_layout
  fallback_finite nodes = all_finite-place _ 0 _

  -- Whatever dagre does (throw, leave nodes out, give positions that are no numbers), the layout has
  -- finite coordinates throughout and the ids of the nodes given, no more and no fewer.
  pub layout_dag_total :
      (dagre : List GraphNode → List GraphEdge → Option (String → Option (Num × Num)))
      (nodes : List GraphNode) (edges : List GraphEdge)
      → (all_finite (layout_dag collation dagre nodes edges) ≡ true)
        × ((j : String)
            → Memᴰ j (map (λ n. n.id) (layout_dag collation dagre nodes edges))
              ↔ Memᴰ j (map (λ n. n.id) nodes))
  unfolding layout_dag
  layout_dag_total dagre nodes edges = elim (Option-cases (dagre nodes edges)) [
    | inl threw ↦ rw (threw, layout_dag) (fallback_finite nodes, fallback_ids nodes)
    | inr (position, laid) ↦
        rw (laid, layout_dag)
          (if_both
            (λ ns.
              (all_finite ns ≡ true)
              × ((j : String) → Memᴰ j (map (λ n. n.id) ns) ↔ Memᴰ j (map (λ n. n.id) nodes)))
            (all_finite (map (move_to position) nodes)) _ _
            (λ fine. (fine, λ j. rw (ids-move_to position nodes) (λ m. m, λ m. m)))
            (λ _. (fallback_finite nodes, fallback_ids nodes)))
  ]

-- ===== src/Graph.antt =====
-- The causal graph of console/src/pages/Graph.tsx: classification of events, inference of edges,
-- the sanitiser, the layouts and the ids on the paths through a node.
-- `localeCompare` is the argument `Collation`, and `dagre.layout` an argument of `layout_dag`.
pub mod Inference
pub mod Edges
pub mod Pairs
pub mod Sanitize
pub mod Chains
pub mod Acyclic
pub mod Search
pub mod Paths
pub mod Layout
pub mod Sizes
pub mod Origin
pub mod Samples
mod Tests
unfoldable pub use Inference.*
use kprobe.Base.{
  ℕ, zero, suc, ◌+◌, ◌-◌, ◌*◌, ◌/◌, ◌%◌, ◌≤◌, String, Bool, true, false, not, ◌&&◌, ◌||◌, Option,
  none, some, List, [], ◌∷◌, ◌++◌, map, ltb, leb, nat_eq, if◌then◌else◌, ◌==◌, Key, string_key, any,
  sort, put, lookup, values, length, contains, add, add_all, max,
}
use kprobe.Json.{Num, pos, template, num_eq, is_finite}
use kprobe.Event.{EventType, page_fault, sched_switch, KernelEvent, type_key, is_slow}

abbrev pub index_nodes : List (String × GraphNode) → List GraphNode → List (String × GraphNode)
index_nodes m [] = m
index_nodes m (n ∷ ns) = index_nodes (put n.id n m) ns

abbrev pub unique_nodes : List GraphNode → List GraphNode
unique_nodes nodes = values (index_nodes [] nodes)

-- `Math.ceil(Math.sqrt(n))`: the least `k` from the one given on whose square is not below `n`.
abbrev pub ceil_sqrt_from : ℕ → ℕ → ℕ → ℕ
ceil_sqrt_from zero k n = k
ceil_sqrt_from (suc fuel) k n =
    let more = ceil_sqrt_from fuel (suc k) n in if leb n (k * k) then k else more

unfoldable pub columns_of : ℕ → ℕ
columns_of n = max 1 (ceil_sqrt_from n 0 n)

abbrev pub cell_x : ℕ → ℕ → ℕ
cell_x columns index = 90 + index % columns * (node_w + 90)

abbrev pub cell_y : ℕ → ℕ → ℕ
cell_y columns index = 70 + index / columns * (node_h + 90)

unfoldable pub place : ℕ → ℕ → List GraphNode → List GraphNode
place columns index [] = []
place columns index (n ∷ ns) =
    record n { x = pos (cell_x columns index); y = pos (cell_y columns index) }
    ∷ place columns (suc index) ns

abbrev pub all_finite : List GraphNode → Bool
all_finite [] = true
all_finite (n ∷ ns) = is_finite n.x && is_finite n.y && all_finite ns

abbrev pub move_to : (String → Option (Num × Num)) → GraphNode → GraphNode
move_to position n = elim (position n.id) [ none ↦ n | some p ↦ record n { x = p.0; y = p.1 } ]

-- `a.localeCompare(b) < 0`, a strict order.
pub record Collation : Type 0 where
  pub before : String → String → Bool

module _ (collation : Collation) where
  open collation use {before}

  abbrev pub points_forward : GraphNode → GraphNode → Bool
  points_forward src tgt =
      ltb src.event.timestamp_ns tgt.event.timestamp_ns
      || (nat_eq src.event.timestamp_ns tgt.event.timestamp_ns && before src.id tgt.id)

  abbrev pub keep_edge :
      GraphNode → GraphNode → GraphEdge → List (String × GraphEdge) → List (String × GraphEdge)
  keep_edge source target edge kept =
      if source.id == target.id
      then kept
      else if points_forward source target
      then elim (lookup (arrow source.id target.id) kept) [
        | some _ ↦ kept
        | none ↦
            put (arrow source.id target.id) (record edge { id = arrow source.id target.id }) kept
      ]
      else kept

  -- One round of the loop over the edges.
  unfoldable pub admit :
      List (String × GraphNode) → GraphEdge → List (String × GraphEdge) → List (String × GraphEdge)
  admit by_id edge kept = elim (lookup edge.source_id by_id) [
    | none ↦ kept
    | some source ↦ elim (lookup edge.target_id by_id) [
      | none ↦ kept
      | some target ↦ keep_edge source target edge kept
    ]
  ]

  unfoldable pub admit_all :
      List (String × GraphNode)
      → List GraphEdge
      → List (String × GraphEdge)
      → List (String × GraphEdge)
  unfolding admit
  admit_all by_id [] kept = kept
  admit_all by_id (e ∷ es) kept = admit_all by_id es (admit by_id e kept)

  unfoldable pub sanitize_graph : List GraphNode → List GraphEdge → List GraphNode × List GraphEdge
  unfolding admit_all
  sanitize_graph nodes edges =
      (unique_nodes nodes, values (admit_all (index_nodes [] (unique_nodes nodes)) edges []))

  -- The comparator of `fallbackLayout`: by time, and by id at one time.
  abbrev pub by_time_and_id : GraphNode → GraphNode → Bool
  by_time_and_id a b =
      if nat_eq a.event.timestamp_ns b.event.timestamp_ns
      then not (before b.id a.id)
      else ltb a.event.timestamp_ns b.event.timestamp_ns

  unfoldable pub fallback_layout : List GraphNode → List GraphNode
  unfolding place columns_of
  fallback_layout nodes =
      let sorted = sort by_time_and_id nodes in place (columns_of (length sorted)) 0 sorted

  -- `none` of `dagre` is an exception; else it gives the position of a node, if it has one.
  unfoldable pub layout_dag :
      (List GraphNode → List GraphEdge → Option (String → Option (Num × Num)))
      → List GraphNode
      → List GraphEdge
      → List GraphNode
  unfolding fallback_layout
  layout_dag dagre nodes edges = elim (dagre nodes edges) [
    | none ↦ fallback_layout nodes
    | some position ↦
        if all_finite (map (move_to position) nodes)
        then map (move_to position) nodes
        else fallback_layout nodes
  ]

-- One direction of `getPathIds`: from the end that an edge has at the current node, on to the other.
module _ (near far : GraphEdge → String) where
  abbrev pub visit : String → GraphEdge → List String × List String → List String × List String
  visit cur e s =
      if near e == cur && not (contains s.0 (far e))
      then (add s.0 (far e), s.1 ++ far e ∷ [])
      else s

  unfoldable pub visit_all :
      String → List GraphEdge → List String × List String → List String × List String
  visit_all cur [] s = s
  visit_all cur (e ∷ es) s = visit_all cur es (visit cur e s)

  -- The `while` loop over the queue; `none` is a queue that is not empty when the fuel is.
  unfoldable pub walk_queue : ℕ → List GraphEdge → List String × List String → Option (List String)
  unfolding visit_all
  walk_queue zero edges (found, []) = some found
  walk_queue zero edges (found, cur ∷ queue) = none
  walk_queue (suc fuel) edges (found, []) = some found
  walk_queue (suc fuel) edges (found, cur ∷ queue) =
      walk_queue fuel edges (visit_all cur edges (found, queue))

abbrev pub ancestors_of : String → List GraphEdge → Option (List String)
ancestors_of node edges =
    walk_queue (λ e. e.target_id) (λ e. e.source_id) (suc (length edges)) edges ([], node ∷ [])

abbrev pub descendants_of : String → List GraphEdge → Option (List String)
descendants_of node edges =
    walk_queue (λ e. e.source_id) (λ e. e.target_id) (suc (length edges)) edges ([], node ∷ [])

unfoldable pub get_path_ids : String → List GraphEdge → Option (List String)
unfolding walk_queue
get_path_ids node edges = elim (ancestors_of node edges) [
  | none ↦ none
  | some ancestors ↦ elim (descendants_of node edges) [
    | none ↦ none
    | some descendants ↦ some (add_all [] (ancestors ++ (node ∷ descendants)))
  ]
]

-- ===== src/Graph/Tests.antt =====
-- A small graph, and the laws at it.
use kprobe.Base.{
  All, Distinct, ◌⊎◌, ℕ, ◌≡◌, refl, ◌↔◌, String, true, some, List, [], ◌∷◌, map, Memᴰ, arith, sort,
  insert, put, lookup, add, add_all,
}
use kprobe.Json.{pos, nan}
use kprobe.Event.{sys_read}
use kprobe.Graph.{
  GraphNode, GraphEdge, application, normal, linked, infer_edges, has_edge, edge_of, sanitize_graph,
  get_path_ids, fallback_layout, layout_dag, all_finite,
}
use kprobe.Graph.Samples.{event_at, flat, flat-IsStrict}
use kprobe.Graph.Edges.{MayCause, infer_edges_complete}
use kprobe.Graph.Acyclic.{sanitize_graph_acyclic}
use kprobe.Graph.Chains.{Walk}
use kprobe.Graph.Paths.{get_path_ids_lem}
use kprobe.Graph.Sanitize.{RunsForward, sanitize_graph_sound}
use kprobe.Graph.Layout.{Apart, fallback_layout-Apart, layout_dag_total}

abbrev node_at : String → ℕ → GraphNode
node_at id ts = record {
  id = id;
  event = event_at id sys_read ts;
  layer = application;
  severity = normal;
  x = pos 0;
  y = pos 0;
}

abbrev nodes : List GraphNode
nodes = node_at "b" 2_000 ∷ node_at "a" 1_000 ∷ node_at "c" 9_000_000 ∷ []

abbrev edge : GraphEdge
edge = edge_of (node_at "a" 1_000) (node_at "b" 2_000)

infers_one : infer_edges nodes ≡ edge ∷ []
unfolding infer_edges sort insert linked
infers_one = refl

a-MayCause_b : MayCause (node_at "a" 1_000) (node_at "b" 2_000)
a-MayCause_b = record {
  not_later = omega arith;
  close = omega arith;
  related = unfold linked in refl;
}

infer_edges_complete_example : has_edge (infer_edges nodes) "a" "b" ≡ true
infer_edges_complete_example =
    infer_edges_complete nodes (node_at "a" 1_000) (node_at "b" 2_000) (Memᴰ.tail (Memᴰ.head refl))
      (Memᴰ.head refl) (omega arith) a-MayCause_b

-- The two edges of a cycle, of which one runs backward in time.
abbrev cycle : List GraphEdge
cycle = edge ∷ edge_of (node_at "b" 2_000) (node_at "a" 1_000) ∷ []

keeps_forward : (sanitize_graph flat nodes cycle).1 ≡ edge ∷ []
unfolding sanitize_graph put lookup
keeps_forward = refl

sanitize_graph_acyclic_example : ¬ Walk (sanitize_graph flat nodes cycle).1 "a" "a"
sanitize_graph_acyclic_example = sanitize_graph_acyclic flat flat-IsStrict nodes cycle "a"

sanitize_graph_sound_example :
    let (nodes', edges') = sanitize_graph flat nodes cycle in
    Distinct (map (λ n. n.id) nodes')
    × Distinct (map (λ e. e.id) edges')
    × All (RunsForward flat nodes') edges'
sanitize_graph_sound_example = sanitize_graph_sound flat nodes cycle

finds_both : get_path_ids "b" (edge ∷ []) ≡ some ("a" ∷ "b" ∷ [])
unfolding get_path_ids add add_all
finds_both = refl

get_path_ids_lem_example :
    (ids : List String) × (get_path_ids "b" (edge ∷ []) ≡ some ids)
    × ((x : String) → Memᴰ x ids ↔ (Walk (edge ∷ []) x "b" ⊎ (x ≡ "b") ⊎ Walk (edge ∷ []) "b" x))
get_path_ids_lem_example = get_path_ids_lem "b" (edge ∷ [])

abbrev placed_a : GraphNode
placed_a = record (node_at "a" 1_000) { x = pos 90; y = pos 70 }

abbrev placed_c : GraphNode
placed_c = record (node_at "c" 9_000_000) { x = pos 90; y = pos 212 }

fallback_layout-Apart_example : Apart placed_a placed_c
unfolding fallback_layout sort insert
fallback_layout-Apart_example =
    fallback_layout-Apart flat nodes 0 2 placed_a placed_c (omega arith) refl refl

layout_dag_total_example :
    (all_finite (layout_dag flat (λ ns es. some (λ id. some (nan, pos 3))) nodes []) ≡ true)
    × ((j : String)
        → Memᴰ j
            (map (λ n. n.id) (layout_dag flat (λ ns es. some (λ id. some (nan, pos 3))) nodes []))
          ↔ Memᴰ j (map (λ n. n.id) nodes))
layout_dag_total_example = layout_dag_total flat (λ ns es. some (λ id. some (nan, pos 3))) nodes []

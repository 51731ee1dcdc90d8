-- ===== src/GraphPage/Highlight.antt =====
-- What holds of the lines and boxes that `renderGraph` of console/src/pages/Graph.tsx shows.
use kprobe.Base.{
  String, Bool, true, false, not, ◌&&◌, none, some, List, string_key, contains, contains_iff, ◌≡◌,
  ◌↔◌, ◌⊎◌, refl,
}
use kprobe.Graph.{GraphNode, GraphEdge}
use kprobe.Graph.Chains.{Walk}
use kprobe.Graph.Paths.{get_path_ids_lem}
use kprobe.GraphPage.Drawing.{relevant_ids, draw_line, draw_box}

-- The node is on a path of edges through the other one.
abbrev pub IsLinked : List GraphEdge → String → String → Type 0
IsLinked edges node x = Walk edges x node ⊎ (x ≡ node) ⊎ Walk edges node x

contains-relevant_ids :
    (d : GraphNode) (edges : List GraphEdge) (x : String)
    → (contains (relevant_ids (some d) edges) x ≡ true) ↔ IsLinked edges d.id x
unfolding relevant_ids
contains-relevant_ids d edges x =
    let (found, e, linked) = get_path_ids_lem d.id edges in
    rw (e, relevant_ids)
      (
        λ h. (linked x).0 ((contains_iff x found).0 h),
        λ h. (contains_iff x found).1 ((linked x).1 h),
      )

-- While a node is selected, exactly the nodes on the paths of edges through it, itself included, are
-- drawn on the path and the others are dimmed; a line is on the path, with the amber arrow, exactly
-- if both its ends are, and dimmed otherwise; and the box of the selected node alone is marked.
pub render_graph-highlight :
    (nodes : List GraphNode) (edges : List GraphEdge) (d n : GraphNode) (e : GraphEdge)
    → let box = draw_box nodes edges (some d) n in
      let line = draw_line nodes edges (some d) e in
      ((box.on_path ≡ true) ↔ IsLinked edges d.id n.id)
      × (box.dimmed ≡ not box.on_path)
      × ((box.selected ≡ true) ↔ (d.id ≡ n.id))
      × ((line.on_path ≡ true)
          ↔ (IsLinked edges d.id e.source_id × IsLinked edges d.id e.target_id))
      × (line.dimmed ≡ not line.on_path)
      × (line.amber_arrow ≡ line.on_path)
unfolding draw_box draw_line
render_graph-highlight nodes edges d n e = (
  contains-relevant_ids d edges n.id,
  refl,
  string_key.same_iff d.id n.id,
  both-true (contains-relevant_ids d edges e.source_id) (contains-relevant_ids d edges e.target_id),
  refl,
  refl,
)
  where
    both-true :
        {P Q : Type 0} {a b : Bool} → (a ≡ true) ↔ P → (b ≡ true) ↔ Q → ((a && b) ≡ true) ↔ (P × Q)
    both-true {a = true} {b = b} p q = (λ h. (p.0 refl, q.0 h), λ h. q.1 h.1)
    both-true {a = false} {b = b} p q = (λ h. absurd (cc), λ h. p.1 h.0)

-- With nothing selected, nothing is dimmed, marked or on a path.
pub render_graph-plain :
    (nodes : List GraphNode) (edges : List GraphEdge) (n : GraphNode) (e : GraphEdge)
    → let box = draw_box nodes edges none n in
      let line = draw_line nodes edges none e in
      (box.on_path ≡ false)
      × (box.dimmed ≡ false)
      × (box.selected ≡ false)
      × (line.on_path ≡ false)
      × (line.dimmed ≡ false)
      × (line.amber_arrow ≡ false)
unfolding draw_box draw_line
render_graph-plain nodes edges n e = (refl, refl, refl, refl, refl, refl)

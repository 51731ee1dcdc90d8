-- ===== src/GraphPage/Drawing.antt =====
-- console/src/pages/Graph.tsx: what `renderGraph` makes d3 show, as data: a line for each edge and a
-- box for each node, with the classes, the colour and the place that it gives them. Where a line ends
-- short of its target, which takes a square root, and the texts of a box are not modelled.
use kprobe.Base.{
  String, Bool, true, false, not, ◌&&◌, Option, none, some, List, [], map, ◌==◌, string_key,
  contains, find,
}
use kprobe.Json.{Num, pos, lt_num}
use kprobe.Event.{EventType}
use kprobe.Graph.{GraphNode, GraphEdge, Severity, normal, elevated, critical, get_path_ids}

abbrev pub Point : Type 0
Point = Num × Num

pub record Line : Type 0 where
  pub id : String
  pub on_path : Bool
  pub dimmed : Bool
  pub dashed : Bool
  pub amber_arrow : Bool
  pub start : Point

pub data Fill : Type 0 where
  red : Fill
  accent : Fill
  type_color : EventType → Fill

pub record Box : Type 0 where
  pub id : String
  pub selected : Bool
  pub on_path : Bool
  pub dimmed : Bool
  pub fill : Fill
  pub center : Point

-- `relevantIds`: empty if nothing is selected.
unfoldable pub relevant_ids : Option GraphNode → List GraphEdge → List String
relevant_ids none edges = []
relevant_ids (some d) edges = elim (get_path_ids d.id edges) [ none ↦ [] | some found ↦ found ]

abbrev pub is_selected : Option GraphNode → Bool
is_selected none = false
is_selected (some d) = true

abbrev pub node_with : List GraphNode → String → Option GraphNode
node_with nodes i = find (λ n. n.id == i) nodes

abbrev pub place_of : GraphNode → Point
place_of n = (n.x, n.y)

abbrev origin : Point
origin = (pos 0, pos 0)

-- `nodes.find(...)?.x ?? 0`, and the same for y.
abbrev pub line_start : Option GraphNode → Point
line_start none = origin
line_start (some src) = place_of src

abbrev pub fill_of : Severity → EventType → Fill
fill_of critical t = red
fill_of elevated t = accent
fill_of normal t = type_color t

abbrev pub both_relevant : List String → GraphEdge → Bool
both_relevant relevant d = contains relevant d.source_id && contains relevant d.target_id

module _ (nodes : List GraphNode) (edges : List GraphEdge) (selected : Option GraphNode) where
  unfoldable pub draw_line : GraphEdge → Line
  unfolding relevant_ids
  draw_line d =
      let relevant = relevant_ids selected edges in
      record {
        id = d.id;
        on_path = is_selected selected && both_relevant relevant d;
        dimmed = is_selected selected && not (both_relevant relevant d);
        dashed = lt_num (pos 50_000_000) d.latency_ns;
        amber_arrow = is_selected selected && both_relevant relevant d;
        start = line_start (node_with nodes d.source_id);
      }

  unfoldable pub draw_box : GraphNode → Box
  unfolding relevant_ids
  draw_box d =
      let relevant = relevant_ids selected edges in
      record {
        id = d.id;
        selected = elim selected [ none ↦ false | some n ↦ n.id == d.id ];
        on_path = is_selected selected && contains relevant d.id;
        dimmed = is_selected selected && not (contains relevant d.id);
        fill = fill_of d.severity d.event.kind;
        center = place_of d;
      }

  unfoldable pub render_graph : List Line × List Box
  unfolding draw_line draw_box
  render_graph = (map draw_line edges, map draw_box nodes)

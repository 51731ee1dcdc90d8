-- ===== src/Graph/Inference.antt =====
-- console/src/pages/Graph.tsx: the nodes and edges of the graph, the classification of events, and the
-- inference of edges. A latency is held in nanoseconds, where the source divides by 1e6 for display.
use kprobe.Base.{
  ℕ, ◌-◌, String, Bool, true, false, not, ◌&&◌, ◌||◌, Option, none, some, List, [], ◌∷◌, ◌++◌, ltb,
  leb, if◌then◌else◌, ◌==◌, string_key, any, sort, contains,
}
use kprobe.Json.{Num, pos, template, num_eq}
use kprobe.Event.{EventType, page_fault, sched_switch, KernelEvent, type_key, is_slow}

pub data NodeLayer : Type 0 where
  domain kernel application : NodeLayer

pub data Severity : Type 0 where
  normal elevated critical : Severity

pub record GraphNode : Type 0 where
  pub id : String
  pub event : KernelEvent
  pub layer : NodeLayer
  pub severity : Severity
  pub x : Num
  pub y : Num

pub record GraphEdge : Type 0 where
  pub id : String
  pub source_id : String
  pub target_id : String
  pub source : String
  pub target : String
  pub latency_ns : Num  -- `latencyMs` times 1e6
  pub cause_type : Option String

abbrev pub kernel_types : List EventType
kernel_types = page_fault ∷ sched_switch ∷ []

abbrev pub domain_services : List String
domain_services = "api-worker" ∷ "checkout-service" ∷ "auth-service" ∷ "database-writer" ∷ []

abbrev pub max_nodes : ℕ
max_nodes = 40

abbrev pub node_w : ℕ
node_w = 140

abbrev pub node_h : ℕ
node_h = 52

abbrev pub causal_window_ns : ℕ
causal_window_ns = 5_000_000

unfoldable pub get_layer : KernelEvent → NodeLayer
get_layer evt =
    if contains kernel_types evt.kind
    then kernel
    else if contains domain_services evt.service
    then domain
    else application

abbrev severity_of : Option ℕ → Severity
severity_of none = normal
severity_of (some us) =
    if ltb 800_000 us then critical else if ltb 200_000 us then elevated else normal

unfoldable pub get_severity : KernelEvent → Severity
get_severity evt = severity_of evt.duration_us

abbrev over_200ms : Option ℕ → Bool
over_200ms none = false
over_200ms (some us) = ltb 200_000 us

unfoldable pub should_promote : KernelEvent → Bool
should_promote evt =
    if contains kernel_types evt.kind
    then true
    else if is_slow evt.duration_us
    then true
    else if contains domain_services evt.service && over_200ms evt.duration_us
    then true
    else true

abbrev is_kernel : NodeLayer → Bool
is_kernel kernel = true
is_kernel _ = false

abbrev is_domain : NodeLayer → Bool
is_domain domain = true
is_domain _ = false

abbrev is_application : NodeLayer → Bool
is_application application = true
is_application _ = false

unfoldable pub linked : GraphNode → GraphNode → Bool
linked src tgt =
    src.event.service == tgt.event.service
    || (num_eq src.event.pid tgt.event.pid
        || ((is_kernel src.layer && not (is_kernel tgt.layer))
            || (is_application src.layer && is_domain tgt.layer)))

abbrev pub arrow : String → String → String
arrow a b = template (a ∷ "->" ∷ b ∷ [])

-- The edge that `inferEdges` pushes; `dt` is exact, since the nodes are sorted by time.
abbrev pub edge_of : GraphNode → GraphNode → GraphEdge
edge_of src tgt = record {
  id = arrow src.id tgt.id;
  source_id = src.id;
  target_id = tgt.id;
  source = src.id;
  target = tgt.id;
  latency_ns = pos (tgt.event.timestamp_ns - src.event.timestamp_ns);
  cause_type = none;
}

abbrev pub has_edge : List GraphEdge → String → String → Bool
has_edge edges a b = any (λ e. e.source_id == a && e.target_id == b) edges

abbrev pub offer : GraphNode → GraphNode → List GraphEdge → List GraphEdge
offer src tgt edges =
    if linked src tgt && not (has_edge edges src.id tgt.id)
    then edges ++ edge_of src tgt ∷ []
    else edges

-- The inner loop, which ends at the first target beyond the window.
unfoldable pub scan_targets : GraphNode → List GraphNode → List GraphEdge → List GraphEdge
scan_targets src [] edges = edges
scan_targets src (tgt ∷ rest) edges =
    let later = scan_targets src rest (offer src tgt edges) in
    if ltb causal_window_ns (tgt.event.timestamp_ns - src.event.timestamp_ns) then edges else later

unfoldable pub scan_sources : List GraphNode → List GraphEdge → List GraphEdge
unfolding scan_targets
scan_sources [] edges = edges
scan_sources (src ∷ rest) edges = scan_sources rest (scan_targets src rest edges)

abbrev pub by_time : GraphNode → GraphNode → Bool
by_time a b = leb a.event.timestamp_ns b.event.timestamp_ns

unfoldable pub infer_edges : List GraphNode → List GraphEdge
unfolding scan_sources
infer_edges nodes = scan_sources (sort by_time nodes) []

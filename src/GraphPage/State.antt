-- ===== src/GraphPage/State.antt =====
-- console/src/pages/Graph.tsx: the state of the graph page, and the changes of it that need no argument.
use kprobe.Base.{
  ℕ, ◌-◌, String, Bool, false, ◌&&◌, ◌||◌, Option, none, some, List, [], ◌∷◌, ◌++◌, map, ltb,
  if◌then◌else◌, ◌==◌, string_key, length, drop, filter, find, contains, lookup,
}
use kprobe.Json.{pos}
use kprobe.Event.{KernelEvent, ConnectionStatus, connecting}
use kprobe.Connection.{ConnectionMessage}
use kprobe.Causal.{CausalEdge}
use kprobe.Debug.{DebugSummary, nominal}
use kprobe.Graph.{GraphNode, GraphEdge, max_nodes, get_layer, get_severity}

pub data ChainStatus : Type 0 where
  live loading api error : ChainStatus

pub record ChainState : Type 0 where
  pub transaction_id : String
  pub status : ChainStatus

abbrev pub empty_summary : DebugSummary
empty_summary = record {
  status = nominal;
  title = "Awaiting evidence";
  primary_cause = "unknown";
  impact = "No events have been promoted into the graph yet.";
  evidence = [];
  next_step = "Generate a transaction or keep the probe running until related events appear.";
  slowest_event = none;
  transaction_id = "";
  services = [];
  pids = [];
}

pub record GraphPage : Type 0 where
  pub nodes : List GraphNode
  pub edges : List GraphEdge
  pub selected : Option GraphNode
  pub node_count : ℕ
  pub edge_count : ℕ
  pub summary : DebugSummary
  pub chain : ChainState
  pub paused : Bool
  pub status : ConnectionStatus
  pub messages : List ConnectionMessage
  pub processed : ℕ  -- `processedMessageRef`
  pub requested : String  -- `requestedTransactionRef`
  pub timer : Option String  -- a timer of `fetchTimerRef` that has not fired, with its transaction
  pub fetching : List String

abbrev pub initial : GraphPage
initial = record {
  nodes = [];
  edges = [];
  selected = none;
  node_count = 0;
  edge_count = 0;
  summary = empty_summary;
  chain = record { transaction_id = ""; status = live };
  paused = false;
  status = connecting;
  messages = [];
  processed = 0;
  requested = "";
  timer = none;
  fetching = [];
}

-- The node that is made of an event.
abbrev pub node_of : KernelEvent → GraphNode
node_of evt = record {
  id = evt.id;
  event = evt;
  layer = get_layer evt;
  severity = get_severity evt;
  x = pos 0;
  y = pos 0;
}

abbrev pub newest : List GraphNode → List GraphNode
newest nodes = if ltb max_nodes (length nodes) then drop (length nodes - max_nodes) nodes else nodes

abbrev pub edge_of_cause : CausalEdge → GraphEdge
edge_of_cause edge = record {
  id = edge.id;
  source_id = edge.from_event_id;
  target_id = edge.to_event_id;
  source = edge.from_event_id;
  target = edge.to_event_id;
  latency_ns = edge.latency_ns;
  cause_type = some edge.cause_type;
}

-- The edges of a chain between nodes that are shown.
abbrev pub edges_between : List GraphNode → List CausalEdge → List GraphEdge
edges_between nodes edges =
    let ids = map (λ n. n.id) nodes in
    map edge_of_cause
      (filter (λ e. contains ids e.from_event_id && contains ids e.to_event_id) edges)

unfoldable pub load_causal_chain : String → GraphPage → GraphPage
load_causal_chain transaction s =
    if transaction == "" || s.requested == transaction then s else record s {
      requested = transaction;
      chain = record { transaction_id = transaction; status = loading };
      timer = some transaction;
    }

unfoldable pub fire_timer : GraphPage → GraphPage
fire_timer s = elim s.timer [
  | none ↦ s
  | some transaction ↦ record s { timer = none; fetching = s.fetching ++ transaction ∷ [] }
]

unfoldable pub clear_graph : GraphPage → GraphPage
clear_graph s = record s {
  nodes = [];
  edges = [];
  requested = "";
  chain = record { transaction_id = ""; status = live };
  summary = empty_summary;
  selected = none;
  node_count = 0;
  edge_count = 0;
}

-- A click on a node that is drawn.
abbrev pub click_node : GraphNode → GraphPage → GraphPage
click_node d s = elim s.selected [
  | none ↦ record s { selected = some d }
  | some prev ↦
      if prev.id == d.id then record s { selected = none } else record s { selected = some d }
]

-- The selected node stays selected while a node with its id is left.
abbrev pub still_selected : List GraphNode → Option GraphNode → Option GraphNode
still_selected nodes none = none
still_selected nodes (some sel) = elim (find (λ n. n.id == sel.id) nodes) [
  | none ↦ none
  | some n ↦ some sel
]

-- `selected ?? …`
abbrev pub next_selected : List GraphNode → Option GraphNode → Option GraphNode → Option GraphNode
next_selected nodes (some node) sel = some node
next_selected nodes none sel = still_selected nodes sel

abbrev pub transaction_of : KernelEvent → String
transaction_of e = elim (lookup "transaction_id" e.meta) [ none ↦ "" | some t ↦ t ]

abbrev pub drop_first : String → List String → List String
drop_first t [] = []
drop_first t (u ∷ us) = let rest = drop_first t us in if u == t then us else u ∷ rest

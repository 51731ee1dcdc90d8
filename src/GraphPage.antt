-- ===== src/GraphPage.antt =====
-- console/src/pages/Graph.tsx: the state of the graph page, its refs and what the connection gives
-- it; `step` is one callback. The store of the nodes and the edges are the refs; `fetching` holds the
-- transactions of the requests that have no reply yet, since no request is ever aborted.
pub mod State
pub mod Invariant
pub mod Requests
pub mod Race
pub mod Drawing
pub mod Highlight
mod Tests
unfoldable pub use State.*
use kprobe.Base.{
  ℕ, zero, suc, ◌+◌, ◌-◌, String, Bool, true, false, not, ◌&&◌, ◌||◌, Option, none, some, List, [],
  ◌∷◌, ◌++◌, map, ltb, nat_eq, if◌then◌else◌, ◌==◌, string_key, length, drop, filter, find,
  contains, slice_last, lookup, Key,
}
use kprobe.Json.{Codec, Num, pos, Numerals}
use kprobe.Event.{KernelEvent, ConnectionStatus, connecting, mock}
use kprobe.Wire.{Env}
use kprobe.Connection.{ConnectionMessage, Reply}
use kprobe.Feed.{decode, is_new}
use kprobe.Causal.{Chain, CausalEdge, fetch_causal_chain}
use kprobe.Debug.{DebugEdge, DebugSummary, nominal, analyze_debug_graph}
use kprobe.Graph.{
  GraphNode, GraphEdge, Collation, max_nodes, get_layer, get_severity, should_promote, infer_edges,
  sanitize_graph, layout_dag,
}

pub data Action : Type 0 where
  arrived : List ConnectionMessage → Action
  status_changed : ConnectionStatus → Action
  ticked : KernelEvent → Action
  pause_toggled deselected timer_fired cleared unmounted : Action
  clicked : GraphNode → Action
  replied : String → Reply → Action

-- What the page is given: the codec of JSON with the clock, the order of texts, the layout of dagre
-- and the case conversion.
pub record Setting : Type 0 where
  pub codec : Codec
  pub env : Env
  pub collation : Collation
  pub dagre : List GraphNode → List GraphEdge → Option (String → Option (Num × Num))
  pub lower : String → String

module _ (setting : Setting) where
  open setting use {codec, env, collation, dagre, lower}

  abbrev pub debug_edge : GraphEdge → DebugEdge
  debug_edge e = record {
    source_id = e.source_id;
    target_id = e.target_id;
    latency_ns = e.latency_ns;
    cause_type = e.cause_type;
  }

  -- `layoutDAG` of the nodes and edges of a sanitised graph.
  abbrev pub laid_out : List GraphNode × List GraphEdge → List GraphNode
  laid_out safe = layout_dag collation dagre safe.0 safe.1

  abbrev pub show : List GraphNode → List GraphEdge → Option GraphNode → GraphPage → GraphPage
  show laid edges chosen s = record s {
    nodes = laid;
    edges = edges;
    node_count = length laid;
    edge_count = length edges;
    summary =
        analyze_debug_graph codec.numerals lower (map (λ n. n.event) laid) (map debug_edge edges);
    selected = next_selected laid chosen s.selected;
  }

  unfoldable pub apply_graph :
      List GraphNode → List GraphEdge → Option GraphNode → GraphPage → GraphPage
  apply_graph nodes edges chosen s =
      let safe = sanitize_graph collation nodes edges in show (laid_out safe) safe.1 chosen s

  -- The reply to a request, in `then` and `catch`.
  unfoldable pub take_chain : String → Option Chain → GraphPage → GraphPage
  unfolding apply_graph
  take_chain transaction none s = record s {
    chain = record { transaction_id = transaction; status = error };
    requested = "";
  }
  take_chain transaction (some c) s =
      if ltb (length c.nodes) 2 || nat_eq (length c.edges) 0
      then record s {
        chain = record { transaction_id = transaction; status = live };
        requested = "";
      }
      else (let nodes = slice_last max_nodes (map node_of c.nodes) in
          record (apply_graph nodes (edges_between nodes c.edges) none s) {
            chain = record { transaction_id = transaction; status = api };
          })

  abbrev pub promote : KernelEvent → List GraphNode → List GraphNode
  promote evt nodes = if should_promote evt then nodes ++ node_of evt ∷ [] else nodes

  -- One round of the loop over the pending messages: the nodes, and the latest transaction.
  abbrev pub read_message : ConnectionMessage → List GraphNode × String → List GraphNode × String
  read_message m acc = elim (decode codec env m) [
    | none ↦ acc
    | some evt ↦
        (promote evt acc.0, (if transaction_of evt == "" then acc.1 else transaction_of evt))
  ]

  unfoldable pub read_all :
      List ConnectionMessage → List GraphNode × String → List GraphNode × String
  read_all [] acc = acc
  read_all (m ∷ ms) acc = read_all ms (read_message m acc)

  abbrev pub last_id : ℕ → List ConnectionMessage → ℕ
  last_id k [] = k
  last_id k (m ∷ ms) = last_id m.id ms

  abbrev pub pending : GraphPage → List ConnectionMessage
  pending s = filter (is_new codec env s.processed) s.messages

  abbrev pub merge : List GraphNode → GraphPage → GraphPage
  merge nodes s =
      if nat_eq (length nodes) (length s.nodes)
      then s
      else apply_graph (newest nodes) (infer_edges (newest nodes)) none s

  abbrev pub read_pending : GraphPage → List GraphNode × String
  read_pending s = read_all (pending s) (s.nodes, "")

  -- The messages are processed, and the chain of the latest transaction is requested.
  abbrev pub request : GraphPage → GraphPage
  request s =
      load_causal_chain (read_pending s).1
        (record s { processed = last_id s.processed (pending s) })

  -- The effect on the messages and on `paused`.
  unfoldable pub drain : GraphPage → GraphPage
  unfolding read_all load_causal_chain apply_graph
  drain s = if s.paused then s else merge (read_pending s).0 (request s)

  -- An event of `generateEvent` arrives by the interval that runs while the status is `mock`.
  unfoldable pub mock_tick : KernelEvent → GraphPage → GraphPage
  unfolding apply_graph
  mock_tick evt s = elim s.status [
    | mock ↦
        if s.paused || not (should_promote evt)
        then s
        else (let nodes = newest (s.nodes ++ node_of evt ∷ []) in
            apply_graph nodes (infer_edges nodes) none s)
    | _ ↦ s
  ]

  unfoldable pub step : Action → GraphPage → GraphPage
  unfolding drain mock_tick fire_timer clear_graph take_chain
  step (arrived ms) s = drain (record s { messages = ms })
  step (status_changed st) s = record s { status = st }
  step (ticked evt) s = mock_tick evt s
  step pause_toggled s = drain (record s { paused = not s.paused })
  step deselected s = record s { selected = none }
  step timer_fired s = fire_timer s
  step cleared s = clear_graph s
  step unmounted s = record s { timer = none }
  step (clicked d) s = click_node d s
  step (replied transaction reply) s =
      if contains s.fetching transaction
      then take_chain transaction (fetch_causal_chain env reply)
          (record s { fetching = drop_first transaction s.fetching })
      else s

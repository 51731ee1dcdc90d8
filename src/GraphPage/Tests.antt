-- ===== src/GraphPage/Tests.antt =====
-- Runs of the graph page on concrete messages and replies, and the theorems on it applied there.
use kprobe.Base.{
  sort, put, not, ◌↔◌, true, nat_eq, ap, ◌≡◌, refl, none, some, List, [], ◌∷◌, Memᴰ, arith, length,
  if◌then◌else◌, ◌==◌, string_key, lookup,
}
use Prim.{tt}
use kprobe.Json.{
  Value, field, end, obj, str, num, pos, first, prop, to_number, to_text, items, arr, cons, nil,
  Fields,
}
use kprobe.Json.Samples.{plain}
use kprobe.Event.{KernelEvent, mock, sys_read, sys_write, is_slow}
use kprobe.Wire.{map_wire_event, build_event, type_of_name, timing, round_us}
use kprobe.Feed.{decode}
use kprobe.Connection.{ConnectionMessage, Reply, answer}
use kprobe.Causal.{fetch_causal_chain, fetch_json, chain_nodes, chain_edges, edge_of_fields, Chain}
use kprobe.Graph.{infer_edges, layout_dag, linked, should_promote, GraphEdge, sanitize_graph}
use kprobe.Graph.Samples.{flat, flat-IsStrict, event_at}
use kprobe.GraphPage.{
  ticked, status_changed, mock_tick, replied, GraphPage, Setting, initial, node_of, drain, read_all,
  read_pending, step, arrived, deselected, api,
}
use kprobe.GraphPage.Invariant.{start, next, Sound, page-Sound}
use kprobe.GraphPage.Requests.{drain-api}
use kprobe.GraphPage.Race.{Overtaken, ask, step-replied}
use kprobe.GraphPage.Drawing.{draw_line, draw_box}
use kprobe.GraphPage.Highlight.{IsLinked, render_graph-highlight}

abbrev write : Value
write = obj (
    field "event_type" (str "sys_write") (
      field "transaction_id" (str "t1") (
        field "timestamp_ns" (num (pos 9_000_000))
          (field "duration_ns" (num (pos 900_000_000)) end))))

abbrev toy : Setting
toy = record {
  codec = record {
    numerals = plain;
    parse = λ s. if s == "w" then some write else none;
    stringify = λ v. "w";
  };
  env = record { numerals = plain; clock = λ ms. none; now_ms = 5 };
  collation = flat;
  dagre = λ ns es. none;
  lower = λ s. s;
}

abbrev news : List ConnectionMessage
news = record { id = 1; data_text = "w" } ∷ record { id = 2; data_text = "no JSON" } ∷ []

page-Sound_example : Sound (step toy deselected (step toy (arrived news) initial))
page-Sound_example =
    page-Sound toy flat-IsStrict (step toy deselected (step toy (arrived news) initial))
      (next deselected tt (next (arrived news) tt start))

abbrev call : Fields
call =
    field "event_type" (str "sys_read")
      (field "timestamp_ns" (num (pos 1_000)) (field "duration_ns" (num (pos 10)) end))

abbrev back : Fields
back =
    field "event_type" (str "sys_write")
      (field "timestamp_ns" (num (pos 2_000)) (field "duration_ns" (num (pos 10)) end))

abbrev caused : Fields
caused = field "causeType" (str "FORK") (field "latencyNs" (num (pos 1_000)) end)

abbrev reply : Reply
reply = answer true (
    some (
      obj (
        field "nodes" (arr (cons (obj call) (cons (obj back) nil)))
          (field "edges" (arr (cons (obj caused) nil)) end))))

abbrev chain : Chain
chain = record {
  nodes =
      build_event toy.env call 0 sys_read 1_000 10
      ∷ build_event toy.env back 1 sys_write 2_000 10
      ∷ [];
  edges = edge_of_fields toy.env 0 caused ∷ [];
}

is_chain : fetch_causal_chain toy.env reply ≡ some chain
unfolding fetch_causal_chain fetch_json chain_nodes chain_edges map_wire_event first prop to_number
    to_text type_of_name timing items
is_chain = refl

step-replied_example : Overtaken toy "t1" "t2" chain (
    step toy
      (replied "t1" reply)
      (step toy (replied "t2" reply) (ask toy "t2" (ask toy "t1" initial))))
step-replied_example =
    step-replied toy "t1" "t2" reply reply chain chain initial refl refl refl
      (is_chain, omega arith, omega arith) (is_chain, omega arith, omega arith)

abbrev shows_api : GraphPage
shows_api = record initial {
  messages = news;
  requested = "t1";
  chain = record { transaction_id = "t1"; status = api };
}

reads_latest : (read_pending toy shows_api).1 ≡ "t1"
unfolding read_all decode map_wire_event build_event first prop to_number to_text type_of_name
    timing lookup
reads_latest = refl

reads_one : length (read_pending toy shows_api).0 ≡ 1
unfolding read_all decode map_wire_event build_event first prop to_number to_text type_of_name
    timing should_promote is_slow round_us
reads_one = refl

drain-api_example :
    ((drain toy shows_api).chain ≡ record { transaction_id = "t1"; status = api })
    × ((e : GraphEdge) → Memᴰ e (drain toy shows_api).edges → e.cause_type ≡ none)
drain-api_example =
    drain-api toy shows_api "t1" refl refl refl reads_latest (ap (λ n. nat_eq n 0) reads_one)

-- Two events of one process, a microsecond apart.
abbrev first_event : KernelEvent
first_event = event_at "a" sys_read 1_000

abbrev second_event : KernelEvent
second_event = event_at "b" sys_write 2_000

abbrev two_ticks : GraphPage
two_ticks =
    step toy (ticked second_event)
      (step toy (ticked first_event) (step toy (status_changed mock) initial))

abbrev drawn_edge : GraphEdge
drawn_edge = record {
  id = "a->b";
  source_id = "a";
  target_id = "b";
  source = "a";
  target = "b";
  latency_ns = pos 1_000;
  cause_type = none;
}

is_drawn : two_ticks.edges ≡ drawn_edge ∷ []
unfolding step mock_tick should_promote is_slow sanitize_graph infer_edges sort layout_dag put
    linked lookup
is_drawn = refl

render_graph-highlight_example :
    let box =
      draw_box two_ticks.nodes two_ticks.edges
        (some (node_of first_event))
        (node_of second_event) in
    let line = draw_line two_ticks.nodes two_ticks.edges (some (node_of first_event)) drawn_edge in
    ((box.on_path ≡ true) ↔ IsLinked two_ticks.edges "a" "b")
    × (box.dimmed ≡ not box.on_path)
    × ((box.selected ≡ true) ↔ (first_event.id ≡ second_event.id))
    × ((line.on_path ≡ true)
        ↔ (IsLinked two_ticks.edges "a" "a" × IsLinked two_ticks.edges "a" "b"))
    × (line.dimmed ≡ not line.on_path)
    × (line.amber_arrow ≡ line.on_path)
render_graph-highlight_example =
    render_graph-highlight two_ticks.nodes two_ticks.edges (node_of first_event)
      (node_of second_event) drawn_edge

-- ===== src/Causal.antt =====
-- console/src/lib/api.ts: the request for the causal chain of a transaction. `none` is a rejection:
-- a request that fails, a status that is not ok, a body that is no JSON, or an exception on its parts.
use kprobe.Base.{ℕ, suc, String, true, false, Option, none, some, List, [], ◌∷◌}
use kprobe.Json.{
  Num, pos, Value, null, str, arr, obj, num, Fields, defined, prop, coalesce, items, to_text,
  to_number, template,
}
use kprobe.Event.{KernelEvent}
use kprobe.Wire.{Env, mapped, thrown, map_wire_event}
use kprobe.Connection.{Reply, offline, answer}

pub record CausalEdge : Type 0 where
  pub id : String
  pub from_event_id : String
  pub to_event_id : String
  pub cause_type : String
  pub latency_ns : Num
  pub transaction_id : String
  pub service_name : String

pub record Chain : Type 0 where
  pub nodes : List KernelEvent
  pub edges : List CausalEdge

-- `fetchJSON`
unfoldable pub fetch_json : Reply → Option Value
fetch_json offline = none
fetch_json (answer false body) = none
fetch_json (answer true body) = body

-- `data.k ?? []`, on which `map` is called.
abbrev pub list_at : String → Value → Option (List Value)
list_at k null = none
list_at k (obj fs) = elim (defined (prop k fs)) [
  | none ↦ some []
  | some (arr vs) ↦ some (items vs)
  | some _ ↦ none
]
list_at k _ = some []

-- The properties of an element; those of `null` throw.
abbrev pub fields_of : Value → Option Fields
fields_of null = none
fields_of (obj fs) = some fs
fields_of _ = some Fields.end

module _ (env : Env) where
  open env use {numerals}

  abbrev text_at : String → String → Fields → String
  text_at k d fs = to_text numerals (coalesce (prop k fs) (str d))

  unfoldable pub edge_of_fields : ℕ → Fields → CausalEdge
  edge_of_fields index fs = record {
    id = template (
        text_at "fromEventId" "from" fs
        ∷ "->"
        ∷ text_at "toEventId" "to" fs
        ∷ ":"
        ∷ to_text numerals (coalesce (prop "causeType" fs) (num (pos index)))
        ∷ []);
    from_event_id = text_at "fromEventId" "" fs;
    to_event_id = text_at "toEventId" "" fs;
    cause_type = text_at "causeType" "CAUSE" fs;
    latency_ns = to_number numerals (coalesce (prop "latencyNs" fs) (num (pos 0)));
    transaction_id = text_at "transactionId" "" fs;
    service_name = text_at "serviceName" "" fs;
  }

  abbrev pub event_of : Value → ℕ → Option KernelEvent
  event_of v index = elim (map_wire_event env v index) [ thrown x ↦ none | mapped e ↦ some e ]

  unfoldable pub chain_nodes : ℕ → List Value → Option (List KernelEvent)
  chain_nodes index [] = some []
  chain_nodes index (v ∷ vs) =
      let rest = chain_nodes (suc index) vs in
      elim (event_of v index) [
        | none ↦ none
        | some e ↦ elim rest [ none ↦ none | some es ↦ some (e ∷ es) ]
      ]

  unfoldable pub chain_edges : ℕ → List Value → Option (List CausalEdge)
  unfolding edge_of_fields
  chain_edges index [] = some []
  chain_edges index (v ∷ vs) =
      let rest = chain_edges (suc index) vs in
      elim (fields_of v) [
        | none ↦ none
        | some fs ↦ elim rest [ none ↦ none | some es ↦ some (edge_of_fields index fs ∷ es) ]
      ]

  abbrev pub chain_of : Value → Option Chain
  chain_of body = elim (list_at "nodes" body) [
    | none ↦ none
    | some ns ↦ elim (list_at "edges" body) [
      | none ↦ none
      | some es ↦ elim (chain_nodes 0 ns) [
        | none ↦ none
        | some events ↦ elim (chain_edges 0 es) [
          | none ↦ none
          | some edges ↦ some (record { nodes = events; edges = edges })
        ]
      ]
    ]
  ]

  unfoldable pub fetch_causal_chain : Reply → Option Chain
  unfolding fetch_json chain_nodes chain_edges
  fetch_causal_chain reply = elim (fetch_json reply) [ none ↦ none | some body ↦ chain_of body ]

-- ===== src/GraphPage/Requests.antt =====
-- The requests for causal chains, their replies, and what live events make of a chain that is shown.
use kprobe.Base.{
  ◌≡◌, refl, sym, ap, ◌∙◌, subst, String, true, false, Option, none, some, List, map, Memᴰ, arith,
  length, ltb, nat_eq, ◌||◌, ◌==◌, string_key, if◌then◌else◌, slice_last,
}
use Prim.{Unit}
use kprobe.Causal.{Chain}
use kprobe.Graph.{GraphNode, GraphEdge, infer_edges, sanitize_graph, max_nodes}
use kprobe.Graph.Edges.{infer_edges-Explained}
use kprobe.Graph.Origin.{sanitize_graph_origin}
use kprobe.GraphPage.{
  GraphPage, Setting, ChainStatus, live, loading, api, error, node_of, newest, edges_between,
  load_causal_chain, apply_graph, take_chain, read_pending, request, merge, drain, last_id, pending,
}
use kprobe.GraphPage.Invariant.{shown}

-- A reply that shows no chain: a rejection, or a chain of fewer than two nodes or without edges.
abbrev pub Unusable : Option Chain → Type 0
Unusable none = Unit
Unusable (some c) = (ltb (length c.nodes) 2 || nat_eq (length c.edges) 0) ≡ true

-- A request for `transaction` starts: the timer runs, and `after` shows what `s` does.
abbrev pub Starts : String → GraphPage → GraphPage → Type 0
Starts transaction s after =
    (shown after ≡ shown s)
    × (after.timer ≡ some transaction)
    × (after.requested ≡ transaction)
    × (after.chain ≡ record { transaction_id = transaction; status = loading })

load-Starts :
    (transaction : String) (s : GraphPage)
    → (transaction == "" || s.requested == transaction) ≡ false
    → Starts transaction s (load_causal_chain transaction s)
unfolding load_causal_chain
load-Starts transaction s h =
    subst (λ b. Starts transaction s (if b then s else new)) (sym h) (refl, refl, refl, refl)
  where
    new : GraphPage
    new = record s {
      requested = transaction;
      chain = record { transaction_id = transaction; status = loading };
      timer = some transaction;
    }

pub load_again :
    (transaction : String) (s : GraphPage)
    → (transaction == "" || s.requested == transaction) ≡ true
    → load_causal_chain transaction s ≡ s
unfolding load_causal_chain
load_again transaction s h = subst (λ b. (if b then s else new) ≡ s) (sym h) refl
  where
    new : GraphPage
    new = record s {
      requested = transaction;
      chain = record { transaction_id = transaction; status = loading };
      timer = some transaction;
    }

abbrev pub given_up : String → ChainStatus → GraphPage → GraphPage
given_up transaction st s = record s {
  chain = record { transaction_id = transaction; status = st };
  requested = "";
}

take_chain-Unusable :
    (setting : Setting) (transaction : String) (c : Option Chain) (s : GraphPage)
    → Unusable c
    → (st : ChainStatus) × (take_chain setting transaction c s ≡ given_up transaction st s)
unfolding take_chain
take_chain-Unusable setting transaction none s u = (error, refl)
take_chain-Unusable setting transaction (some c) s u = (
  live,
  subst (λ b. (if b then given_up transaction live s else big) ≡ given_up transaction live s)
      (sym u) refl,
)
  where
    big : GraphPage
    big =
        let nodes = slice_last max_nodes (map node_of c.nodes) in
        record (apply_graph setting nodes (edges_between nodes c.edges) none s) {
          chain = record { transaction_id = transaction; status = api };
        }

-- After a reply that shows no chain the nodes, the edges and the selection are as before, and the
-- next message of any transaction, of the same one as well, starts a request.
pub take_chain-retry :
    (setting : Setting) (transaction again : String) (c : Option Chain) (s : GraphPage)
    → Unusable c
    → (again == "") ≡ false
    → Starts again s (load_causal_chain again (take_chain setting transaction c s))
take_chain-retry setting transaction again c s u h =
    let (st, e) = take_chain-Unusable setting transaction c s u in
    subst (λ x. Starts again s (load_causal_chain again x)) (sym e)
      (load-Starts again (given_up transaction st s) (another h))
  where
    another : (again == "") ≡ false → (again == "" || "" == again) ≡ false
    another q = ground (arith, string_key.same_iff again "", string_key.same_iff "" again)

module _ (setting : Setting) where
  inferred_only :
      (nodes : List GraphNode) (e : GraphEdge)
      → Memᴰ e (sanitize_graph setting.collation nodes (infer_edges nodes)).1
      → e.cause_type ≡ none
  inferred_only nodes =
      sanitize_graph_origin setting.collation (λ e. e.cause_type ≡ none) (λ e id q. q) nodes
        (infer_edges nodes)
        (λ e m.
          let w = infer_edges-Explained nodes e m in
          subst (λ x. x.cause_type ≡ none) (sym w.5) refl)

  -- On a page that is not paused and shows the chain of the transaction that it requested: when new
  -- messages, the last of them of this transaction, change the number of nodes, no edge has a cause
  -- any more, since all edges are inferred anew; the page still says that it shows the chain of the API.
  pub drain-api :
      (s : GraphPage) (transaction : String)
      → s.paused ≡ false
      → s.chain ≡ record { transaction_id = transaction; status = api }
      → s.requested ≡ transaction
      → (read_pending setting s).1 ≡ transaction
      → nat_eq (length (read_pending setting s).0) (length s.nodes) ≡ false
      → ((drain setting s).chain ≡ record { transaction_id = transaction; status = api })
        × ((e : GraphEdge) → Memᴰ e (drain setting s).edges → e.cause_type ≡ none)
  unfolding drain apply_graph load_causal_chain
  drain-api s transaction open_now shows asked latest grew =
      subst Overwritten (sym drained) (shows, inferred_only (newest (read_pending setting s).0))
    where
      Overwritten : GraphPage → Type 0
      Overwritten after =
          (after.chain ≡ record { transaction_id = transaction; status = api })
          × ((e : GraphEdge) → Memᴰ e after.edges → e.cause_type ≡ none)

      processed : GraphPage
      processed = record s { processed = last_id setting s.processed (pending setting s) }

      applied : GraphPage
      applied =
          apply_graph setting (newest (read_pending setting s).0)
            (infer_edges (newest (read_pending setting s).0)) none processed

      asked_before :
          ((read_pending setting s).1 == "" || s.requested == (read_pending setting s).1) ≡ true
      asked_before = ground (arith, string_key.same_iff s.requested (read_pending setting s).1)

      drained : drain setting s ≡ applied
      drained =
          subst
            (λ b.
              (if b then s else merge setting (read_pending setting s).0 (request setting s))
              ≡ merge setting (read_pending setting s).0 (request setting s))
            (sym open_now) refl
          ∙ ap (merge setting (read_pending setting s).0)
              (load_again (read_pending setting s).1 processed asked_before)
          ∙ subst (λ b. (if b then processed else applied) ≡ applied) (sym grew) refl

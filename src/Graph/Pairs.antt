-- ===== src/Graph/Pairs.antt =====
-- `inferEdges` draws no edge twice between two ids.
use kprobe.Base.{
  ◌-◌, ◌≡◌, ap, subst, ⊎_elim, String, true, ◌&&◌, List, [], ◌∷◌, Memᴰ, arith, sort, Bool, Distinct,
  Distinct-concat, map, sym, ltb, string_key, not, if_both,
}
use mathlib.Core.List.Memᴰ
use mathlib.Core.List.{map-append}
use kprobe.Graph.{
  GraphNode, GraphEdge, linked, edge_of, has_edge, offer, scan_targets, scan_sources, by_time,
  infer_edges, causal_window_ns,
}

-- The two ids that an edge joins.
abbrev pub ends_of : GraphEdge → String × String
ends_of e = (e.source_id, e.target_id)

-- No two edges join the same ids in the same direction.
abbrev pub OnePerPair : List GraphEdge → Type 0
OnePerPair edges = Distinct (map ends_of edges)

Memᴰ-has_edge :
    (edges : List GraphEdge) (a b : String)
    → Memᴰ (a, b) (map ends_of edges)
    → has_edge edges a b ≡ true
Memᴰ-has_edge [] a b m = absurd (Memᴰ.not-nil m)
Memᴰ-has_edge (e ∷ edges) a b m =
    ⊎_elim
      (λ q. ground (
        arith,
        (string_key.same_iff e.source_id a).1 (sym (ap (λ p. p.0) q)),
        (string_key.same_iff e.target_id b).1 (sym (ap (λ p. p.1) q)),
      ))
      (λ later. ground (arith, Memᴰ-has_edge edges a b later)) (Memᴰ.cases_cons m)

offer-OnePerPair :
    (src tgt : GraphNode) (edges : List GraphEdge)
    → OnePerPair edges
    → OnePerPair (offer src tgt edges)
offer-OnePerPair src tgt edges d =
    if_both OnePerPair (linked src tgt && not (has_edge edges src.id tgt.id)) _ _
      (λ new. subst Distinct (sym (map-append ends_of edges (edge_of src tgt ∷ []))) (
        Distinct-concat (map ends_of edges) (src.id, tgt.id) d
          (λ m.
            clash (linked src tgt) (has_edge edges src.id tgt.id)
              (Memᴰ-has_edge edges src.id tgt.id m) new)))
      (λ old. d)
  where
    clash : (a b : Bool) → b ≡ true → (a && not b) ≡ true → ⊥
    clash a b h k = ground arith

scan_targets-OnePerPair :
    (src : GraphNode) (rest : List GraphNode) (edges : List GraphEdge)
    → OnePerPair edges
    → OnePerPair (scan_targets src rest edges)
unfolding scan_targets
scan_targets-OnePerPair src [] edges d = d
scan_targets-OnePerPair src (tgt ∷ rest) edges d =
    if_both OnePerPair (ltb causal_window_ns (tgt.event.timestamp_ns - src.event.timestamp_ns)) _ _
      (λ far. d)
      (λ near.
        scan_targets-OnePerPair src rest (offer src tgt edges) (offer-OnePerPair src tgt edges d))

scan_sources-OnePerPair :
    (xs : List GraphNode) (edges : List GraphEdge)
    → OnePerPair edges
    → OnePerPair (scan_sources xs edges)
unfolding scan_sources
scan_sources-OnePerPair [] edges d = d
scan_sources-OnePerPair (src ∷ rest) edges d =
    scan_sources-OnePerPair rest (scan_targets src rest edges)
      (scan_targets-OnePerPair src rest edges d)

pub infer_edges-OnePerPair : (nodes : List GraphNode) → OnePerPair (infer_edges nodes)
unfolding infer_edges
infer_edges-OnePerPair nodes = scan_sources-OnePerPair (sort by_time nodes) [] tt

-- ===== src/Graph/Edges.antt =====
-- The edges that `inferEdges` draws, against a description that does not mention its loops.
use kprobe.Base.{
  ℕ, ◌+◌, ◌-◌, ◌≤◌, ◌<◌, ◌≡◌, refl, ap, subst, ◌⊎◌, inl, inr, ⊎_elim, String, true, false, ◌&&◌,
  List, [], ◌∷◌, ◌++◌, Memᴰ, arith, All, All-of_Memᴰ, Memᴰ-All, sort, IsSorted, sort-IsSorted,
  Memᴰ-sort, Bool-cases, ltb, leb→le, string_key, not, same_refl, if_both,
}
use mathlib.Core.List.Memᴰ
use kprobe.Graph.{
  GraphNode, GraphEdge, linked, edge_of, has_edge, offer, scan_targets, scan_sources, by_time,
  infer_edges, causal_window_ns,
}

abbrev stamp : GraphNode → ℕ
stamp n = n.event.timestamp_ns

-- The pairs that an edge may join: linked, and at most the window apart, the source not later.
pub record MayCause (src tgt : GraphNode) : Type 0 where
  pub not_later : src.event.timestamp_ns ≤ tgt.event.timestamp_ns
  pub close : tgt.event.timestamp_ns ≤ src.event.timestamp_ns + causal_window_ns
  pub related : linked src tgt ≡ true

-- An edge comes from a pair of nodes of the list.
abbrev pub Explained : List GraphNode → GraphEdge → Type 0
Explained nodes e =
    (src : GraphNode) × (tgt : GraphNode) × Memᴰ src nodes
    × Memᴰ tgt nodes
    × MayCause src tgt
    × (e ≡ edge_of src tgt)

offer_sound :
    (src tgt : GraphNode) (edges : List GraphEdge) (e : GraphEdge)
    → Memᴰ e (offer src tgt edges)
    → Memᴰ e edges ⊎ (linked src tgt ≡ true) × (e ≡ edge_of src tgt)
offer_sound src tgt edges e m =
    elim (Bool-cases (linked src tgt && not (has_edge edges src.id tgt.id))) [
      | inl new ↦
          ⊎_elim inl (λ last. inr (ground arith, Memᴰ.eq_of_singleton last))
            (Memᴰ.append_cases edges (rw new at m))
      | inr old ↦ inl (rw old at m)
    ]

scan_targets_sound :
    (src : GraphNode) (rest : List GraphNode) (edges : List GraphEdge) (e : GraphEdge)
    → All (λ b. by_time src b ≡ true) rest
    → Memᴰ e (scan_targets src rest edges)
    → Memᴰ e edges ⊎ (tgt : GraphNode) × Memᴰ tgt rest × MayCause src tgt × (e ≡ edge_of src tgt)
unfolding scan_targets
scan_targets_sound src [] edges e h m = inl m
scan_targets_sound src (tgt ∷ rest) edges e (p, h) m =
    elim (Bool-cases (ltb causal_window_ns (stamp tgt - stamp src))) [
      | inl far ↦ inl (rw far at m)
      | inr near ↦
          ⊎_elim
            (λ before.
              ⊎_elim inl
                (λ now. inr (
                  tgt,
                  Memᴰ.head refl,
                  record { not_later = leb→le _ _ p; close = ground arith; related = now.0 },
                  now.1,
                ))
                (offer_sound src tgt edges e before))
            (λ later. inr (later.0, Memᴰ.tail later.1, later.2, later.3))
            (scan_targets_sound src rest (offer src tgt edges) e h (rw near at m))
    ]

scan_sources_sound :
    (xs : List GraphNode) (edges : List GraphEdge) (e : GraphEdge)
    → IsSorted by_time xs
    → Memᴰ e (scan_sources xs edges)
    → Memᴰ e edges ⊎ Explained xs e
unfolding scan_sources
scan_sources_sound [] edges e s m = inl m
scan_sources_sound (src ∷ rest) edges e (h, s) m =
    ⊎_elim
      (λ here.
        ⊎_elim inl (λ q. inr (src, q.0, Memᴰ.head refl, Memᴰ.tail q.1, q.2, q.3))
          (scan_targets_sound src rest edges e h here))
      (λ q. inr (q.0, q.1, Memᴰ.tail q.2, Memᴰ.tail q.3, q.4, q.5))
      (scan_sources_sound rest (scan_targets src rest edges) e s m)

by_time_total : (a b : GraphNode) → by_time a b ≡ false → by_time b a ≡ true
by_time_total a b h = ground arith

by_time_trans :
    (a b c : GraphNode) → Unit {0} → by_time a b ≡ true → by_time b c ≡ true → by_time a c ≡ true
by_time_trans a b c _ h k = ground arith

IsSorted-nodes : (nodes : List GraphNode) → IsSorted by_time (sort by_time nodes)
IsSorted-nodes nodes =
    sort-IsSorted by_time (λ _. Unit) by_time_total by_time_trans nodes
      (All-of_Memᴰ (λ _. Unit) nodes (λ a m. tt))

-- Once an edge joins two ids, the loops keep it.
has_edge-append :
    (edges more : List GraphEdge) (a b : String)
    → has_edge edges a b ≡ true
    → has_edge (edges ++ more) a b ≡ true
has_edge-append [] more a b h = absurd (cc h)
has_edge-append (e ∷ edges) more a b h = ground (arith, has_edge-append edges more a b)

has_edge-last :
    (edges : List GraphEdge) (e : GraphEdge)
    → has_edge (edges ++ e ∷ []) e.source_id e.target_id ≡ true
has_edge-last [] e = simp (same_refl e.source_id, same_refl e.target_id)
has_edge-last (d ∷ edges) e = ground (arith, has_edge-last edges e)

offer_keeps :
    (src tgt : GraphNode) (edges : List GraphEdge) (a b : String)
    → has_edge edges a b ≡ true
    → has_edge (offer src tgt edges) a b ≡ true
offer_keeps src tgt edges a b h =
    if_both (λ es. has_edge es a b ≡ true) (linked src tgt && not (has_edge edges src.id tgt.id)) _
      _ (λ _. has_edge-append edges _ a b h) (λ _. h)

offer_draws :
    (src tgt : GraphNode) (edges : List GraphEdge)
    → linked src tgt ≡ true
    → has_edge (offer src tgt edges) src.id tgt.id ≡ true
offer_draws src tgt edges l =
    if_both (λ es. has_edge es src.id tgt.id ≡ true)
      (linked src tgt && not (has_edge edges src.id tgt.id)) _ _
      (λ _. has_edge-last edges (edge_of src tgt)) (λ old. ground arith)

scan_targets_keeps :
    (src : GraphNode) (rest : List GraphNode) (edges : List GraphEdge) (a b : String)
    → has_edge edges a b ≡ true
    → has_edge (scan_targets src rest edges) a b ≡ true
unfolding scan_targets
scan_targets_keeps src [] edges a b h = h
scan_targets_keeps src (tgt ∷ rest) edges a b h =
    if_both (λ es. has_edge es a b ≡ true) (ltb causal_window_ns (stamp tgt - stamp src)) _ _
      (λ _. h)
      (λ _. scan_targets_keeps src rest (offer src tgt edges) a b (offer_keeps src tgt edges a b h))

scan_sources_keeps :
    (xs : List GraphNode) (edges : List GraphEdge) (a b : String)
    → has_edge edges a b ≡ true
    → has_edge (scan_sources xs edges) a b ≡ true
unfolding scan_sources
scan_sources_keeps [] edges a b h = h
scan_sources_keeps (src ∷ rest) edges a b h =
    scan_sources_keeps rest (scan_targets src rest edges) a b
      (scan_targets_keeps src rest edges a b h)

-- The `break` skips nothing: beyond a target that is too late, all are.
scan_targets_draws :
    (src tgt : GraphNode) (rest : List GraphNode) (edges : List GraphEdge)
    → IsSorted by_time rest
    → Memᴰ tgt rest
    → MayCause src tgt
    → has_edge (scan_targets src rest edges) src.id tgt.id ≡ true
unfolding scan_targets
scan_targets_draws src tgt [] edges s m c = absurd (Memᴰ.not-nil m)
scan_targets_draws src tgt (x ∷ rest) edges (h, s) m c =
    if_both (λ es. has_edge es src.id tgt.id ≡ true) (ltb causal_window_ns (stamp x - stamp src)) _
      _ (λ far. absurd (too_late far))
      (λ near.
        ⊎_elim
          (λ (e : tgt ≡ x). scan_targets_keeps src rest (offer src x edges) src.id tgt.id (
            subst (λ t. has_edge (offer src t edges) src.id tgt.id ≡ true) e
              (offer_draws src tgt edges c.related)))
          (λ later. scan_targets_draws src tgt rest (offer src x edges) s later c)
          (Memᴰ.cases_cons m))
  where
    before_target : stamp x ≤ stamp tgt
    before_target =
        ⊎_elim (λ (e : tgt ≡ x). rw e (omega arith)) (λ q. leb→le _ _ (Memᴰ-All _ rest h q))
          (Memᴰ.cases_cons m)

    too_late : ltb causal_window_ns (stamp x - stamp src) ≡ true → ⊥
    too_late far = ground (arith, before_target, c.close)

scan_sources_draws :
    (src tgt : GraphNode) (xs : List GraphNode) (edges : List GraphEdge)
    → IsSorted by_time xs
    → Memᴰ src xs
    → Memᴰ tgt xs
    → stamp src < stamp tgt
    → MayCause src tgt
    → has_edge (scan_sources xs edges) src.id tgt.id ≡ true
unfolding scan_sources
scan_sources_draws src tgt [] edges s m n l c = absurd (Memᴰ.not-nil m)
scan_sources_draws src tgt (x ∷ rest) edges (h, s) m n l c =
    ⊎_elim
      (λ (e : src ≡ x). scan_sources_keeps rest (scan_targets x rest edges) src.id tgt.id (
        subst (λ v. has_edge (scan_targets v rest edges) src.id tgt.id ≡ true) e
          (scan_targets_draws src tgt rest edges s (target_in_rest e) c)))
      (λ later.
        scan_sources_draws src tgt rest (scan_targets x rest edges) s later (not_first later) l c)
      (Memᴰ.cases_cons m)
  where
    target_in_rest : src ≡ x → Memᴰ tgt rest
    target_in_rest e =
        ⊎_elim (λ (f : tgt ≡ x). absurd (omega (arith, ap stamp e, ap stamp f))) (λ q. q)
          (Memᴰ.cases_cons n)

    not_first : Memᴰ src rest → Memᴰ tgt rest
    not_first q =
        ⊎_elim
          (λ (f : tgt ≡ x). absurd (omega (arith, ap stamp f, leb→le _ _ (Memᴰ-All _ rest h q))))
          (λ r. r) (Memᴰ.cases_cons n)

pub infer_edges-Explained :
    (nodes : List GraphNode) (e : GraphEdge) → Memᴰ e (infer_edges nodes) → Explained nodes e
unfolding infer_edges
infer_edges-Explained nodes e m =
    ⊎_elim (λ q. absurd (Memᴰ.not-nil q))
      (λ w. (
        w.0,
        w.1,
        (Memᴰ-sort by_time w.0 nodes).0 w.2,
        (Memᴰ-sort by_time w.1 nodes).0 w.3,
        w.4,
        w.5,
      ))
      (scan_sources_sound (sort by_time nodes) [] e (IsSorted-nodes nodes) m)

-- Wherever a node is strictly later than one that may be its cause, an inferred edge joins their ids,
-- so the early end of the inner loop loses none.
pub infer_edges_complete :
    (nodes : List GraphNode) (src tgt : GraphNode)
    → Memᴰ src nodes
    → Memᴰ tgt nodes
    → src.event.timestamp_ns < tgt.event.timestamp_ns
    → MayCause src tgt
    → has_edge (infer_edges nodes) src.id tgt.id ≡ true
unfolding infer_edges
infer_edges_complete nodes src tgt m n l c =
    scan_sources_draws src tgt (sort by_time nodes) [] (IsSorted-nodes nodes)
      ((Memᴰ-sort by_time src nodes).1 m) ((Memᴰ-sort by_time tgt nodes).1 n) l c

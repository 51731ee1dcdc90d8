-- ===== src/Graph/Sanitize.antt =====
-- What `sanitizeGraph` lets through.
use kprobe.Base.{
  ◌≡◌, ◌≢◌, refl, sym, ap, subst, ◌⊎◌, inl, inr, ⊎_elim, String, true, false, none, some, List, [],
  ◌∷◌, map, Memᴰ, arith, Memᴰ-cons, All, All-of_Memᴰ, Memᴰ-All, Distinct, Option-cases, string_key,
  ◌==◌, if_both, put, lookup, keys, values, Memᴰ-put, Memᴰ-keys-put, Distinct-keys-put, lookup-Memᴰ,
}
use mathlib.Core.List.Memᴰ
use text.Mathlib.TextEquality.{eq_iff}
use kprobe.Graph.{
  GraphNode, GraphEdge, Collation, arrow, points_forward, index_nodes, unique_nodes, keep_edge,
  admit, admit_all, sanitize_graph,
}

abbrev Indexed : List (String × GraphNode) → Type 0
Indexed m = All (λ e. e.1.id ≡ e.0) m

index_nodes-Indexed :
    (m : List (String × GraphNode)) (ns : List GraphNode) → Indexed m → Indexed (index_nodes m ns)
index_nodes-Indexed m [] h = h
index_nodes-Indexed m (n ∷ ns) h = index_nodes-Indexed (put n.id n m) ns (
    All-of_Memᴰ _ _ (λ e q.
      ⊎_elim (λ (p : e ≡ (n.id, n)). rw p refl) (λ t. Memᴰ-All (λ e. e.1.id ≡ e.0) m h t)
        (Memᴰ-put n.id n m e q)))

Distinct-index_nodes :
    (m : List (String × GraphNode)) (ns : List GraphNode)
    → Distinct (keys m)
    → Distinct (keys (index_nodes m ns))
Distinct-index_nodes m [] d = d
Distinct-index_nodes m (n ∷ ns) d =
    Distinct-index_nodes (put n.id n m) ns (Distinct-keys-put n.id n m d)

values-index_nodes :
    (m : List (String × GraphNode)) (ns : List GraphNode) (e : String × GraphNode)
    → Memᴰ e (index_nodes m ns)
    → Memᴰ e m ⊎ Memᴰ e.1 ns
values-index_nodes m [] e q = inl q
values-index_nodes m (n ∷ ns) e q =
    ⊎_elim
      (λ p.
        ⊎_elim (λ (u : e ≡ (n.id, n)). inr (Memᴰ.head (ap (λ v. v.1) u))) inl
          (Memᴰ-put n.id n m e p))
      (λ p. inr (Memᴰ.tail p)) (values-index_nodes (put n.id n m) ns e q)

Memᴰ-keys-index_nodes :
    (j : String) (m : List (String × GraphNode)) (ns : List GraphNode)
    → Memᴰ j (keys m) ⊎ Memᴰ j (map (λ n. n.id) ns)
    → Memᴰ j (keys (index_nodes m ns))
Memᴰ-keys-index_nodes j m [] q = ⊎_elim (λ p. p) (λ p. absurd (Memᴰ.not-nil p)) q
Memᴰ-keys-index_nodes j m (n ∷ ns) q =
    Memᴰ-keys-index_nodes j (put n.id n m) ns
      (ground (arith, Memᴰ-keys-put n.id j n m, Memᴰ-cons j n.id (map (λ n. n.id) ns)))

ids-values : (m : List (String × GraphNode)) → Indexed m → map (λ n. n.id) (values m) ≡ keys m
ids-values [] h = refl
ids-values (e ∷ m) (p, h) = rw (ids-values m h, p) refl

pub Distinct-unique_nodes :
    (nodes : List GraphNode) → Distinct (map (λ n. n.id) (unique_nodes nodes))
Distinct-unique_nodes nodes =
    rw (ids-values (index_nodes [] nodes) (index_nodes-Indexed [] nodes tt))
      (Distinct-index_nodes [] nodes tt)

-- A node found by id is one of the list, under its own id.
found_node :
    (nodes : List GraphNode) (a : String) (n : GraphNode)
    → lookup a (index_nodes [] nodes) ≡ some n
    → Memᴰ n nodes × (n.id ≡ a)
found_node nodes a n h =
    let m = lookup-Memᴰ a n (index_nodes [] nodes) h in
    (
      ⊎_elim (λ q. absurd (Memᴰ.not-nil q)) (λ q. q) (values-index_nodes [] nodes (a, n) m),
      Memᴰ-All (λ (e : String × GraphNode). e.1.id ≡ e.0) _ (index_nodes-Indexed [] nodes tt) m,
    )

module _ (collation : Collation) where
  -- An edge that joins two nodes known by their ids, the first before the second.
  pub record Joins (by_id : List (String × GraphNode)) (e : GraphEdge) : Type 0 where
    pub source : GraphNode
    pub target : GraphNode
    pub source_found : lookup e.source_id by_id ≡ some source
    pub target_found : lookup e.target_id by_id ≡ some target
    pub apart : source.id ≢ target.id
    pub forward : points_forward collation source target ≡ true
    pub named : e.id ≡ arrow source.id target.id

  abbrev Kept : List (String × GraphNode) → List (String × GraphEdge) → Type 0
  Kept by_id kept = All (λ k. (k.1.id ≡ k.0) × Joins by_id k.1) kept

  Kept-put :
      (by_id : List (String × GraphNode)) (kept : List (String × GraphEdge)) (e : GraphEdge)
      → Kept by_id kept
      → Joins by_id e
      → Kept by_id (put e.id e kept)
  Kept-put by_id kept e h j = All-of_Memᴰ _ _ (λ k q.
      ⊎_elim
        (λ (p : k ≡ (e.id, e)).
          subst (λ (v : String × GraphEdge). (v.1.id ≡ v.0) × Joins by_id v.1) (sym p) (refl, j))
        (λ t. Memᴰ-All (λ (v : String × GraphEdge). (v.1.id ≡ v.0) × Joins by_id v.1) kept h t)
        (Memᴰ-put e.id e kept k q))

  -- What holds of the list so far and of it with one more edge that joins holds after the round.
  admit_cases {ℓ} :
      (P : List (String × GraphEdge) → Type ℓ) (by_id : List (String × GraphNode))
      (edge : GraphEdge) (kept : List (String × GraphEdge))
      → P kept
      → ((e : GraphEdge)
          → Joins by_id e
          → lookup e.id kept ≡ none
          → (e.source_id ≡ edge.source_id)
          → (e.target_id ≡ edge.target_id)
          → P (put e.id e kept))
      → P (admit collation by_id edge kept)
  unfolding admit
  admit_cases P by_id edge kept h f = elim (Option-cases (lookup edge.source_id by_id)) [
    | inl no_source ↦ rw (no_source, admit) h
    | inr (source, s) ↦
        rw (s, admit)
          (elim (Option-cases (lookup edge.target_id by_id)) [
            | inl no_target ↦ rw no_target h
            | inr (target, t) ↦ rw t (keep source target s t)
          ])
  ]
    where
      fresh :
          (source target : GraphNode)
          → lookup edge.source_id by_id ≡ some source
          → lookup edge.target_id by_id ≡ some target
          → (source.id == target.id) ≡ false
          → points_forward collation source target ≡ true
          → lookup (arrow source.id target.id) kept ≡ none
          → P (
              put (arrow source.id target.id) (record edge { id = arrow source.id target.id }) kept)
      fresh source target s t apart forward new =
          f (record edge { id = arrow source.id target.id })
            record {
              source = source;
              target = target;
              source_found = s;
              target_found = t;
              apart = λ e. cc ((eq_iff source.id target.id).1 e);
              forward = forward;
              named = refl;
            }
            new refl refl

      keep :
          (source target : GraphNode)
          → lookup edge.source_id by_id ≡ some source
          → lookup edge.target_id by_id ≡ some target
          → P (keep_edge collation source target edge kept)
      keep source target s t =
          if_both P (source.id == target.id) _ _ (λ _. h)
            (λ apart.
              if_both P (points_forward collation source target) _ _
                (λ forward. elim (Option-cases (lookup (arrow source.id target.id) kept)) [
                  | inl new ↦ rw (new, keep_edge) (fresh source target s t apart forward new)
                  | inr (old, there) ↦ rw (there, keep_edge) h
                ])
                (λ _. h))

  admit_all_cases {ℓ} :
      (P : List (String × GraphEdge) → Type ℓ) (by_id : List (String × GraphNode))
      → ((kept : List (String × GraphEdge)) (e : GraphEdge)
          → P kept
          → Joins by_id e
          → P (put e.id e kept))
      → (edges : List GraphEdge) (kept : List (String × GraphEdge)) → P kept
      → P (admit_all collation by_id edges kept)
  unfolding admit_all
  admit_all_cases P by_id f [] kept h = h
  admit_all_cases P by_id f (e ∷ edges) kept h =
      admit_all_cases P by_id f edges (admit collation by_id e kept)
        (admit_cases P by_id e kept h (λ d j _ _ _. f kept d h j))

  abbrev index_of : List GraphNode → List (String × GraphNode)
  index_of nodes = index_nodes [] (unique_nodes nodes)

  edges-Kept :
      (nodes : List GraphNode) (edges : List GraphEdge)
      → Kept (index_of nodes) (admit_all collation (index_of nodes) edges [])
  edges-Kept nodes edges =
      admit_all_cases (Kept (index_of nodes)) (index_of nodes)
        (λ kept e h j. Kept-put (index_of nodes) kept e h j) edges [] tt

  ids-edges :
      (by_id : List (String × GraphNode)) (kept : List (String × GraphEdge))
      → Kept by_id kept
      → map (λ e. e.id) (values kept) ≡ keys kept
  ids-edges by_id [] h = refl
  ids-edges by_id (k ∷ kept) (p, h) = rw (ids-edges by_id kept h, p.0) refl

  values-Joins :
      (by_id : List (String × GraphNode)) (kept : List (String × GraphEdge))
      → Kept by_id kept
      → All (Joins by_id) (values kept)
  values-Joins by_id [] h = tt
  values-Joins by_id (k ∷ kept) (p, h) = (p.1, values-Joins by_id kept h)

  -- An edge of the result: its ends are ids of nodes of the result, of which the first comes before
  -- the second, by time or at one time by the collation of the ids.
  pub record RunsForward (nodes : List GraphNode) (e : GraphEdge) : Type 0 where
    pub source : GraphNode
    pub target : GraphNode
    pub source_in : Memᴰ source nodes
    pub target_in : Memᴰ target nodes
    pub starts : source.id ≡ e.source_id
    pub ends : target.id ≡ e.target_id
    pub apart : source.id ≢ target.id
    pub forward : points_forward collation source target ≡ true

  runs_forward :
      (nodes : List GraphNode) (e : GraphEdge)
      → Joins (index_nodes [] nodes) e
      → RunsForward nodes e
  runs_forward nodes e j =
      let (a, b) = found_node nodes e.source_id j.source j.source_found in
      let (c, d) = found_node nodes e.target_id j.target j.target_found in
      record {
        source = j.source;
        target = j.target;
        source_in = a;
        target_in = c;
        starts = b;
        ends = d;
        apart = j.apart;
        forward = j.forward;
      }

  All-runs :
      (nodes : List GraphNode) (es : List GraphEdge)
      → All (Joins (index_nodes [] nodes)) es
      → All (RunsForward nodes) es
  All-runs nodes [] h = tt
  All-runs nodes (e ∷ es) (p, h) = (runs_forward nodes e p, All-runs nodes es h)

  -- Whatever nodes and edges it is given, the sanitiser returns nodes with distinct ids and edges with
  -- distinct ids, and every edge runs forward between two different nodes that it returns.
  pub sanitize_graph_sound :
      (nodes : List GraphNode) (edges : List GraphEdge)
      → let (nodes', edges') = sanitize_graph collation nodes edges in
        Distinct (map (λ n. n.id) nodes')
        × Distinct (map (λ e. e.id) edges')
        × All (RunsForward nodes') edges'
  unfolding sanitize_graph
  sanitize_graph_sound nodes edges =
      let kept = admit_all collation (index_of nodes) edges [] in
      (
        Distinct-unique_nodes nodes,
        rw (ids-edges (index_of nodes) kept (edges-Kept nodes edges)) (
            admit_all_cases (λ (k : List (String × GraphEdge)). Distinct (keys k)) (index_of nodes)
              (λ k e d _. Distinct-keys-put e.id e k d) edges [] tt),
        All-runs (unique_nodes nodes) _
            (values-Joins (index_of nodes) kept (edges-Kept nodes edges)),
      )

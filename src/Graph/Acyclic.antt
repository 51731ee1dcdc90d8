-- ===== src/Graph/Acyclic.antt =====
-- The edges of a sanitised graph form no cycle.
use kprobe.Base.{
  String, true, false, ◌≡◌, sym, ◌∙◌, List, map, Memᴰ, arith, All, Memᴰ-All, Distinct,
  Distinct-map_inj, subst,
}
use kprobe.Graph.{GraphNode, GraphEdge, Collation, points_forward, sanitize_graph}
use kprobe.Graph.Chains.{Walk, one, more}
use kprobe.Graph.Sanitize.{RunsForward, sanitize_graph_sound}

-- What is documented of `localeCompare`: `before` is a strict order.
pub record IsStrict (collation : Collation) : Type 0 where
  pub irrefl : (a : String) → collation.before a a ≡ false
  pub trans :
      (a b c : String)
      → collation.before a b ≡ true
      → collation.before b c ≡ true
      → collation.before a c ≡ true

module _ (collation : Collation) (strict : IsStrict collation) where
  forward_trans :
      (a b c : GraphNode)
      → points_forward collation a b ≡ true
      → points_forward collation b c ≡ true
      → points_forward collation a c ≡ true
  forward_trans a b c h k = ground (arith, strict.trans a.id b.id c.id)

  forward_irrefl : (a : GraphNode) → points_forward collation a a ≡ true → ⊥
  forward_irrefl a h = ground (arith, strict.irrefl a.id)

  record Spans (nodes : List GraphNode) (a b : String) : Type 0 where
    source : GraphNode
    target : GraphNode
    source_in : Memᴰ source nodes
    target_in : Memᴰ target nodes
    starts : source.id ≡ a
    ends : target.id ≡ b
    forward : points_forward collation source target ≡ true

  Walk-Spans :
      {nodes : List GraphNode} {edges : List GraphEdge} {a b : String}
      → Distinct (map (λ n. n.id) nodes)
      → All (RunsForward collation nodes) edges
      → Walk edges a b
      → Spans nodes a b
  Walk-Spans {nodes} {edges} d h (one e m p q) =
      let r = Memᴰ-All (RunsForward collation nodes) edges h m in
      record {
        source = r.source;
        target = r.target;
        source_in = r.source_in;
        target_in = r.target_in;
        starts = r.starts ∙ p;
        ends = r.ends ∙ q;
        forward = r.forward;
      }
  Walk-Spans {nodes} {edges} d h (more e w m p q) =
      let r = Memᴰ-All (RunsForward collation nodes) edges h m in
      let s = Walk-Spans d h w in
      let same : s.target ≡ r.source =
        Distinct-map_inj (λ n. n.id) nodes s.target r.source d s.target_in r.source_in
          (s.ends ∙ sym p ∙ sym r.starts) in
      record {
        source = s.source;
        target = r.target;
        source_in = s.source_in;
        target_in = r.target_in;
        starts = s.starts;
        ends = r.ends ∙ q;
        forward =
            forward_trans s.source r.source r.target
              (subst (λ n. points_forward collation s.source n ≡ true) same s.forward) r.forward;
      }

  -- Where `localeCompare` orders strictly, no walk along the edges of a sanitised graph comes back to
  -- its start, whatever nodes and edges were given.
  pub sanitize_graph_acyclic :
      (nodes : List GraphNode) (edges : List GraphEdge) (a : String)
      → ¬ Walk (sanitize_graph collation nodes edges).1 a a
  sanitize_graph_acyclic nodes edges a w =
      let (d, _, h) = sanitize_graph_sound collation nodes edges in
      let s = Walk-Spans d h w in
      let same : s.source ≡ s.target =
        Distinct-map_inj (λ n. n.id) _ s.source s.target d s.source_in s.target_in
          (s.starts ∙ sym s.ends) in
      forward_irrefl s.target
        (subst (λ n. points_forward collation n s.target ≡ true) same s.forward)

-- ===== src/Graph/Chains.antt =====
-- Chains of edges, followed from one end of each edge to the other.
use kprobe.Base.{String, ◌≡◌, List, Memᴰ}
use kprobe.Graph.{GraphEdge}

pub data Chain (near far : GraphEdge → String) (edges : List GraphEdge) (a : String)
    : String → Type 0 where
  one :
      {b : String} (e : GraphEdge)
      → Memᴰ e edges
      → near e ≡ a
      → far e ≡ b
      → Chain near far edges a b
  more :
      {b c : String} (e : GraphEdge)
      → Chain near far edges a b
      → Memᴰ e edges
      → near e ≡ b
      → far e ≡ c
      → Chain near far edges a c

-- From cause to effect.
abbrev pub Walk : List GraphEdge → String → String → Type 0
Walk edges a b = Chain (λ e. e.source_id) (λ e. e.target_id) edges a b

module _ (near far : GraphEdge → String) where
  Chain-cons :
      {edges : List GraphEdge} {a b c : String} (e : GraphEdge)
      → Memᴰ e edges
      → near e ≡ a
      → far e ≡ b
      → Chain near far edges b c
      → Chain near far edges a c
  Chain-cons e m p q (one d n r s) = more d (one e m p q) n r s
  Chain-cons e m p q (more d c n r s) = more d (Chain-cons e m p q c) n r s

-- A chain read from its other end.
pub Chain-reverse :
    (near far : GraphEdge → String) {edges : List GraphEdge} {a b : String}
    → Chain near far edges a b
    → Chain far near edges b a
Chain-reverse near far (one e m p q) = one e m q p
Chain-reverse near far (more e c m p q) = Chain-cons far near e m q p (Chain-reverse near far c)

-- ===== src/Graph/Paths.antt =====
-- The ids on the paths through a node, and the walks through it.
use kprobe.Base.{
  String, ◌≡◌, refl, ◌⊎◌, ◌↔◌, some, List, [], ◌∷◌, ◌++◌, Memᴰ, Memᴰ-add_all, add_all, Memᴰ-append,
  Memᴰ-cons, arith, string_key,
}
use mathlib.Core.List.Memᴰ
use kprobe.Graph.{GraphEdge, get_path_ids}
use kprobe.Graph.Chains.{Chain, Chain-reverse, Walk}
use kprobe.Graph.Search.{search_finds}

-- The searches end within the rounds given, and the ids that `getPathIds` returns are the node itself,
-- those from which a walk along the edges leads to it, and those to which one leads from it.
pub get_path_ids_lem :
    (node : String) (edges : List GraphEdge)
    → (ids : List String) × (get_path_ids node edges ≡ some ids)
      × ((x : String) → Memᴰ x ids ↔ (Walk edges x node ⊎ (x ≡ node) ⊎ Walk edges node x))
unfolding get_path_ids
get_path_ids_lem node edges =
    let (up, ends_up, is_up) = search_finds (λ e. e.target_id) (λ e. e.source_id) edges node in
    let (down, ends_down, is_down) =
      search_finds (λ e. e.source_id) (λ e. e.target_id) edges node in
    (
      add_all [] (up ++ (node ∷ down)),
      rw (ends_up, ends_down, get_path_ids) refl,
      λ x. ground (
        arith,
        Memᴰ-add_all x [] (up ++ (node ∷ down)),
        Memᴰ-append x up (node ∷ down),
        Memᴰ-cons x node down,
        leads_to x (is_up x),
        is_down x,
        λ (m : Memᴰ x []). Memᴰ.not-nil m,
      ),
    )
  where
    leads_to :
        {up : List String} (x : String)
        → Memᴰ x up ↔ Chain (λ e. e.target_id) (λ e. e.source_id) edges node x
        → Memᴰ x up ↔ Walk edges x node
    leads_to x h = (λ m. Chain-reverse _ _ (h.0 m), λ w. h.1 (Chain-reverse _ _ w))

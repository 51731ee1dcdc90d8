-- ===== src/Graph/Origin.antt =====
-- What holds of every edge given to the sanitiser, whatever its id, holds of every edge it returns.
use kprobe.Base.{
  ◌≡◌, refl, subst, sym, ⊎_elim, String, List, [], ◌∷◌, Memᴰ, Memᴰ-put, put, lookup, values,
  if_both, Option-cases, inl, inr, string_key, ◌==◌,
}
use mathlib.Core.List.Memᴰ
use kprobe.Graph.{
  GraphNode, GraphEdge, Collation, arrow, points_forward, keep_edge, admit, admit_all,
  sanitize_graph, index_nodes, unique_nodes,
}

module _ {ℓ} (collation : Collation) (Q : GraphEdge → Type ℓ)
    (renamed : (e : GraphEdge) (id : String) → Q e → Q (record e { id = id })) where
  Each : List (String × GraphEdge) → Type ℓ
  Each kept = (k : String × GraphEdge) → Memᴰ k kept → Q k.1

  Each-put :
      (id : String) (e : GraphEdge) (kept : List (String × GraphEdge))
      → Q e
      → Each kept
      → Each (put id (record e { id = id }) kept)
  unfolding Each
  Each-put id e kept q h k m =
      ⊎_elim
        (λ (new : k ≡ (id, record e { id = id })). subst (λ x. Q x.1) (sym new) (renamed e id q))
        (λ old. h k old) (Memᴰ-put id (record e { id = id }) kept k m)

  Each-keep_edge :
      (source target : GraphNode) (e : GraphEdge) (kept : List (String × GraphEdge))
      → Q e
      → Each kept
      → Each (keep_edge collation source target e kept)
  Each-keep_edge source target e kept q h =
      if_both Each (source.id == target.id) _ _ (λ _. h)
        (λ _.
          if_both Each (points_forward collation source target) _ _
            (λ _. elim (Option-cases (lookup (arrow source.id target.id) kept)) [
              | inl new ↦ rw new (Each-put (arrow source.id target.id) e kept q h)
              | inr (old, there) ↦ rw there h
            ])
            (λ _. h))

  Each-admit :
      (by_id : List (String × GraphNode)) (e : GraphEdge) (kept : List (String × GraphEdge))
      → Q e
      → Each kept
      → Each (admit collation by_id e kept)
  unfolding admit
  Each-admit by_id e kept q h = elim (Option-cases (lookup e.source_id by_id)) [
    | inl gone ↦ rw (admit, gone) h
    | inr (source, there) ↦ elim (Option-cases (lookup e.target_id by_id)) [
      | inl gone ↦ rw (admit, there, gone) h
      | inr (target, there') ↦ rw (admit, there, there') (Each-keep_edge source target e kept q h)
    ]
  ]

  Each-admit_all :
      (by_id : List (String × GraphNode)) (es : List GraphEdge) (kept : List (String × GraphEdge))
      → ((e : GraphEdge) → Memᴰ e es → Q e)
      → Each kept
      → Each (admit_all collation by_id es kept)
  unfolding admit_all
  Each-admit_all by_id [] kept q h = h
  Each-admit_all by_id (e ∷ es) kept q h =
      Each-admit_all by_id es (admit collation by_id e kept) (λ f m. q f (Memᴰ.tail m))
        (Each-admit by_id e kept (q e (Memᴰ.head refl)) h)

  values-Each :
      (kept : List (String × GraphEdge)) → Each kept → (e : GraphEdge) → Memᴰ e (values kept) → Q e
  unfolding Each
  values-Each [] h e m = absurd (Memᴰ.not-nil m)
  values-Each (k ∷ kept) h e (Memᴰ.head p) = subst Q (sym p) (h k (Memᴰ.head refl))
  values-Each (k ∷ kept) h e (Memᴰ.tail m) = values-Each kept (λ j n. h j (Memᴰ.tail n)) e m

  pub sanitize_graph_origin :
      (nodes : List GraphNode) (es : List GraphEdge)
      → ((e : GraphEdge) → Memᴰ e es → Q e)
      → (e : GraphEdge) → Memᴰ e (sanitize_graph collation nodes es).1
      → Q e
  unfolding sanitize_graph Each
  sanitize_graph_origin nodes es q = values-Each _ (
      Each-admit_all (index_nodes [] (unique_nodes nodes)) es [] q (λ k m. absurd (Memᴰ.not-nil m)))

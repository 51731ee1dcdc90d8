-- ===== src/GraphPage/Invariant.antt =====
-- What holds of the graph page between two callbacks.
use kprobe.Base.{
  ℕ, ◌-◌, ◌≤◌, ◌≡◌, refl, sym, subst, String, false, Option, none, some, List, [], ◌∷◌, ◌++◌, map,
  Memᴰ, arith, length, length-slice_last, length-drop, ltb, nat_eq, find, contains, if_both,
  Option-cases, Bool-cases, inl, inr, All, All-of_Memᴰ, Memᴰ-All, Distinct, ◌==◌, string_key,
  if◌then◌else◌, not, ◌||◌,
}
use Prim.{Unit, tt}
use mathlib.Core.List.Memᴰ
use kprobe.Event.{KernelEvent, mock}
use kprobe.Causal.{Chain, fetch_causal_chain}
use kprobe.Graph.{
  GraphNode, GraphEdge, sanitize_graph, layout_dag, infer_edges, should_promote, max_nodes,
}
use kprobe.Graph.Chains.{Walk, one, more}
use kprobe.Graph.Sanitize.{RunsForward, sanitize_graph_sound}
use kprobe.Graph.Acyclic.{IsStrict, sanitize_graph_acyclic}
use kprobe.Graph.Layout.{layout_dag_total}
use kprobe.Graph.Sizes.{length-unique_nodes, layout_dag-Distinct}
use kprobe.GraphPage.{
  GraphPage, Setting, initial, node_of, newest, load_causal_chain, fire_timer, clear_graph,
  click_node, still_selected, Action, arrived, status_changed, ticked, pause_toggled, deselected,
  timer_fired, cleared, unmounted, clicked, replied, apply_graph, take_chain, read_pending, request,
  last_id, pending, merge, drain, mock_tick, drop_first, step,
}

abbrev pub ids : List GraphNode → List String
ids nodes = map (λ n. n.id) nodes

abbrev pub Joined : List GraphNode → GraphEdge → Type 0
Joined nodes e = Memᴰ e.source_id (ids nodes) × Memᴰ e.target_id (ids nodes)

-- What the page shows, without the state of its requests.
pub record Shown : Type 0 where
  pub nodes : List GraphNode
  pub edges : List GraphEdge
  pub node_count : ℕ
  pub edge_count : ℕ
  pub selected : Option GraphNode

abbrev pub shown : GraphPage → Shown
shown s = record {
  nodes = s.nodes;
  edges = s.edges;
  node_count = s.node_count;
  edge_count = s.edge_count;
  selected = s.selected;
}

-- The nodes are few and distinct, the edges join them and form no cycle, the counts are right, and
-- what is selected is shown.
pub record IsSound (v : Shown) : Type 0 where
  pub few : length v.nodes ≤ max_nodes
  pub distinct : Distinct (ids v.nodes)
  pub joined : All (Joined v.nodes) v.edges
  pub acyclic : (a : String) → ¬ Walk v.edges a a
  pub node_counted : v.node_count ≡ length v.nodes
  pub edge_counted : v.edge_count ≡ length v.edges
  pub selected_shown : (n : GraphNode) → v.selected ≡ some n → Memᴰ n.id (ids v.nodes)

abbrev pub Sound : GraphPage → Type 0
Sound s = IsSound (shown s)

length-newest : (nodes : List GraphNode) → length (newest nodes) ≤ max_nodes
length-newest nodes =
    if_both (λ (ns : List GraphNode). length ns ≤ max_nodes) (ltb max_nodes (length nodes)) _ _
      (λ many. omega (arith, length-drop (length nodes - max_nodes) nodes)) (λ few. ground arith)

find-Memᴰ :
    (nodes : List GraphNode) (id : String) (n : GraphNode)
    → find (λ m. m.id == id) nodes ≡ some n
    → Memᴰ id (ids nodes)
find-Memᴰ [] id n h = cc
find-Memᴰ (m ∷ ms) id n h = elim (Bool-cases (m.id == id)) [
  | inl here ↦ Memᴰ.head (sym ((string_key.same_iff m.id id).0 here))
  | inr there ↦ Memᴰ.tail (find-Memᴰ ms id n (rest there))
]
  where
    rest : (m.id == id) ≡ false → find (λ k. k.id == id) ms ≡ some n
    rest q = subst (λ b. (if b then some m else find (λ k. k.id == id) ms) ≡ some n) q h

still_selected-Memᴰ :
    (nodes : List GraphNode) (sel : Option GraphNode) (n : GraphNode)
    → still_selected nodes sel ≡ some n
    → Memᴰ n.id (ids nodes)
still_selected-Memᴰ nodes none n h = absurd (cc h)
still_selected-Memᴰ nodes (some m) n h = elim (Option-cases (find (λ k. k.id == m.id) nodes)) [
  | inl gone ↦ absurd (cc (rw (still_selected, gone) at h))
  | inr (k, found) ↦
      subst (λ x. Memᴰ x.id (ids nodes)) (same k found) (find-Memᴰ nodes m.id k found)
]
  where
    out : {x y : GraphNode} → some x ≡ some y → x ≡ y
    out q = cc

    same : (k : GraphNode) → find (λ j. j.id == m.id) nodes ≡ some k → m ≡ n
    same k found = out (rw (still_selected, found) at h)

-- A click is on a node that is shown.
abbrev pub Clickable : Action → GraphPage → Type 0
Clickable (clicked d) s = Memᴰ d.id (ids s.nodes)
Clickable _ s = Unit

pub data Reach (setting : Setting) : GraphPage → Type 0 where
  start : Reach setting initial
  next :
      {s : GraphPage} (a : Action)
      → Clickable a s
      → Reach setting s
      → Reach setting (step setting a s)

module _ (setting : Setting) (strict : IsStrict setting.collation) where
  Sound-apply_graph :
      (nodes : List GraphNode) (edges : List GraphEdge) (s : GraphPage)
      → length nodes ≤ max_nodes
      → Sound (apply_graph setting nodes edges none s)
  unfolding apply_graph sanitize_graph layout_dag
  Sound-apply_graph nodes edges s h =
      let (d, _, runs) = sanitize_graph_sound setting.collation nodes edges in
      let safe = sanitize_graph setting.collation nodes edges in
      let laid = layout_dag-Distinct setting.collation setting.dagre safe.0 safe.1 d in
      let same = (layout_dag_total setting.collation setting.dagre safe.0 safe.1).1 in
      record {
        few = omega (arith, laid.0, length-unique_nodes nodes);
        distinct = laid.1;
        joined = All-of_Memᴰ _ _ (λ e m.
            let r = Memᴰ-All (RunsForward setting.collation safe.0) safe.1 runs m in
            (
              (same e.source_id).1
                  (subst (λ j. Memᴰ j (ids safe.0)) r.starts (Memᴰ.map (λ n. n.id) r.source_in)),
              (same e.target_id).1
                  (subst (λ j. Memᴰ j (ids safe.0)) r.ends (Memᴰ.map (λ n. n.id) r.target_in)),
            ));
        acyclic = sanitize_graph_acyclic setting.collation strict nodes edges;
        node_counted = refl;
        edge_counted = refl;
        selected_shown = still_selected-Memᴰ _ s.selected;
      }

  nothing_shown : (s : GraphPage) → Sound (clear_graph s)
  unfolding clear_graph
  nothing_shown s = record {
    few = omega arith;
    distinct = tt;
    joined = tt;
    acyclic = λ a w. no_walk w;
    node_counted = refl;
    edge_counted = refl;
    selected_shown = λ n h. absurd (cc h);
  }
    where
      no_walk : {a b : String} → Walk [] a b → ⊥
      no_walk (one e m p q) = Memᴰ.not-nil m
      no_walk (more e w m p q) = Memᴰ.not-nil m

  Sound-selected :
      (s : GraphPage) (sel : Option GraphNode)
      → Sound s
      → ((n : GraphNode) → sel ≡ some n → Memᴰ n.id (ids s.nodes))
      → Sound (record s { selected = sel })
  Sound-selected s sel h there = record {
    few = h.few;
    distinct = h.distinct;
    joined = h.joined;
    acyclic = h.acyclic;
    node_counted = h.node_counted;
    edge_counted = h.edge_counted;
    selected_shown = there;
  }

  Sound-deselected : (s : GraphPage) → Sound s → Sound (record s { selected = none })
  Sound-deselected s h = Sound-selected s none h (λ n q. absurd (cc q))

  Sound-click_node :
      (d : GraphNode) (s : GraphPage) → Memᴰ d.id (ids s.nodes) → Sound s → Sound (click_node d s)
  Sound-click_node d s m h =
      elim s.selected
        as (λ o. Sound (elim o [
          | none ↦ record s { selected = some d }
          | some prev ↦
              if prev.id == d.id
              then record s { selected = none }
              else record s { selected = some d }
        ])) [
          | none ↦ on
          | some prev ↦ if_both Sound (prev.id == d.id) _ _ (λ q. Sound-deselected s h) (λ q. on)
        ]
    where
      out : {n : GraphNode} → some d ≡ some n → d ≡ n
      out q = cc

      on : Sound (record s { selected = some d })
      on = Sound-selected s (some d) h (λ n q. subst (λ x. Memᴰ x.id (ids s.nodes)) (out q) m)

  Sound-load : (t : String) (s : GraphPage) → Sound s → Sound (load_causal_chain t s)
  unfolding load_causal_chain
  Sound-load t s h = if_both Sound (t == "" || s.requested == t) _ _ (λ old. h) (λ new. h)

  Sound-merge : (nodes : List GraphNode) (s : GraphPage) → Sound s → Sound (merge setting nodes s)
  Sound-merge nodes s h =
      if_both Sound (nat_eq (length nodes) (length s.nodes)) _ _ (λ none_new. h)
        (λ new.
          Sound-apply_graph (newest nodes) (infer_edges (newest nodes)) s (length-newest nodes))

  Sound-drain : (s : GraphPage) → Sound s → Sound (drain setting s)
  unfolding drain
  Sound-drain s h =
      if_both Sound s.paused _ _ (λ on. h)
        (λ off. Sound-merge (read_pending setting s).0 (request setting s) (
          Sound-load (read_pending setting s).1
            (record s { processed = last_id setting s.processed (pending setting s) }) h))

  Sound-mock_tick : (e : KernelEvent) (s : GraphPage) → Sound s → Sound (mock_tick setting e s)
  unfolding mock_tick
  Sound-mock_tick e s h =
      elim s.status
        as (λ st. Sound (elim st [
          | mock ↦
              if s.paused || not (should_promote e)
              then s
              else (let nodes = newest (s.nodes ++ node_of e ∷ []) in
                  apply_graph setting nodes (infer_edges nodes) none s)
          | _ ↦ s
        ])) [
          | mock ↦
              if_both Sound (s.paused || not (should_promote e)) _ _ (λ q. h)
                (λ q. Sound-apply_graph _ _ s (length-newest (s.nodes ++ node_of e ∷ [])))
          | _ ↦ h
        ]

  Sound-take_chain :
      (t : String) (c : Option Chain) (s : GraphPage) → Sound s → Sound (take_chain setting t c s)
  unfolding take_chain
  Sound-take_chain t none s h = h
  Sound-take_chain t (some c) s h =
      if_both Sound (ltb (length c.nodes) 2 || nat_eq (length c.edges) 0) _ _ (λ small. h)
        (λ big. Sound-apply_graph _ _ s (length-slice_last max_nodes (map node_of c.nodes)))

  Sound-fire_timer : (s : GraphPage) → Sound s → Sound (fire_timer s)
  unfolding fire_timer
  Sound-fire_timer s h =
      elim s.timer
        as (λ o. Sound (elim o [
          | none ↦ s
          | some transaction ↦ record s { timer = none; fetching = s.fetching ++ transaction ∷ [] }
        ])) [ none ↦ h | some t ↦ h ]

  Sound-step : (a : Action) (s : GraphPage) → Clickable a s → Sound s → Sound (step setting a s)
  unfolding step
  Sound-step (arrived ms) s c h = Sound-drain (record s { messages = ms }) h
  Sound-step (status_changed st) s c h = h
  Sound-step (ticked evt) s c h = Sound-mock_tick evt s h
  Sound-step pause_toggled s c h = Sound-drain (record s { paused = not s.paused }) h
  Sound-step deselected s c h = Sound-deselected s h
  Sound-step timer_fired s c h = Sound-fire_timer s h
  Sound-step cleared s c h = nothing_shown s
  Sound-step unmounted s c h = h
  Sound-step (clicked d) s c h = Sound-click_node d s c h
  Sound-step (replied t reply) s c h =
      if_both Sound (contains s.fetching t) _ _
        (λ waiting.
          Sound-take_chain t (fetch_causal_chain setting.env reply)
            (record s { fetching = drop_first t s.fetching }) h)
        (λ unknown. h)

  -- Where `localeCompare` orders strictly, and only nodes that are shown are clicked: whatever
  -- messages, events, clicks and replies come, the graph page shows at most 40 nodes of distinct ids,
  -- its edges join nodes that it shows and form no cycle, its two counts are right, and a selected node
  -- is one that it shows.
  pub page-Sound : (s : GraphPage) → Reach setting s → Sound s
  unfolding clear_graph
  page-Sound _ start = nothing_shown initial
  page-Sound _ (next {s} a c r) = Sound-step a s c (page-Sound s r)

-- ===== src/GraphPage/Race.antt =====
-- Two requests for causal chains under way at once, and their replies.
use kprobe.Base.{
  ◌≤◌, ◌<◌, ◌≡◌, refl, sym, ap, ◌∙◌, subst, String, true, false, none, some, List, [], ◌∷◌, ◌++◌,
  map, Memᴰ, arith, length, ltb, nat_eq, ◌||◌, ◌==◌, string_key, if◌then◌else◌, slice_last,
  contains, contains_iff,
}
use kprobe.Causal.{Chain, fetch_causal_chain}
use kprobe.Connection.{Reply}
use kprobe.Graph.{GraphEdge, sanitize_graph, max_nodes}
use kprobe.GraphPage.{
  GraphPage, Setting, live, loading, api, node_of, edges_between, load_causal_chain, apply_graph,
  take_chain, step, replied, drop_first, fire_timer, timer_fired,
}
use kprobe.GraphPage.Requests.{given_up, load_again}

itself : (t : String) → (t == t) ≡ true
itself t = (string_key.same_iff t t).1 refl

alone :
    (t : String) (fetching : List String)
    → fetching ≡ t ∷ []
    → (contains fetching t ≡ true) × (drop_first t fetching ≡ [])
alone t fetching e =
    subst (λ f. (contains f t ≡ true) × (drop_first t f ≡ [])) (sym e)
      ((contains_iff t (t ∷ [])).1 (Memᴰ.head refl), rw (itself t) refl)

module _ (setting : Setting) where
  -- A chain that the page shows has two nodes and an edge at least.
  abbrev pub Arrives : Reply → Chain → Type 0
  Arrives reply c =
      (fetch_causal_chain setting.env reply ≡ some c) × (2 ≤ length c.nodes) × (0 < length c.edges)

  -- The edges that the page shows for a chain.
  abbrev pub edges_of : Chain → List GraphEdge
  edges_of c =
      (sanitize_graph setting.collation (slice_last max_nodes (map node_of c.nodes))
        (edges_between (slice_last max_nodes (map node_of c.nodes)) c.edges)).1

  -- A request that starts, and whose timer fires.
  abbrev pub ask : String → GraphPage → GraphPage
  ask transaction s = step setting timer_fired (load_causal_chain transaction s)

  abbrev asked : String → GraphPage → GraphPage
  asked transaction s = record s {
    requested = transaction;
    chain = record { transaction_id = transaction; status = loading };
    timer = none;
    fetching = s.fetching ++ transaction ∷ [];
  }

  ask-asked :
      (transaction : String) (s : GraphPage)
      → (transaction == "" || s.requested == transaction) ≡ false
      → ask transaction s ≡ asked transaction s
  unfolding load_causal_chain step fire_timer
  ask-asked transaction s h =
      subst (λ b. fire_timer (if b then s else new) ≡ asked transaction s) (sym h) refl
    where
      new : GraphPage
      new = record s {
        requested = transaction;
        chain = record { transaction_id = transaction; status = loading };
        timer = some transaction;
      }

  abbrev taken : String → Chain → GraphPage → GraphPage
  taken transaction c s =
      let nodes = slice_last max_nodes (map node_of c.nodes) in
      record (apply_graph setting nodes (edges_between nodes c.edges) none s) {
        chain = record { transaction_id = transaction; status = api };
      }

  take_chain-taken :
      (transaction : String) (reply : Reply) (c : Chain) (s : GraphPage)
      → Arrives reply c
      → take_chain setting transaction (fetch_causal_chain setting.env reply) s
        ≡ taken transaction c s
  unfolding take_chain
  take_chain-taken transaction reply c s (fetched, h, k) =
      ap (λ o. take_chain setting transaction o s) fetched
      ∙ subst
          (λ b.
            (if b then given_up transaction live s else taken transaction c s)
            ≡ taken transaction c s)
          (sym enough) refl
    where
      enough : (ltb (length c.nodes) 2 || nat_eq (length c.edges) 0) ≡ false
      enough = ground arith

  -- The reply to a request that is under way.
  step-taken :
      (transaction : String) (reply : Reply) (c : Chain) (s : GraphPage)
      → Arrives reply c
      → contains s.fetching transaction ≡ true
      → step setting (replied transaction reply) s
        ≡ taken transaction c (record s { fetching = drop_first transaction s.fetching })
  unfolding step
  step-taken transaction reply c s arrives waiting =
      subst
        (λ b.
          (if b
            then take_chain setting transaction (fetch_causal_chain setting.env reply) rest
            else s)
          ≡ take_chain setting transaction (fetch_causal_chain setting.env reply) rest)
        (sym waiting) refl
      ∙ take_chain-taken transaction reply c rest arrives
    where
      rest : GraphPage
      rest = record s { fetching = drop_first transaction s.fetching }

  -- Of two requests under way, the second one's reply leaves the first.
  abbrev TwoUnderWay : String → String → List String → Type 0
  TwoUnderWay first second fetching =
      (contains fetching second ≡ true) × (drop_first second fetching ≡ first ∷ [])

  two-under-way :
      (first second : String) (fetching : List String)
      → fetching ≡ []
      → (first == second) ≡ false
      → TwoUnderWay first second ((fetching ++ first ∷ []) ++ second ∷ [])
  two-under-way first second fetching idle apart =
      subst (λ f. TwoUnderWay first second ((f ++ first ∷ []) ++ second ∷ [])) (sym idle)
        (
          (contains_iff second (first ∷ second ∷ [])).1 (Memᴰ.tail (Memᴰ.head refl)),
          rw (apart, itself second) refl,
        )

  -- What is left after the page took the chain of `first`, while `second` is the one requested.
  abbrev pub Overtaken : String → String → Chain → GraphPage → Type 0
  Overtaken first second c after =
      (after.chain ≡ record { transaction_id = first; status = api })
      × (after.edges ≡ edges_of c)
      × (after.timer ≡ none)
      × (after.fetching ≡ [])
      × (load_causal_chain second after ≡ after)

  -- The reply that comes last wins: on a page without a request under way, let a transaction that is
  -- not the one requested be requested, and then another one, both ids not empty and both after their
  -- timers, and let both replies bring a chain of at least two nodes and one edge, the second one's
  -- first. Then the page shows the chain and the edges of the first transaction, no request is under
  -- way any more, and a further message of the second transaction does not fetch its chain again, since
  -- it is still the one requested.
  pub step-replied :
      (first second : String) (reply1 reply2 : Reply) (c1 c2 : Chain) (s : GraphPage)
      → s.fetching ≡ []
      → (first == "" || s.requested == first) ≡ false
      → (second == "" || first == second) ≡ false
      → Arrives reply1 c1
      → Arrives reply2 c2
      → Overtaken first second c1 (
          step setting
            (replied first reply1)
            (step setting (replied second reply2) (ask second (ask first s))))
  unfolding apply_graph
  step-replied first second reply1 reply2 c1 c2 s idle new other one two =
      subst (Overtaken first second c1) (sym run)
        (refl, refl, refl, left.1, load_again second late same)
    where
      both : GraphPage
      both = asked second (asked first s)

      early : GraphPage
      early = taken second c2 (record both { fetching = drop_first second both.fetching })

      late : GraphPage
      late = taken first c1 (record early { fetching = drop_first first early.fetching })

      apart : (first == second) ≡ false
      apart = ground arith

      same : (second == "" || second == second) ≡ true
      same = ground (arith, itself second)

      both_wait : TwoUnderWay first second both.fetching
      both_wait = two-under-way first second s.fetching idle apart

      left : (contains early.fetching first ≡ true) × (drop_first first early.fetching ≡ [])
      left = alone first early.fetching both_wait.1

      run :
          step setting
            (replied first reply1)
            (step setting (replied second reply2) (ask second (ask first s)))
          ≡ late
      run =
          ap (λ x. step setting (replied first reply1) (step setting (replied second reply2) x))
            (ap (ask second) (ask-asked first s new) ∙ ask-asked second (asked first s) other)
          ∙ ap (step setting (replied first reply1))
              (step-taken second reply2 c2 both two both_wait.0)
          ∙ step-taken first reply1 c1 early one left.0

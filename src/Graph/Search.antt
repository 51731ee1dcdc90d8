-- ===== src/Graph/Search.antt =====
-- One search of `getPathIds`, in either direction: it ends, and finds the ends of the chains.
use kprobe.Base.{
  ℕ, zero, suc, ◌+◌, ◌≤◌, ◌<◌, ◌≡◌, refl, sym, ap, subst, ◌∙◌, ◌⊎◌, inl, inr, ⊎_elim, ◌↔◌, String,
  true, false, not, ◌&&◌, some, List, [], ◌∷◌, ◌++◌, Memᴰ, arith, length, length-append, All,
  All-of_Memᴰ, Bool-cases, string_key, ◌==◌, if◌then◌else◌, contains, contains_iff, add, Memᴰ-add,
  if_both,
}
use mathlib.Core.List.Memᴰ
use text.Mathlib.TextEquality.{eq_iff}
use kprobe.Graph.{GraphEdge, visit, visit_all, walk_queue}
use kprobe.Graph.Chains.{Chain, one, more}

abbrev State : Type 0
State = List String × List String

module _ (near far : GraphEdge → String) where
  -- The edges whose other end is not found yet.
  abbrev unseen : List String → List GraphEdge → ℕ
  unseen found [] = 0
  unseen found (e ∷ es) = (if contains found (far e) then 0 else 1) + unseen found es

  abbrev work : List GraphEdge → State → ℕ
  work edges s = unseen s.0 edges + length s.1

  contains-add :
      (s : List String) (a x : String) → contains s x ≡ true → contains (add s a) x ≡ true
  contains-add s a x h =
      (contains_iff x (add s a)).1 ((Memᴰ-add x a s).1 (inl ((contains_iff x s).0 h)))

  contains-add_self : (s : List String) (a : String) → contains (add s a) a ≡ true
  contains-add_self s a = (contains_iff a (add s a)).1 ((Memᴰ-add a a s).1 (inr refl))

  unseen-add-le :
      (found : List String) (a : String) (es : List GraphEdge)
      → unseen (add found a) es ≤ unseen found es
  unseen-add-le found a [] = omega arith
  unseen-add-le found a (e ∷ es) =
      ground (arith, contains-add found a (far e), unseen-add-le found a es)

  unseen-add-lt :
      (found : List String) (e : GraphEdge) (es : List GraphEdge)
      → contains found (far e) ≡ false
      → Memᴰ e es
      → unseen (add found (far e)) es < unseen found es
  unseen-add-lt found e [] h m = absurd (Memᴰ.not-nil m)
  unseen-add-lt found e (d ∷ es) h (Memᴰ.head p) =
      rw (← p)
        (rw (h, contains-add_self found (far e)) (omega (arith, unseen-add-le found (far e) es)))
  unseen-add-lt found e (d ∷ es) h (Memᴰ.tail m) =
      ground (arith, contains-add found (far e) (far d), unseen-add-lt found e es h m)

  visit-work :
      (edges : List GraphEdge) (cur : String) (e : GraphEdge) (s : State)
      → Memᴰ e edges
      → work edges (visit near far cur e s) ≤ work edges s
  visit-work edges cur e s m =
      if_both (λ (t : State). work edges t ≤ work edges s)
        (near e == cur && not (contains s.0 (far e))) _ _
        (λ new.
          omega (arith, unseen-add-lt s.0 e edges (ground arith) m, length-append s.1 (far e ∷ [])))
        (λ _. omega arith)

  visit_all-work :
      (edges : List GraphEdge) (cur : String) (es : List GraphEdge) (s : State)
      → All (λ e. Memᴰ e edges) es
      → work edges (visit_all near far cur es s) ≤ work edges s
  unfolding visit_all
  visit_all-work edges cur [] s h = omega arith
  visit_all-work edges cur (e ∷ es) s (p, h) =
      omega
        (arith, visit_all-work edges cur es (visit near far cur e s) h, visit-work edges cur e s p)

  All-in : (edges : List GraphEdge) → All (λ e. Memᴰ e edges) edges
  All-in edges = All-of_Memᴰ (λ e. Memᴰ e edges) edges (λ a m. m)

  unseen-nil : (es : List GraphEdge) → unseen [] es ≡ length es
  unseen-nil [] = refl
  unseen-nil (e ∷ es) = omega (arith, unseen-nil es)

  -- What one round has done to the two lists.
  record Round (es : List GraphEdge) (cur : String) (s t : State) : Type 0 where
    kept : (x : String) → Memᴰ x s.0 → Memᴰ x t.0
    waiting : (x : String) → Memᴰ x s.1 → Memᴰ x t.1
    fresh : (x : String) → Memᴰ x t.0 → Memᴰ x s.0 ⊎ Memᴰ x t.1
    queued : (x : String) → Memᴰ x t.1 → Memᴰ x s.1 ⊎ Memᴰ x t.0
    reached :
        (x : String)
        → Memᴰ x t.0
        → Memᴰ x s.0 ⊎ (e : GraphEdge) × Memᴰ e es × (near e ≡ cur) × (far e ≡ x)
    complete : (e : GraphEdge) → Memᴰ e es → near e ≡ cur → Memᴰ (far e) t.0

  Round-of_visit :
      (cur : String) (e : GraphEdge) (s : State) → Round (e ∷ []) cur s (visit near far cur e s)
  Round-of_visit cur e s = elim (Bool-cases (near e == cur && not (contains s.0 (far e)))) [
    | inl new ↦ rw new (added (ground arith))
    | inr old ↦ rw old (unchanged old)
  ]
    where
      added : (near e == cur) ≡ true → Round (e ∷ []) cur s (add s.0 (far e), s.1 ++ far e ∷ [])
      added here = record {
        kept = λ x m. (Memᴰ-add x (far e) s.0).1 (inl m);
        waiting = λ x m. Memᴰ.append_left _ m;
        fresh = λ x m.
            ⊎_elim inl (λ (p : x ≡ far e). inr (Memᴰ.append_right s.1 (Memᴰ.head p)))
              ((Memᴰ-add x (far e) s.0).0 m);
        queued = λ x m.
            ⊎_elim inl (λ l. inr ((Memᴰ-add x (far e) s.0).1 (inr (Memᴰ.eq_of_singleton l))))
              (Memᴰ.append_cases s.1 m);
        reached = λ x m.
            ⊎_elim inl
              (λ (p : x ≡ far e). inr (e, Memᴰ.head refl, (eq_iff (near e) cur).0 here, sym p))
              ((Memᴰ-add x (far e) s.0).0 m);
        complete =
            λ d m p. (Memᴰ-add (far d) (far e) s.0).1 (inr (ap far (Memᴰ.eq_of_singleton m)));
      }

      unchanged : (near e == cur && not (contains s.0 (far e))) ≡ false → Round (e ∷ []) cur s s
      unchanged old = record {
        kept = λ x m. m;
        waiting = λ x m. m;
        fresh = λ x m. inl m;
        queued = λ x m. inl m;
        reached = λ x m. inl m;
        complete =
            λ d m p. (contains_iff (far d) s.0).0 (seen_already d (Memᴰ.eq_of_singleton m) p old);
      }
        where
          seen_already :
              (d : GraphEdge)
              → d ≡ e
              → near d ≡ cur
              → (near e == cur && not (contains s.0 (far e))) ≡ false
              → contains s.0 (far d) ≡ true
          seen_already d same p old =
              rw same (ground (arith, eq_iff (near e) cur, sym (ap near same) ∙ p))

  Round-trans :
      (cur : String) (e : GraphEdge) (es : List GraphEdge) (s t u : State)
      → Round (e ∷ []) cur s t
      → Round es cur t u
      → Round (e ∷ es) cur s u
  Round-trans cur e es s t u a b = record {
    kept = λ x m. b.kept x (a.kept x m);
    waiting = λ x m. b.waiting x (a.waiting x m);
    fresh =
        λ x m. ⊎_elim (λ n. ⊎_elim inl (λ q. inr (b.waiting x q)) (a.fresh x n)) inr (b.fresh x m);
    queued =
        λ x m. ⊎_elim (λ n. ⊎_elim inl (λ q. inr (b.kept x q)) (a.queued x n)) inr (b.queued x m);
    reached = λ x m.
        ⊎_elim
          (λ n.
            ⊎_elim inl (λ w. inr (w.0, Memᴰ.head (Memᴰ.eq_of_singleton w.1), w.2, w.3))
              (a.reached x n))
          (λ w. inr (w.0, Memᴰ.tail w.1, w.2, w.3)) (b.reached x m);
    complete = λ d m p.
        ⊎_elim (λ (q : d ≡ e). b.kept _ (a.complete d (Memᴰ.head q) p)) (λ n. b.complete d n p)
          (Memᴰ.cases_cons m);
  }

  Round-of_visit_all :
      (cur : String) (es : List GraphEdge) (s : State)
      → Round es cur s (visit_all near far cur es s)
  unfolding visit_all
  Round-of_visit_all cur [] s = record {
    kept = λ x m. m;
    waiting = λ x m. m;
    fresh = λ x m. inl m;
    queued = λ x m. inl m;
    reached = λ x m. inl m;
    complete = λ d m p. absurd (Memᴰ.not-nil m);
  }
  Round-of_visit_all cur (e ∷ es) s =
      Round-trans cur e es s (visit near far cur e s) _ (Round-of_visit cur e s)
        (Round-of_visit_all cur es (visit near far cur e s))

  -- What holds of the found ids and the queue between two rounds.
  record Inv (edges : List GraphEdge) (start : String) (s : State) : Type 0 where
    sound : (x : String) → Memᴰ x s.0 → Chain near far edges start x
    origin : (x : String) → Memᴰ x s.1 → (x ≡ start) ⊎ Memᴰ x s.0
    closed :
        (x : String)
        → (x ≡ start) ⊎ Memᴰ x s.0
        → Memᴰ x s.1 ⊎ ((e : GraphEdge) → Memᴰ e edges → near e ≡ x → Memᴰ (far e) s.0)

  Inv-Round :
      (edges : List GraphEdge) (start cur : String) (found queue : List String) (t : State)
      → Inv edges start (found, cur ∷ queue)
      → Round edges cur (found, queue) t
      → Inv edges start t
  Inv-Round edges start cur found queue t i r = record {
    sound = λ x m.
        ⊎_elim (i.sound x)
          (λ w.
            ⊎_elim (λ (p : cur ≡ start). one w.0 w.1 (w.2 ∙ p) w.3)
              (λ q. more w.0 (i.sound cur q) w.1 w.2 w.3) (i.origin cur (Memᴰ.head refl)))
          (r.reached x m);
    origin = λ x m.
        ⊎_elim (λ q. ⊎_elim inl (λ f. inr (r.kept x f)) (i.origin x (Memᴰ.tail q))) inr
          (r.queued x m);
    closed = λ x h.
        ⊎_elim (λ (p : x ≡ start). old x (i.closed x (inl p)))
          (λ m. ⊎_elim (λ f. old x (i.closed x (inr f))) inl (r.fresh x m)) h;
  }
    where
      old :
          (x : String)
          → Memᴰ x (cur ∷ queue)
            ⊎ ((e : GraphEdge) → Memᴰ e edges → near e ≡ x → Memᴰ (far e) found)
          → Memᴰ x t.1 ⊎ ((e : GraphEdge) → Memᴰ e edges → near e ≡ x → Memᴰ (far e) t.0)
      old x (inl m) =
          ⊎_elim (λ (p : x ≡ cur). inr (λ e n q. r.complete e n (q ∙ p))) (λ q. inl (r.waiting x q))
            (Memᴰ.cases_cons m)
      old x (inr f) = inr (λ e n q. r.kept (far e) (f e n q))

  done :
      (edges : List GraphEdge) (start : String) (found : List String)
      → Inv edges start (found, [])
      → (x : String) → Chain near far edges start x
      → Memᴰ x found
  done edges start found i x (one e m p q) =
      ⊎_elim (λ n. absurd (Memᴰ.not-nil n)) (λ f. subst (λ v. Memᴰ v found) q (f e m p))
        (i.closed start (inl refl))
  done edges start found i x (more {b} e c m p q) =
      ⊎_elim (λ n. absurd (Memᴰ.not-nil n)) (λ f. subst (λ v. Memᴰ v found) q (f e m p))
        (i.closed b (inr (done edges start found i b c)))

  loop_finds :
      (fuel : ℕ) (edges : List GraphEdge) (start : String) (s : State)
      → work edges s ≤ fuel
      → Inv edges start s
      → (found : List String) × (walk_queue near far fuel edges s ≡ some found)
        × ((x : String) → Memᴰ x found ↔ Chain near far edges start x)
  unfolding walk_queue
  loop_finds zero edges start (found, []) h i =
      (found, refl, λ x. (i.sound x, done edges start found i x))
  loop_finds zero edges start (found, cur ∷ queue) h i = absurd (omega arith)
  loop_finds (suc fuel) edges start (found, []) h i =
      (found, refl, λ x. (i.sound x, done edges start found i x))
  loop_finds (suc fuel) edges start (found, cur ∷ queue) h i =
      loop_finds fuel edges start (visit_all near far cur edges (found, queue))
        (omega (arith, visit_all-work edges cur edges (found, queue) (All-in edges)))
        (Inv-Round edges start cur found queue _ i (Round-of_visit_all cur edges (found, queue)))

  -- From one node, with fuel for a round for each edge and one more, the search ends and has found
  -- exactly the ids to which a chain leads.
  pub search_finds :
      (edges : List GraphEdge) (start : String)
      → (found : List String) × (walk_queue near far (suc (length edges)) edges ([], start ∷ [])
          ≡ some found)
        × ((x : String) → Memᴰ x found ↔ Chain near far edges start x)
  search_finds edges start =
      loop_finds (suc (length edges)) edges start ([], start ∷ []) (omega (arith, unseen-nil edges))
        record {
          sound = λ x m. absurd (Memᴰ.not-nil m);
          origin = λ x m. inl (Memᴰ.eq_of_singleton m);
          closed =
              λ x h. ⊎_elim (λ (p : x ≡ start). inl (Memᴰ.head p)) (λ m. absurd (Memᴰ.not-nil m)) h;
        }

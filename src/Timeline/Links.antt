-- ===== src/Timeline/Links.antt =====
-- The arcs that the timeline paints between events.
use kprobe.Base.{
  ℕ, suc, ◌+◌, ◌-◌, ◌≤◌, ◌≡◌, ◌≢◌, refl, sym, ap, ◌∙◌, subst, String, Option, none, some, List, [],
  ◌∷◌, ◌++◌, arith, Memᴰ, ltb, ◌==◌, string_key, length, if_both, Option-cases, inl, inr, ⊎_elim,
  get_elem?, All, All-append, All-of_Memᴰ, Memᴰ-All, Memᴰ-sort, Memᴰ-put, IsSorted, sort,
  sort-IsSorted, put, lookup, lookup-Memᴰ,
}
use Prim.{tt}
use kprobe.Json.{Num}
use kprobe.Event.{KernelEvent}
use kprobe.Timeline.{Timeline, get_vis_range, active_events}
use kprobe.Timeline.Canvas.{
  causal_window_ns, lanes_of, lane_index, vis_events, num_key, pid_groups, Link, earlier, link,
  with_link, links_between, links_of_group, links_of_groups, links,
}

-- The lane of an index that was found has the name that was looked for.
abbrev pub IsAt : List String → String → Option ℕ → Type 0
IsAt lanes service none = Unit
IsAt lanes service (some i) = get_elem? lanes i ≡ some service

lane_index-IsAt :
    (lanes : List String) (service : String) → IsAt lanes service (lane_index lanes service)
lane_index-IsAt [] service = tt
lane_index-IsAt (l ∷ ls) service =
    if_both (IsAt (l ∷ ls) service) (l == service) (some 0) _
      (λ here. ap some ((string_key.same_iff l service).0 here))
      (λ there. later (lane_index ls service) (lane_index-IsAt ls service))
  where
    later :
        (o : Option ℕ)
        → IsAt ls service o
        → IsAt (l ∷ ls) service (elim o [ none ↦ none | some i ↦ some (suc i) ])
    later none h = tt
    later (some i) h = h

-- An arc joins two events of one process, not farther apart than 8 ms, from the earlier to the later
-- one, between the lanes of their two services.
pub record IsDrawn (lanes : List String) (events : List KernelEvent) (l : Link) : Type 0 where
  pub from_there : Memᴰ l.from events
  pub to_there : Memᴰ l.to events
  pub same_process : l.from.pid ≡ l.to.pid
  pub in_order : l.from.timestamp_ns ≤ l.to.timestamp_ns
  pub near : l.to.timestamp_ns ≤ l.from.timestamp_ns + causal_window_ns
  pub apart : l.from.service ≢ l.to.service
  pub at_from : get_elem? lanes l.from_lane ≡ some l.from.service
  pub at_to : get_elem? lanes l.to_lane ≡ some l.to.service

module _ (lanes : List String) (events : List KernelEvent) where
  -- An event of the group of a process.
  abbrev Grouped : Num → KernelEvent → Type 0
  Grouped p e = (e.pid ≡ p) × Memᴰ e events

  abbrev Drawn : List Link → Type 0
  Drawn ls = All (IsDrawn lanes events) ls

  with-found :
      (p : Num) (a b : KernelEvent) (more : List Link) (si di : Option ℕ)
      → Grouped p a
      → Grouped p b
      → a.timestamp_ns ≤ b.timestamp_ns
      → b.timestamp_ns ≤ a.timestamp_ns + causal_window_ns
      → a.service ≢ b.service
      → IsAt lanes a.service si
      → IsAt lanes b.service di
      → Drawn more
      → Drawn (
          with_link
            (elim si [
              | none ↦ none
              | some i ↦ elim di [
                | none ↦ none
                | some j ↦ some (record { from = a; to = b; from_lane = i; to_lane = j })
              ]
            ])
            more)
  with-found p a b more none di ga gb order close other ha hb h = h
  with-found p a b more (some i) none ga gb order close other ha hb h = h
  with-found p a b more (some i) (some j) (pa, ma) (pb, mb) order close other ha hb h = (
    record {
      from_there = ma;
      to_there = mb;
      same_process = pa ∙ sym pb;
      in_order = order;
      near = close;
      apart = other;
      at_from = ha;
      at_to = hb;
    },
    h,
  )

  Drawn-link :
      (p : Num) (a b : KernelEvent) (more : List Link)
      → Grouped p a
      → Grouped p b
      → a.timestamp_ns ≤ b.timestamp_ns
      → Drawn more
      → Drawn (with_link (link lanes a b) more)
  Drawn-link p a b more ga gb order h =
      let With : Option Link → Type 0 = λ o. Drawn (with_link o more) in
      if_both With (ltb causal_window_ns (b.timestamp_ns - a.timestamp_ns)) none _ (λ far. h)
        (λ close.
          if_both With (a.service == b.service) none _ (λ same. h)
            (λ other.
              with-found p a b more (lane_index lanes a.service) (lane_index lanes b.service) ga gb
                order (ground arith) (ground (arith, string_key.same_iff a.service b.service))
                (lane_index-IsAt lanes a.service) (lane_index-IsAt lanes b.service) h))

  links_between-Drawn :
      (p : Num) (evts : List KernelEvent)
      → All (Grouped p) evts
      → IsSorted earlier evts
      → Drawn (links_between lanes evts)
  unfolding links_between
  links_between-Drawn p [] g s = tt
  links_between-Drawn p (a ∷ []) g s = tt
  links_between-Drawn p (a ∷ b ∷ es) (ga, (gb, g)) ((first, _), s) =
      Drawn-link p a b (links_between lanes (b ∷ es)) ga gb (ground arith)
        (links_between-Drawn p (b ∷ es) (gb, g) s)

  in_time : (evts : List KernelEvent) → IsSorted earlier (sort earlier evts)
  in_time evts =
      sort-IsSorted {0, 0} earlier (λ e. Unit) (λ a b h. ground arith) (λ a b c _ h k. ground arith)
        evts (All-of_Memᴰ (λ e. Unit) evts (λ e m. tt))

  links_of_group-Drawn :
      (p : Num) (evts : List KernelEvent) → All (Grouped p) evts → Drawn (links_of_group lanes evts)
  links_of_group-Drawn p evts g =
      if_both Drawn (ltb (length evts) 2) [] _ (λ few. tt)
        (λ more.
          links_between-Drawn p (sort earlier evts)
            (All-of_Memᴰ (Grouped p) (sort earlier evts)
              (λ e m. Memᴰ-All (Grouped p) evts g ((Memᴰ-sort earlier e evts).0 m)))
            (in_time evts))

  abbrev Group : Num × List KernelEvent → Type 0
  Group g = All (Grouped g.0) g.1

  links_of_groups-Drawn :
      (groups : List (Num × List KernelEvent))
      → All Group groups
      → Drawn (links_of_groups lanes groups)
  unfolding links_of_groups
  links_of_groups-Drawn [] h = tt
  links_of_groups-Drawn ((p, evts) ∷ groups) (g, h) =
      All-append (IsDrawn lanes events) (links_of_group lanes evts) (links_of_groups lanes groups)
        (links_of_group-Drawn p evts g) (links_of_groups-Drawn groups h)

  grown :
      (e : KernelEvent) (groups : List (Num × List KernelEvent))
      → Memᴰ e events
      → All Group groups
      → All (Grouped e.pid) (elim (lookup e.pid groups) [ none ↦ e ∷ [] | some g ↦ g ++ e ∷ [] ])
  grown e groups m h = elim (Option-cases (lookup e.pid groups)) [
    | inl new ↦ rw new ((refl, m), tt)
    | inr (g, found) ↦ rw found (
        All-append (Grouped e.pid) g (e ∷ [])
          (Memᴰ-All Group groups h (lookup-Memᴰ e.pid g groups found)) ((refl, m), tt))
  ]

  pid_groups-Group :
      (es : List KernelEvent) (groups : List (Num × List KernelEvent))
      → All (λ e. Memᴰ e events) es
      → All Group groups
      → All Group (pid_groups es groups)
  unfolding pid_groups
  pid_groups-Group [] groups t h = h
  pid_groups-Group (e ∷ es) groups (m, t) h = pid_groups-Group es (put e.pid group groups) t (
      All-of_Memᴰ Group (put e.pid group groups) (λ x q.
        ⊎_elim (λ same. subst Group (sym same) (grown e groups m h)) (Memᴰ-All Group groups h)
          (Memᴰ-put e.pid group groups x q)))
    where
      group : List KernelEvent
      group = elim (lookup e.pid groups) [ none ↦ e ∷ [] | some g ↦ g ++ e ∷ [] ]

-- Every arc joins two visible events of one process and of different services, from the earlier one to
-- one that is at most 8 ms later, between the lanes of their services.
pub links-IsDrawn :
    (s : Timeline)
    → All
        (IsDrawn (lanes_of s) (vis_events (get_vis_range s (active_events s)) (active_events s)))
        (links s)
unfolding links
links-IsDrawn s = links_of_groups-Drawn (lanes_of s) visible (pid_groups visible []) (
    pid_groups-Group (lanes_of s) visible visible []
      (All-of_Memᴰ (λ e. Memᴰ e visible) visible (λ e m. m)) tt)
  where
    visible : List KernelEvent
    visible = vis_events (get_vis_range s (active_events s)) (active_events s)

-- ===== src/Timeline/Canvas.antt =====
-- What the timeline page of console/src/pages/Timeline.tsx paints: the distance of the ruler's ticks,
-- the bars of the events and the arcs between them, as data. The ruler itself, positions across the
-- canvas and what of it is cut off are not modelled.
use kprobe.Base.{
  ℕ, suc, ◌+◌, ◌-◌, ◌*◌, String, Bool, true, false, not, ◌&&◌, Option, none, some, List, [], ◌∷◌,
  ◌++◌, ltb, leb, nat_eq, if◌then◌else◌, Key, ◌==◌, string_key, length, filter, put, lookup, sort,
  ◌≡◌, ◌↔◌, arith,
}
use kprobe.Json.{Num, nan, pos_inf, neg_inf, pos, negsuc}
use kprobe.Event.{KernelEvent, is_slow}
use kprobe.Timeline.{
  Timeline, VisRange, placed, get_vis_range, active_events, get_timeline_lanes, bar_ns,
}

abbrev pub causal_window_ns : ℕ
causal_window_ns = 8_000_000

-- The lanes that are drawn.
abbrev pub lanes_of : Timeline → List String
lanes_of s =
    get_timeline_lanes (if ltb 0 (length (active_events s)) then active_events s else s.events)

-- `laneByService.get(…)`, where no lane occurs twice.
abbrev pub lane_index : List String → String → Option ℕ
lane_index [] service = none
lane_index (l ∷ ls) service =
    let rest = lane_index ls service in
    if l == service then some 0 else elim rest [ none ↦ none | some i ↦ some (suc i) ]

abbrev pub is_visible : VisRange → KernelEvent → Bool
is_visible vis e =
    leb vis.end (placed vis e.timestamp_ns + 5_000_000)
    && leb (e.timestamp_ns + vis.offset) (vis.end + 5_000_000)

abbrev pub vis_events : VisRange → List KernelEvent → List KernelEvent
vis_events vis events = filter (is_visible vis) events

abbrev pub tick_mags : List ℕ
tick_mags =
    1_000 ∷ 10_000 ∷ 100_000 ∷ 1_000_000 ∷ 10_000_000 ∷ 100_000_000 ∷ 1_000_000_000 ∷ 10_000_000_000
    ∷ []

-- The loop over the magnitudes; a range over 8 is at most `m` where it is at most 8 times `m`.
abbrev pub choose_tick : ℕ → ℕ → List ℕ → ℕ
choose_tick range tick [] = tick
choose_tick range tick (m ∷ ms) =
    let rest = choose_tick range m ms in if leb range (8 * m) then m else rest

abbrev pub tick_ns : VisRange → ℕ
tick_ns vis = choose_tick vis.view 1_000 tick_mags

-- The keys of a `Map`: NaN is a key like any other.
abbrev pub same_num : Num → Num → Bool
same_num nan nan = true
same_num pos_inf pos_inf = true
same_num neg_inf neg_inf = true
same_num (pos a) (pos b) = nat_eq a b
same_num (negsuc a) (negsuc b) = nat_eq a b
same_num _ _ = false

pub same_num_iff : (a b : Num) → (same_num a b ≡ true) ↔ (a ≡ b)
same_num_iff a b = ground arith

instance abbrev pub num_key : Key Num
num_key = record { same = same_num; same_iff = same_num_iff }

-- `pidGroups`
unfoldable pub pid_groups :
    List KernelEvent → List (Num × List KernelEvent) → List (Num × List KernelEvent)
pid_groups [] groups = groups
pid_groups (e ∷ es) groups =
    pid_groups es
      (put e.pid (elim (lookup e.pid groups) [ none ↦ e ∷ [] | some g ↦ g ++ e ∷ [] ]) groups)

pub record Link : Type 0 where
  pub from : KernelEvent
  pub to : KernelEvent
  pub from_lane : ℕ
  pub to_lane : ℕ

abbrev pub earlier : KernelEvent → KernelEvent → Bool
earlier a b = leb a.timestamp_ns b.timestamp_ns

-- One round of the loop over neighbours; `b` is not earlier than `a`.
abbrev pub link : List String → KernelEvent → KernelEvent → Option Link
link lanes a b =
    if ltb causal_window_ns (b.timestamp_ns - a.timestamp_ns)
    then none
    else if a.service == b.service
    then none
    else elim (lane_index lanes a.service) [
      | none ↦ none
      | some si ↦ elim (lane_index lanes b.service) [
        | none ↦ none
        | some di ↦ some (record { from = a; to = b; from_lane = si; to_lane = di })
      ]
    ]

abbrev pub with_link : Option Link → List Link → List Link
with_link none links = links
with_link (some l) links = l ∷ links

unfoldable pub links_between : List String → List KernelEvent → List Link
links_between lanes [] = []
links_between lanes (a ∷ []) = []
links_between lanes (a ∷ b ∷ es) = with_link (link lanes a b) (links_between lanes (b ∷ es))

abbrev pub links_of_group : List String → List KernelEvent → List Link
links_of_group lanes evts =
    if ltb (length evts) 2 then [] else links_between lanes (sort earlier evts)

unfoldable pub links_of_groups : List String → List (Num × List KernelEvent) → List Link
unfolding links_between sort
links_of_groups lanes [] = []
links_of_groups lanes ((p, evts) ∷ groups) =
    links_of_group lanes evts ++ links_of_groups lanes groups

unfoldable pub links : Timeline → List Link
unfolding links_of_groups pid_groups put lookup
links s =
    links_of_groups (lanes_of s)
      (pid_groups (vis_events (get_vis_range s (active_events s)) (active_events s)) [])

pub record Bar : Type 0 where
  pub event : KernelEvent
  pub lane : ℕ
  pub duration_ns : ℕ
  pub slow : Bool
  pub is_selected : Bool
  pub dimmed : Bool

-- `selected?.id === e.id`
abbrev pub is_chosen : Option KernelEvent → KernelEvent → Bool
is_chosen none e = false
is_chosen (some x) e = x.id == e.id

abbrev pub bar : Option KernelEvent → KernelEvent → ℕ → Bar
bar selected e lane = record {
  event = e;
  lane = lane;
  duration_ns = bar_ns e;
  slow = is_slow e.duration_us;
  is_selected = is_chosen selected e;
  dimmed = elim selected [ none ↦ false | some x ↦ not (x.id == e.id) ];
}

unfoldable pub bars_of : Option KernelEvent → List String → List KernelEvent → List Bar
bars_of selected lanes [] = []
bars_of selected lanes (e ∷ es) =
    let rest = bars_of selected lanes es in
    elim (lane_index lanes e.service) [ none ↦ rest | some i ↦ bar selected e i ∷ rest ]

unfoldable pub bars : Timeline → List Bar
unfolding bars_of
bars s =
    bars_of s.selected (lanes_of s)
      (vis_events (get_vis_range s (active_events s)) (active_events s))

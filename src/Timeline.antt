-- ===== src/Timeline.antt =====
-- console/src/pages/Timeline.tsx: the state of the timeline page with its refs and what the
-- connection gives it; `step` is one callback. What is painted is in Timeline/Canvas.antt.
-- Times are whole nanoseconds. Since `visStartNs` may be negative, both sides of a comparison with it
-- are held with `offset + view` added (`placed`). A product or a quotient of numbers that are not
-- whole is an argument. `themeSwitchingRef` is never set and left out.
pub mod State
pub mod Canvas
pub mod Invariant
pub mod Log
pub mod Nearest
pub mod Links
pub mod Delivery
mod Tests
unfoldable pub use State.*
use kprobe.Base.{
  ℕ, zero, suc, ◌+◌, ◌-◌, ◌*◌, ◌/◌, String, Bool, true, false, not, ◌&&◌, ◌||◌, Option, none, some,
  List, [], ◌∷◌, ◌++◌, ltb, leb, nat_eq, if◌then◌else◌, ◌==◌, string_key, length, filter, contains,
  slice_last, get_elem?, add, min, max,
}
use kprobe.Json.{Codec, Numerals, pos, template}
use kprobe.Event.{KernelEvent, EventType, ConnectionStatus, connecting, mock, event_types, type_key}
use kprobe.Wire.{Env}
use kprobe.Connection.{ConnectionMessage}
use kprobe.Feed.{decode, is_new}

-- `e.durationUs ? e.durationUs * 1000 : 600_000`
abbrev pub bar_ns : KernelEvent → ℕ
bar_ns e = elim e.duration_us [
  | none ↦ 600_000
  | some us ↦ if nat_eq us 0 then 600_000 else us * 1_000
]

abbrev pub distance : ℕ → ℕ → ℕ
distance a b = max a b - min a b

-- Whether a click at the placed time `at` on the lane `lane` meets the event.
abbrev pub is_hit : VisRange → String → ℕ → KernelEvent → Bool
is_hit vis lane at e =
    e.service == lane
    && leb (placed vis e.timestamp_ns) (at + 300_000)
    && leb at (placed vis e.timestamp_ns + bar_ns e + 300_000)

-- One round of the loop that looks for the event nearest to a click.
abbrev pub nearer : VisRange → String → ℕ → KernelEvent → Option KernelEvent → Option KernelEvent
nearer vis lane at e best =
    if is_hit vis lane at e
    then elim best [
      | none ↦ some e
      | some b ↦
          if ltb (distance (placed vis e.timestamp_ns) at) (distance (placed vis b.timestamp_ns) at)
          then some e
          else some b
    ]
    else best

unfoldable pub nearest :
    VisRange → String → ℕ → List KernelEvent → Option KernelEvent → Option KernelEvent
nearest vis lane at [] best = best
nearest vis lane at (e ∷ es) best = nearest vis lane at es (nearer vis lane at e best)

-- `best && prev?.id !== best.id ? best : null`
abbrev pub select : Option KernelEvent → Option KernelEvent → Option KernelEvent
select best prev = elim best [
  | none ↦ none
  | some b ↦ elim prev [ none ↦ some b | some p ↦ if p.id == b.id then none else some b ]
]

unfoldable pub toggled : EventType → List EventType → List EventType
toggled t types =
    if contains types t
    then if nat_eq (length types) 1 then types else filter (λ u. not (u == t)) types
    else types ++ t ∷ []

-- Events are added behind those that the page has.
unfoldable pub append_events : List KernelEvent → Timeline → Timeline
append_events batch s = record s {
  events = slice_last max_events (s.events ++ batch);
  event_count = length (slice_last max_events (s.events ++ batch));
}

-- The events of `generateEvent` arrive by the interval that runs while the status is `mock`.
abbrev pub mock_tick : List KernelEvent → Timeline → Timeline
mock_tick batch s = elim s.status [ mock ↦ if s.paused then s else append_events batch s | _ ↦ s ]

abbrev pub clear : Timeline → Timeline
clear s = record s { messages = []; events = []; event_count = 0; selected = none }

pub data Action : Type 0 where
  arrived : List ConnectionMessage → Action
  status_changed : ConnectionStatus → Action
  ticked : List KernelEvent → Action
  pause_toggled escaped detail_closed cleared : Action
  resized : ℕ → ℕ → Action
  wheeled : Bool → Action  -- whether `deltaY > 0`
  clicked : ℕ → ℕ → Action  -- `mx` and `my`
  type_toggled : EventType → Action
  window_chosen : Window → Action

-- What the page is given; `product` is the product of a view with 1.25 or with 0.8, and `ahead` is
-- `((mx - LANE_LABEL_W) / plotW) * visRangeNs` at `mx`, the width of the page and the range.
pub record Setting : Type 0 where
  pub codec : Codec
  pub env : Env
  pub product : Bool → ℕ → ℕ
  pub ahead : ℕ → ℕ → ℕ → ℕ

module _ (setting : Setting) where
  open setting use {codec, env, product, ahead}

  abbrev pub zoom_to : ℕ → Timeline → Timeline
  zoom_to ns s = record s { view_ns = ns; zoom_label = fmt_ns codec.numerals ns }

  unfoldable pub handle_wheel : Bool → Timeline → Timeline
  handle_wheel up s = zoom_to (min max_view (max min_view (product up s.view_ns))) s

  abbrev pub choose_window : Window → Timeline → Timeline
  choose_window w s =
      let ns = (if nat_eq (seconds w) 0 then 30 else seconds w) * 1_000_000_000 in
      zoom_to ns (record s { time_window = w; offset_ns = 0 })

  -- The placed time of a click at `mx`.
  abbrev pub click_ns : VisRange → Timeline → ℕ → ℕ
  click_ns vis s mx = vis.end + ahead mx s.width vis.view

  -- A click on the lane with the number `lane`, if there is one.
  abbrev pub click_lane : Option String → ℕ → List KernelEvent → Timeline → Timeline
  click_lane none mx events s = record s { selected = none }
  click_lane (some lane) mx events s =
      let vis = get_vis_range s events in
      record s { selected = select (nearest vis lane (click_ns vis s mx) events none) s.selected }

  unfoldable pub handle_canvas_click : ℕ → ℕ → Timeline → Timeline
  unfolding get_timeline_lanes nearest
  handle_canvas_click mx my s =
      if ltb mx lane_label_w
      then record s { selected = none }
      else if nat_eq (length (active_events s)) 0
      then s
      else if ltb my ruler_h
      then record s { selected = none }
      else click_lane (get_elem? (get_timeline_lanes (active_events s)) ((my - ruler_h) / lane_h))
          mx (active_events s) s

  -- The events of pending messages, and the id of the last one.
  abbrev pub events_of : List ConnectionMessage → List KernelEvent
  events_of [] = []
  events_of (m ∷ ms) = elim (decode codec env m) [ none ↦ events_of ms | some e ↦ e ∷ events_of ms ]

  abbrev pub last_id : ℕ → List ConnectionMessage → ℕ
  last_id k [] = k
  last_id k (m ∷ ms) = last_id m.id ms

  abbrev pub pending : Timeline → List ConnectionMessage
  pending s = filter (is_new codec env s.processed) s.messages

  abbrev pub take_in : List KernelEvent → Timeline → Timeline
  take_in events s = if ltb 0 (length events) then append_events events s else s

  -- The effect on the messages and on `paused`.
  unfoldable pub drain : Timeline → Timeline
  drain s =
      if s.paused
      then s
      else take_in (events_of (pending s))
          (record s { processed = last_id s.processed (pending s) })

  unfoldable pub step : Action → Timeline → Timeline
  unfolding drain append_events toggled handle_wheel handle_canvas_click
  step (arrived ms) s = drain (record s { messages = ms })
  step (status_changed st) s = record s { status = st }
  step (ticked batch) s = mock_tick batch s
  step pause_toggled s = drain (record s { paused = not s.paused })
  step escaped s = record s { selected = none }
  step detail_closed s = record s { selected = none }
  step cleared s = clear s
  step (resized w h) s = record s { width = w; height = h }
  step (wheeled up) s = handle_wheel up s
  step (clicked mx my) s = handle_canvas_click mx my s
  step (type_toggled t) s = record s { active_types = toggled t s.active_types }
  step (window_chosen w) s = choose_window w s

-- ===== src/Timeline/State.antt =====
-- console/src/pages/Timeline.tsx: the state of the page, its lanes and the range of time that it shows.
use kprobe.Base.{
  ℕ, ◌+◌, String, Bool, false, Option, none, List, [], ◌∷◌, ltb, if◌then◌else◌, ◌==◌, string_key,
  filter, contains, slice_last, add,
}
use kprobe.Json.{Numerals, pos, template}
use kprobe.Event.{KernelEvent, EventType, ConnectionStatus, connecting, event_types, type_key}
use kprobe.Connection.{ConnectionMessage}

abbrev pub max_events : ℕ
max_events = 2_000

abbrev pub max_lanes : ℕ
max_lanes = 12

abbrev pub lane_h : ℕ
lane_h = 56

abbrev pub lane_label_w : ℕ
lane_label_w = 132

abbrev pub ruler_h : ℕ
ruler_h = 28

abbrev pub min_view : ℕ
min_view = 500_000

abbrev pub max_view : ℕ
max_view = 120_000_000_000

-- `TimeWindow`
pub data Window : Type 0 where
  one five thirty all : Window

abbrev pub seconds : Window → ℕ
seconds one = 1
seconds five = 5
seconds thirty = 30
seconds all = 0

-- `event.service || "kernel"`
abbrev pub lane_of : KernelEvent → String
lane_of e = if e.service == "" then "kernel" else e.service

abbrev pub lanes_from : List String → List KernelEvent → List String
lanes_from lanes [] = lanes
lanes_from lanes (e ∷ es) = lanes_from (add lanes (lane_of e)) es

unfoldable pub get_timeline_lanes : List KernelEvent → List String
unfolding add
get_timeline_lanes events = slice_last max_lanes (lanes_from [] events)

unfoldable pub fmt_ns : Numerals → ℕ → String
fmt_ns n ns =
    if ltb ns 1_000
    then template (n.print (pos ns) ∷ "ns" ∷ [])
    else if ltb ns 1_000_000
    then template (n.fixed ns 1_000 1 ∷ "µs" ∷ [])
    else if ltb ns 1_000_000_000
    then template (n.fixed ns 1_000_000 1 ∷ "ms" ∷ [])
    else template (n.fixed ns 1_000_000_000 2 ∷ "s" ∷ [])

pub record Timeline : Type 0 where
  pub events : List KernelEvent
  pub event_count : ℕ
  pub paused : Bool
  pub status : ConnectionStatus
  pub messages : List ConnectionMessage
  pub processed : ℕ  -- `processedMessageRef`
  pub time_window : Window
  pub view_ns : ℕ
  pub offset_ns : ℕ
  pub zoom_label : String
  pub selected : Option KernelEvent
  pub active_types : List EventType
  pub width : ℕ
  pub height : ℕ

abbrev pub initial : Timeline
initial = record {
  events = [];
  event_count = 0;
  paused = false;
  status = connecting;
  messages = [];
  processed = 0;
  time_window = five;
  view_ns = 5_000_000_000;
  offset_ns = 0;
  zoom_label = "5s";
  selected = none;
  active_types = event_types;
  width = 1_200;
  height = 400;
}

-- What `getVisRange` answers of which the page uses: the visible end is `end` less `offset`, the start
-- is `view` before it.
pub record VisRange : Type 0 where
  pub latest : ℕ
  pub end : ℕ
  pub offset : ℕ
  pub view : ℕ

abbrev pub latest_of : ℕ → List KernelEvent → ℕ
latest_of k [] = k
latest_of k (e ∷ es) = latest_of e.timestamp_ns es

-- Of events, which are not none where it is called.
abbrev pub get_vis_range : Timeline → List KernelEvent → VisRange
get_vis_range s events = record {
  latest = latest_of 0 events;
  end = latest_of 0 events + 100_000_000;
  offset = s.offset_ns;
  view = s.view_ns;
}

-- A time with `offset + view` added, where the visible range starts at `end`.
abbrev pub placed : VisRange → ℕ → ℕ
placed vis ns = ns + vis.offset + vis.view

abbrev pub active_events : Timeline → List KernelEvent
active_events s = filter (λ e. contains s.active_types e.kind) s.events

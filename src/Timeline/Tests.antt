-- ===== src/Timeline/Tests.antt =====
-- Runs of the timeline page on concrete events, and the theorems on it applied there.
use kprobe.Base.{
  false, if◌then◌else◌, ◌-◌, ◌*◌, ◌/◌, ◌≡◌, refl, true, none, some, Option, List, [], ◌∷◌, arith,
  length, All, add, add_all, sort, insert, put, lookup,
}
use kprobe.Json.Samples.{plain}
use kprobe.Event.{KernelEvent, sys_read, sys_write}
use kprobe.Graph.Samples.{event_at}
use kprobe.Timeline.{
  Timeline, Setting, VisRange, initial, get_vis_range, active_events, get_timeline_lanes,
  append_events, nearest, select, handle_canvas_click, click_ns, step, ticked, wheeled, arrived,
  status_changed, window_chosen, all,
}
use kprobe.Event.{mock}
use kprobe.Timeline.Canvas.{
  lanes_of, vis_events, tick_ns, links, links_of_groups, pid_groups, links_between,
}
use kprobe.Timeline.Invariant.{start, next, Sound, timeline-Sound}
use kprobe.Timeline.Log.{Logged, Implements, timeline-Implements}
use kprobe.Timeline.Nearest.{Finds, handle_canvas_click-nearest}
use kprobe.Connection.{
  Action as Activity, mount, history, offline, received, initial as connection_initial,
  step as connection_step, hydrate, ordered, unique_from, historical, run,
}
use kprobe.Feed.{decode}
use kprobe.Timeline.Delivery.{received_messages, new_message, with_event, step-received}
use kprobe.Timeline.Links.{IsDrawn, links-IsDrawn}

abbrev toy : Setting
toy = record {
  codec = record { numerals = plain; parse = λ s. none; stringify = λ v. "" };
  env = record { numerals = plain; clock = λ ms. none; now_ms = 5 };
  product = λ up view. if up then view * 5 / 4 else view * 4 / 5;
  ahead = λ mx width view. (mx - 132) * view / (width - 132);
}

abbrev read : KernelEvent
read = event_at "a" sys_read 1_000_000_000

-- A write of another service, 2 ms later.
abbrev write : KernelEvent
write = record (event_at "b" sys_write 1_002_000_000) { service = "db" }

abbrev two : Timeline
two = append_events (read ∷ write ∷ []) (record initial { width = 5_132 })

timeline-Sound_example : Sound (step toy (wheeled true) (step toy (window_chosen all) initial))
timeline-Sound_example =
    timeline-Sound toy (step toy (wheeled true) (step toy (window_chosen all) initial))
      (next (wheeled true) (next (window_chosen all) start))

abbrev mocked : Timeline
mocked = step toy (ticked (read ∷ write ∷ [])) (step toy (status_changed mock) initial)

timeline-Implements_example : Implements toy mocked (read ∷ write ∷ [])
unfolding step
timeline-Implements_example =
    timeline-Implements toy mocked (read ∷ write ∷ [])
      (Logged.next (ticked (read ∷ write ∷ [])) (Logged.next (status_changed mock) Logged.start))

-- The first lane is that of the read.
lane_of_read : get_timeline_lanes (active_events two) ≡ "kernel" ∷ "db" ∷ []
unfolding get_timeline_lanes append_events add
lane_of_read = refl

selects_read : (handle_canvas_click toy 5_030 60 two).selected ≡ some read
unfolding handle_canvas_click append_events nearest add get_timeline_lanes
selects_read = refl

handle_canvas_click-nearest_example :
    let vis = get_vis_range two (active_events two) in
    (best : Option KernelEvent) × ((handle_canvas_click toy 5_030 60 two).selected
      ≡ select best none)
    × Finds vis "kernel" (click_ns toy vis two 5_030) (active_events two) best
unfolding append_events get_timeline_lanes add
handle_canvas_click-nearest_example =
    handle_canvas_click-nearest toy 5_030 60 two "kernel" (omega arith) (omega arith) (omega arith)
      refl

abbrev five_seconds : VisRange
five_seconds = record {
  latest = 7_000_000_000;
  end = 7_100_000_000;
  offset = 0;
  view = 5_000_000_000;
}

ticks_of_seconds : tick_ns five_seconds ≡ 1_000_000_000
ticks_of_seconds = refl

joins_both : length (links two) ≡ 1
unfolding links links_of_groups pid_groups links_between append_events get_timeline_lanes add put
    lookup sort insert
joins_both = refl

links-IsDrawn_example :
    All
      (IsDrawn
        (lanes_of two)
        (vis_events (get_vis_range two (active_events two)) (active_events two)))
      (links two)
links-IsDrawn_example = links-IsDrawn two

-- The provider is mounted, and its history is empty.
abbrev opening : List Activity
opening = mount true ∷ history 1 false offline ∷ []

step-received_example :
    let c = run toy.codec opening connection_initial in
    let after = step toy (arrived (received_messages toy "w" c)) initial in
    (after.processed ≡ (connection_step toy.codec (received "w") c).sequence)
    × (after.events ≡ with_event toy (decode toy.codec toy.env (new_message toy "w" c)) [])
unfolding run connection_step connection_initial hydrate add_all ordered sort unique_from historical
step-received_example = step-received toy opening "w" initial refl refl refl refl refl

-- ===== src/Replay.antt =====
-- console/src/pages/Replay.tsx: the replay page. The record holds the state of `ReplayPage` and its
-- refs that are not copies of it; `step` is one callback, with the effect on `playing` that follows.
-- The playhead is counted in tenths of a microsecond and the times of animation frames in
-- microseconds, so a speed of a tenth of the real one is exact.
pub mod Invariant
pub mod Steps
pub mod Playback
mod Tests
use kprobe.Base.{
  ℕ, zero, suc, ◌+◌, ◌-◌, ◌*◌, min, String, Bool, true, false, not, ◌&&◌, ◌||◌, Option, none, some,
  List, [], ◌∷◌, ltb, leb, nat_eq, if◌then◌else◌, length, get_elem?, filter,
}
use kprobe.Incident.{ReplayEvent, Incident, Outcome, passed, Injections, default_injections}
use kprobe.Incident.Database.{inc_001}
use kprobe.Incident.Queue.{inc_002}
use kprobe.Incident.Wal.{inc_003}

abbrev pub incidents : List Incident
incidents = inc_001 ∷ inc_002 ∷ inc_003 ∷ []

-- In tenths.
abbrev pub speeds : List ℕ
speeds = 1 ∷ 5 ∷ 10 ∷ 20 ∷ 50 ∷ 100 ∷ []

-- Milliseconds in the unit of the playhead.
abbrev pub ms : ℕ → ℕ
ms n = n * 10_000

unfoldable pub outcome_flips : Incident → Injections → Bool
outcome_flips incident inj =
    leb incident.fix_timeout_ms inj.timeout_ms
    && (not inj.memory_pressure && ltb inj.network_latency_ms 200)

abbrev pub flag_eq : Bool → Bool → Bool
flag_eq true b = b
flag_eq false b = not b

unfoldable pub inj_is_modified : Injections → Bool
inj_is_modified inj =
    not (nat_eq inj.timeout_ms default_injections.timeout_ms)
    || (not (nat_eq inj.network_latency_ms default_injections.network_latency_ms)
        || (not (flag_eq inj.memory_pressure default_injections.memory_pressure)
            || not (nat_eq inj.cpu_throttle default_injections.cpu_throttle)))

pub record Replay : Type 0 where
  pub incident : Incident
  pub injections : Injections
  pub playing : Bool
  pub speed_idx : ℕ
  pub playhead : ℕ
  pub visible_count : ℕ
  pub frame_requested : Bool  -- `rafRef`
  pub last_ts : Option ℕ

abbrev pub initial : Replay
initial = record {
  incident = inc_001;
  injections = default_injections;
  playing = false;
  speed_idx = 2;
  playhead = 0;
  visible_count = 0;
  frame_requested = false;
  last_ts = none;
}

unfoldable pub outcome : Replay → Outcome
outcome s = if outcome_flips s.incident s.injections then passed else s.incident.original_outcome

abbrev pub reached : ℕ → ReplayEvent → Bool
reached playhead e = leb (ms e.offset_ms) playhead

unfoldable pub shown : Incident → ℕ → List ReplayEvent
shown incident playhead = filter (reached playhead) incident.events

unfoldable pub count_at : Incident → ℕ → ℕ
unfolding shown
count_at incident playhead = length (shown incident playhead)

-- `setPlayheadMs(p)` and `setVisibleCount` of the events of `incident` up to it.
abbrev pub seek : Incident → ℕ → Replay → Replay
seek incident p s = record s { playhead = p; visible_count = count_at incident p }

abbrev pub rewind : Replay → Replay
rewind s = record s { playhead = 0; visible_count = 0 }

abbrev pub pause : Replay → Replay
pause s = record s { playing = false }

abbrev pub speed_of : Replay → ℕ
speed_of s = elim (get_elem? speeds s.speed_idx) [ none ↦ 0 | some tenths ↦ tenths ]

-- The times of frames never go back.
abbrev pub elapsed : ℕ → Replay → ℕ
elapsed now s = elim s.last_ts [ none ↦ 0 | some last ↦ (now - last) * speed_of s ]

abbrev pub next_at : ℕ → Replay → ℕ
next_at now s = min (s.playhead + elapsed now s) (ms s.incident.duration_ms)

unfoldable pub tick : ℕ → Replay → Replay
unfolding count_at
tick now s =
    let moved = seek s.incident (next_at now s) (record s { last_ts = some now }) in
    if s.playing
    then if leb (ms s.incident.duration_ms) (next_at now s)
      then pause moved
      else record moved { frame_requested = true }
    else s

pub data Direction : Type 0 where
  back : Direction
  forward : Direction

abbrev pub target_of : Direction → ℕ → ℕ → ℕ
target_of back n cur = min (n - 1) (cur - 2)
target_of forward n cur = min (n - 1) (cur + 1)

-- Where `handleStep` puts the playhead, from `cur` events of `incident` that are visible.
unfoldable pub step_target : Incident → ℕ → Direction → ℕ
step_target incident cur dir =
    elim (get_elem? incident.events (target_of dir (length incident.events) cur)) [
      | some e ↦ ms e.offset_ms
      | none ↦ elim dir [ forward ↦ ms incident.duration_ms | back ↦ 0 ]
    ]

abbrev pub step_from : Incident → ℕ → Direction → Replay → Replay
step_from incident cur dir s = seek incident (step_target incident cur dir) (pause s)

unfoldable pub handle_step : Direction → Replay → Replay
unfolding step_target count_at
handle_step dir s = step_from s.incident (count_at s.incident s.playhead) dir s

-- The handler of the arrow keys is the `handleStep` of the first render, since its effect runs once:
-- the incident and the playhead that it reads are those of the initial state.
unfoldable pub key_step : Direction → Replay → Replay
unfolding step_target count_at
key_step dir s = step_from initial.incident (count_at initial.incident initial.playhead) dir s

unfoldable pub handle_select_incident : Incident → Replay → Replay
handle_select_incident inc s =
    rewind (record s { incident = inc; playing = false; injections = default_injections })

unfoldable pub handle_play : Replay → Replay
handle_play s =
    if leb (ms s.incident.duration_ms) s.playhead
    then record (rewind s) { playing = true }
    else record s { playing = true }

unfoldable pub handle_space : Replay → Replay
unfolding handle_play
handle_space s = if s.playing then pause s else handle_play s

unfoldable pub handle_scrub : ℕ → Replay → Replay
unfolding count_at
handle_scrub to s = seek s.incident (ms to) (pause s)

unfoldable pub handle_reset : Replay → Replay
handle_reset s = rewind (pause s)

unfoldable pub handle_marker_click : ℕ → Replay → Replay
unfolding count_at
handle_marker_click offset s = seek s.incident (ms offset) (pause s)

pub data Key : Type 0 where
  space arrow_left arrow_right other : Key

-- `true` is a key pressed in an input, a text area or a select.
unfoldable pub on_key : Bool → Key → Replay → Replay
unfolding handle_space key_step
on_key true k s = s
on_key false space s = handle_space s
on_key false arrow_left s = key_step back s
on_key false arrow_right s = key_step forward s
on_key false other s = s

pub data Slider : Type 0 where
  timeout latency throttle : Slider

abbrev pub slide : Slider → ℕ → Injections → Injections
slide timeout v inj = record inj { timeout_ms = v }
slide latency v inj = record inj { network_latency_ms = v }
slide throttle v inj = record inj { cpu_throttle = v }

abbrev pub toggle_memory : Injections → Injections
toggle_memory inj = record inj { memory_pressure = not inj.memory_pressure }

pub data Action : Type 0 where
  select : Incident → Action
  play pause_pressed reset escape memory_toggled injections_reset : Action
  stepped : Direction → Action
  scrubbed : ℕ → Action
  marker : ℕ → Action
  speed : ℕ → Action
  slid : Slider → ℕ → Action
  key : Bool → Key → Action
  frame : ℕ → Action

-- The effect on `playing` after a render in which it has changed.
abbrev pub settle : Bool → Replay → Replay
settle was s =
    if flag_eq was s.playing
    then s
    else if s.playing
    then record s { last_ts = none; frame_requested = true }
    else record s { frame_requested = false }

unfoldable pub handle : Action → Replay → Replay
unfolding tick handle_step handle_select_incident handle_play handle_scrub handle_reset
    handle_marker_click on_key
handle (select inc) s = handle_select_incident inc s
handle play s = handle_play s
handle pause_pressed s = pause s
handle reset s = handle_reset s
handle escape s = handle_reset s
handle memory_toggled s = record s { injections = toggle_memory s.injections }
handle injections_reset s = record s { injections = default_injections }
handle (stepped dir) s = handle_step dir s
handle (scrubbed v) s = handle_scrub v s
handle (marker offset) s = handle_marker_click offset s
handle (speed i) s = record s { speed_idx = i }
handle (slid slider v) s = record s { injections = slide slider v s.injections }
handle (key typing k) s = on_key typing k s
handle (frame now) s =
    if s.frame_requested then tick now (record s { frame_requested = false }) else s

unfoldable pub step : Action → Replay → Replay
unfolding handle
step a s = settle s.playing (handle a s)

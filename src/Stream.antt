-- ===== src/Stream.antt =====
-- console/src/pages/Stream.tsx: the live table of events. The record holds the state of `StreamPage`,
-- its refs, and what the connection gives it; `step` is one callback with the effects that follow.
-- Where the table stands is its own state: of its scrolling the page keeps `at_bottom`. Of an interval
-- that is not running no tick arrives.
pub mod Window
pub mod Once
pub mod Types
pub mod Details
pub mod Invariant
mod Tests
use kprobe.Base.{
  ℕ, zero, suc, ◌+◌, ◌-◌, String, Bool, true, false, not, ◌&&◌, ◌||◌, Option, none, some, List, [],
  ◌∷◌, ◌++◌, ltb, nat_eq, if◌then◌else◌, ◌==◌, string_key, length, drop, filter, any, contains, min,
  max,
}
use kprobe.Json.{Codec, Value}
use kprobe.Event.{KernelEvent, EventType, ConnectionStatus, connecting, mock, event_types, type_key}
use kprobe.Wire.{Env, Mapped, mapped, thrown, map_wire_event}
use kprobe.Connection.{ConnectionMessage}
use kprobe.Feed.{decode, is_new}

abbrev pub max_events : ℕ
max_events = 500

pub record Stream : Type 0 where
  pub events : List KernelEvent
  pub paused : Bool
  pub expanded_id : Option String
  pub active_types : List EventType
  pub eps : ℕ
  pub status : ConnectionStatus
  pub messages : List ConnectionMessage
  pub processed : ℕ  -- `processedMessageRef`
  pub event_count : ℕ  -- `eventCountRef`
  pub at_bottom : Bool  -- `atBottomRef`

abbrev pub initial : Stream
initial = record {
  events = [];
  paused = false;
  expanded_id = none;
  active_types = event_types;
  eps = 0;
  status = connecting;
  messages = [];
  processed = 0;
  event_count = 0;
  at_bottom = true;
}

abbrev pub keep_last : List KernelEvent → List KernelEvent
keep_last next = if ltb max_events (length next) then drop (length next - max_events) next else next

abbrev pub handle_new_event : KernelEvent → Stream → Stream
handle_new_event evt s = record s {
  event_count = suc s.event_count;
  events = keep_last (s.events ++ evt ∷ []);
}

abbrev pub filtered : Stream → List KernelEvent
filtered s = filter (λ e. contains s.active_types e.kind) s.events

-- The effect that closes the details of an event that is no longer shown.
abbrev pub close_gone : Stream → Stream
close_gone s = elim s.expanded_id [
  | none ↦ s
  | some id ↦
      if not (id == "") && not (any (λ e. e.id == id) (filtered s))
      then record s { expanded_id = none }
      else s
]

unfoldable pub toggle_type : EventType → Stream → Stream
toggle_type t s =
    if contains s.active_types t
    then if nat_eq (length s.active_types) 1
      then s
      else record s { active_types = filter (λ u. not (u == t)) s.active_types }
    else record s { active_types = s.active_types ++ t ∷ [] }

abbrev pub clear_events : Stream → Stream
clear_events s = record s { messages = []; events = []; expanded_id = none }

-- Whether less than 60 pixels are below what the table shows.
unfoldable pub handle_scroll : ℕ → ℕ → ℕ → Stream → Stream
handle_scroll top height client s = record s {
  at_bottom = ltb (max height (top + client) - min height (top + client)) 60;
}

abbrev pub click_row : KernelEvent → Stream → Stream
click_row evt s = elim s.expanded_id [
  | none ↦ record s { expanded_id = some evt.id }
  | some id ↦
      if id == evt.id
      then record s { expanded_id = none }
      else record s { expanded_id = some evt.id }
]

-- An event of `generateEvent` arrives by the interval that runs while the status is `mock`.
abbrev pub mock_tick : KernelEvent → Stream → Stream
mock_tick evt s = elim s.status [ mock ↦ if s.paused then s else handle_new_event evt s | _ ↦ s ]

pub data Action : Type 0 where
  arrived : List ConnectionMessage → Action
  status_changed : ConnectionStatus → Action
  ticked : KernelEvent → Action
  second pause_toggled details_closed cleared : Action
  type_toggled : EventType → Action
  row_clicked : KernelEvent → Action
  scrolled : ℕ → ℕ → ℕ → Action  -- `scrollTop`, `scrollHeight`, `clientHeight`

module _ (codec : Codec) (env : Env) where
  abbrev pub take_in : Option KernelEvent → Stream → Stream
  take_in none s = s
  take_in (some e) s = handle_new_event e s

  -- One round of the loop over the pending messages.
  abbrev pub process : ConnectionMessage → Stream → Stream
  process m s = record (take_in (decode codec env m) s) { processed = m.id }

  unfoldable pub process_all : List ConnectionMessage → Stream → Stream
  process_all [] s = s
  process_all (m ∷ ms) s = process_all ms (process m s)

  -- The effect on the messages and on `paused`.
  unfoldable pub drain : Stream → Stream
  unfolding process_all
  drain s = if s.paused then s else process_all (filter (is_new codec env s.processed) s.messages) s

  unfoldable pub handle : Action → Stream → Stream
  unfolding toggle_type drain handle_scroll
  handle (arrived ms) s = drain (record s { messages = ms })
  handle (status_changed st) s = record s { status = st }
  handle (ticked evt) s = mock_tick evt s
  handle second s = record s { eps = s.event_count; event_count = 0 }
  handle pause_toggled s = drain (record s { paused = not s.paused })
  handle details_closed s = record s { expanded_id = none }
  handle cleared s = clear_events s
  handle (type_toggled t) s = toggle_type t s
  handle (row_clicked evt) s = click_row evt s
  handle (scrolled top height client) s = handle_scroll top height client s

  unfoldable pub step : Action → Stream → Stream
  unfolding handle
  step a s = close_gone (handle a s)

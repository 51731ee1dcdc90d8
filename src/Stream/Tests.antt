-- ===== src/Stream/Tests.antt =====
-- Runs of the stream page on concrete messages, and the theorems on it applied there.
use kprobe.Base.{
  ◌≡◌, refl, none, some, List, [], ◌∷◌, ◌++◌, arith, ◌==◌, string_key, filter, slice_last,
  if◌then◌else◌,
}
use Prim.{tt}
use kprobe.Json.{Codec, Value, field, end, obj, str, num, pos}
use kprobe.Json.Samples.{plain}
use kprobe.Event.{sys_write, page_fault}
use kprobe.Wire.{Env}
use kprobe.Connection.{ConnectionMessage}
use kprobe.Feed.{is_new}
use kprobe.Stream.{Stream, initial, max_events, drain, arrived, type_toggled, handle, step}
use kprobe.Stream.Window.{decoded, drain-events}
use kprobe.Stream.Once.{arrived_grown}
use kprobe.Stream.Invariant.{start, next, Sound, stream-Sound}
use kprobe.Stream.Details.{Shown, Shown-step}

abbrev write : Value
write = obj (
    field "event_type" (str "sys_write")
      (field "timestamp_ns" (num (pos 9_000_000)) (field "duration_ns" (num (pos 1_500)) end)))

-- The text "w" is a write, and no other text is JSON.
abbrev toy : Codec
toy = record {
  numerals = plain;
  parse = λ s. if s == "w" then some write else none;
  stringify = λ v. "w";
}

abbrev noon : Env
noon = record { numerals = plain; clock = λ ms. none; now_ms = 5 }

abbrev first_two : List ConnectionMessage
first_two = record { id = 1; data_text = "w" } ∷ record { id = 2; data_text = "no JSON" } ∷ []

abbrev third : List ConnectionMessage
third = record { id = 3; data_text = "w" } ∷ []

abbrev waiting : Stream
waiting = record initial { messages = first_two ++ third }

drain-events_example :
    (drain toy noon waiting).events
    ≡ slice_last max_events
        ([] ++ decoded toy noon (filter (is_new toy noon 0) (first_two ++ third)))
drain-events_example = drain-events toy noon waiting refl (omega arith)

arrived_grown_example :
    handle toy noon (arrived (first_two ++ third)) (handle toy noon (arrived first_two) initial)
    ≡ handle toy noon (arrived (first_two ++ third)) initial
arrived_grown_example =
    arrived_grown toy noon 3 first_two third initial refl
      (omega arith, ((omega arith), tt), (omega arith, tt, tt))
      (
        omega arith,
        ((omega arith), ((omega arith), tt)),
        (omega arith, ((omega arith), tt), (omega arith, tt, tt)),
      )

stream-Sound_example :
    Sound (step toy noon (type_toggled page_fault) (step toy noon (arrived first_two) initial))
stream-Sound_example =
    stream-Sound toy noon
      (step toy noon (type_toggled page_fault) (step toy noon (arrived first_two) initial))
      (next (type_toggled page_fault) (next (arrived first_two) start))

Shown-step_example : Shown (step toy noon (type_toggled sys_write) waiting)
Shown-step_example = Shown-step toy noon (type_toggled sys_write) waiting

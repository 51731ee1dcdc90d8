-- ===== src/Wire/Tests.antt =====
-- A wire event and its reading, and the laws at it.
use kprobe.Base.{ℕ, ◌≡◌, refl, ◌↔◌, some}
use kprobe.Json.{
  pos, num, str, obj, null, arr, nil, end, field, Fields, to_text, to_number, first, prop,
}
use kprobe.Json.Samples.{plain}
use kprobe.Event.{EventType, KernelEvent, sys_write}
use kprobe.Wire.{
  Env, mapped, thrown, unknown_type, not_object, map_wire_event, build_event, type_of_name, timing,
  round_us,
}
use kprobe.Wire.Laws.{Accepts, Refused, map_wire_event_iff, map_wire_event-thrown}

abbrev noon : Env
noon = record {
  numerals = plain;
  clock = λ ms. some (record { hours = 12; minutes = 0; seconds = 0; millis = 0 });
  now_ms = 5;
}

abbrev sample : Fields
sample = field "event_type" (str "sys_write") (
    field "timestampNs" null
      (field "timestamp_ns" (num (pos 9_000_000)) (field "duration_ns" (num (pos 1_500)) end)))

abbrev event : KernelEvent
event = build_event noon sample 3 sys_write 9_000_000 1_500

reads_sample : map_wire_event noon (obj sample) 3 ≡ mapped event
unfolding map_wire_event build_event first prop to_number to_text type_of_name timing
reads_sample = refl

refuses_array : map_wire_event noon (arr nil) 3 ≡ thrown not_object
unfolding map_wire_event
refuses_array = refl

refuses_missing : map_wire_event noon (obj end) 3 ≡ thrown (unknown_type "missing")
unfolding map_wire_event first prop to_text type_of_name
refuses_missing = refl

sample_duration : event.duration_us ≡ some 2
unfolding build_event round_us
sample_duration = refl

map_wire_event_iff_example : (map_wire_event noon (obj sample) 3 ≡ mapped event) ↔ (
    (fs : Fields) × (t : EventType) × (ts : ℕ) × (dur : ℕ) × Accepts noon (obj sample) fs t ts dur
    × (event ≡ build_event noon fs 3 t ts dur))
map_wire_event_iff_example = map_wire_event_iff noon (obj sample) 3 event

map_wire_event-thrown_example : Refused noon (arr nil) not_object
map_wire_event-thrown_example = map_wire_event-thrown noon (arr nil) 3 not_object refuses_array

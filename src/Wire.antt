-- ===== src/Wire.antt =====
-- console/src/lib/wireEvent.ts: an event of the API or of the socket becomes a `KernelEvent`.
-- A `throw` is the result `thrown`. The local clock (`new Date(ms)` and its getters) and the current
-- time are arguments; `none` of the clock is an invalid date, whose getters give NaN.
pub mod Laws
mod Tests
use kprobe.Base.{
  ℕ, zero, suc, ◌+◌, ◌/◌, ◌*◌, String, Bool, true, false, Option, none, some, List, [], ◌∷◌, ltb,
  if◌then◌else◌, ◌==◌, Key, string_key, find,
}
use kprobe.Json.{
  Num, pos, nan, pos_inf, neg_inf, negsuc, Numerals, Value, null, num, str, arr, obj, bool, Fields,
  template, first, prop, or_else, coalesce, defined, to_text, to_number, pad_start,
}
use kprobe.Event.{EventType, KernelEvent, event_types, type_name}

pub data WireError : Type 0 where
  not_object : WireError
  unknown_type : String → WireError
  bad_timing : WireError

pub data Mapped {ℓ} (A : Type ℓ) : Type ℓ where
  mapped : A → Mapped A
  thrown : WireError → Mapped A

infixl 5 ◌>>=◌
abbrev pub ◌>>=◌ {ℓ κ} : {A : Type ℓ} {B : Type κ} → Mapped A → (A → Mapped B) → Mapped B
mapped a >>= f = f a
thrown e >>= f = thrown e

pub record Clock : Type 0 where
  pub hours : ℕ
  pub minutes : ℕ
  pub seconds : ℕ
  pub millis : ℕ

pub record Env : Type 0 where
  pub numerals : Numerals
  pub clock : ℕ → Option Clock
  pub now_ms : ℕ

unfoldable pub as_record : Value → Mapped Fields
as_record (obj fs) = mapped fs
as_record v = thrown not_object

-- `EVENT_TYPES.has(text)`
unfoldable pub type_of_name : String → Option EventType
unfolding type_name
type_of_name s = find (λ t. type_name t == s) event_types

-- The two guards on times: finite, the first above 0, the second not below 0.
unfoldable pub timing : Num → Num → Option (ℕ × ℕ)
timing (pos (suc ts)) (pos dur) = some (suc ts, dur)
timing _ _ = none

-- `Math.round(ns / 1000)`
unfoldable pub round_us : ℕ → ℕ
round_us ns = (ns + 500) / 1000

module _ (env : Env) where
  open env use {numerals, clock, now_ms}
  open numerals use {print}

  -- The text of a field, empty where the value is missing.
  abbrev pub text_field : Fields → List String → String
  text_field fs ks = to_text numerals (coalesce (first fs ks) (str ""))

  abbrev pad : Num → ℕ → String
  pad value length = pad_start length (print value)

  abbrev pub clock_text : Option Clock → String
  clock_text none = template (pad nan 2 ∷ ":" ∷ pad nan 2 ∷ ":" ∷ pad nan 2 ∷ "." ∷ pad nan 3 ∷ [])
  clock_text (some c) = template (
      pad (pos c.hours) 2
      ∷ ":"
      ∷ pad (pos c.minutes) 2
      ∷ ":"
      ∷ pad (pos c.seconds) 2
      ∷ "."
      ∷ pad (pos c.millis) 3
      ∷ [])

  abbrev pub ts_number : Fields → Num
  ts_number fs =
      to_number numerals
        (coalesce (first fs ("timestampNs" ∷ "timestamp_ns" ∷ [])) (num (pos (now_ms * 1_000_000))))

  abbrev pub dur_number : Fields → Num
  dur_number fs =
      to_number numerals (coalesce (first fs ("durationNs" ∷ "duration_ns" ∷ [])) (num (pos 0)))

  abbrev pub raw_type : Fields → String
  raw_type fs = text_field fs ("eventType" ∷ "event_type" ∷ [])

  -- The object of the final `return`.
  unfoldable pub build_event : Fields → ℕ → EventType → ℕ → ℕ → KernelEvent
  build_event fs fallback_id t ts_ns dur_ns = record {
    id = to_text numerals (
        coalesce (first fs ("eventId" ∷ "event_id" ∷ []))
          (str (template ("ws-" ∷ print (pos fallback_id) ∷ []))));
    timestamp = clock_text (clock (ts_ns / 1_000_000));
    timestamp_ns = ts_ns;
    kind = t;
    pid = to_number numerals (coalesce (prop "pid" fs) (num (pos 0)));
    tid = to_number numerals (coalesce (prop "tid" fs) (coalesce (prop "pid" fs) (num (pos 0))));
    cpu = to_number numerals (coalesce (prop "cpu" fs) (num (pos 0)));
    service =
        to_text numerals (or_else (first fs ("serviceName" ∷ "service_name" ∷ [])) (str "kernel"));
    detail = to_text numerals (
        or_else (prop "detail" fs) (
          str (
            template (
              type_name t
              ∷ " · tid="
              ∷ to_text numerals (or_else (prop "tid" fs) (or_else (prop "pid" fs) (num (pos 0))))
              ∷ []))));
    duration_us = if ltb 0 dur_ns then some (round_us dur_ns) else none;
    meta =
        ("transaction_id", text_field fs ("transactionId" ∷ "transaction_id" ∷ []))
        ∷ ("trace_id", text_field fs ("traceId" ∷ "trace_id" ∷ []))
        ∷ ("span_id", text_field fs ("spanId" ∷ "span_id" ∷ []))
        ∷ [];
  }

  abbrev pub check_type : String → Mapped EventType
  check_type s = elim (type_of_name s) [
    | none ↦ thrown (unknown_type (if s == "" then "missing" else s))
    | some t ↦ mapped t
  ]

  abbrev pub check_timing : Num → Num → Mapped (ℕ × ℕ)
  check_timing ts dur = elim (timing ts dur) [ none ↦ thrown bad_timing | some p ↦ mapped p ]

  unfoldable pub map_wire_event : Value → ℕ → Mapped KernelEvent
  unfolding as_record
  map_wire_event raw fallback_id = do
    fs ← as_record raw
    t ← check_type (raw_type fs)
    times ← check_timing (ts_number fs) (dur_number fs)
    mapped (build_event fs fallback_id t times.0 times.1)

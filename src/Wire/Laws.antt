-- ===== src/Wire/Laws.antt =====
-- What `mapWireEvent` accepts, and what holds of the events that it returns.
use kprobe.Base.{
  ℕ, ap, ◌≢◌, zero, suc, ◌+◌, ◌*◌, ◌≤◌, ◌<◌, String, none, some, ◌≡◌, refl, sym, ◌∙◌, ◌↔◌, inl, inr,
  arith, if◌then◌else◌, ◌==◌, string_key, Option-cases,
}
use text.Mathlib.TextEquality.{eq_iff}
use kprobe.Json.{Num, pos, Value, obj, null, Fields}
use kprobe.Event.{
  EventType, KernelEvent, type_name, tcp_send, tcp_recv, tcp_retransmit, sys_write, sys_read,
  sched_switch, page_fault, block_io,
}
use kprobe.Wire.{
  WireError, not_object, unknown_type, bad_timing, Mapped, mapped, thrown, ◌>>=◌, Env, as_record,
  type_of_name, timing, round_us, ts_number, dur_number, raw_type, build_event, check_type,
  check_timing, map_wire_event,
}

pub type_of_name-type_name : (t : EventType) → type_of_name (type_name t) ≡ some t
unfolding type_of_name
type_of_name-type_name tcp_send = refl
type_of_name-type_name tcp_recv = refl
type_of_name-type_name tcp_retransmit = refl
type_of_name-type_name sys_write = refl
type_of_name-type_name sys_read = refl
type_of_name-type_name sched_switch = refl
type_of_name-type_name page_fault = refl
type_of_name-type_name block_io = refl

pub type_of_name-some : (s : String) (t : EventType) → type_of_name s ≡ some t → s ≡ type_name t
unfolding type_of_name
type_of_name-some s t h = ground (
  arith,
  eq_iff "tcp_send" s,
  eq_iff "tcp_recv" s,
  eq_iff "tcp_retransmit" s,
  eq_iff "sys_write" s,
  eq_iff "sys_read" s,
  eq_iff "sched_switch" s,
  eq_iff "page_fault" s,
  eq_iff "block_io" s,
)

timing-some :
    (a b : Num) (p : ℕ × ℕ) → timing a b ≡ some p → (a ≡ pos p.0) × (b ≡ pos p.1) × (0 < p.0)
unfolding timing
timing-some (pos (suc a)) (pos b) p h = ground arith
timing-some _ _ p h = cc

timing_of : (ts dur : ℕ) → 0 < ts → timing (pos ts) (pos dur) ≡ some (ts, dur)
unfolding timing
timing_of zero dur h = absurd (omega arith)
timing_of (suc ts) dur h = refl

>>=-mapped {ℓ κ} :
    {A : Type ℓ} {B : Type κ} (m : Mapped A) (f : A → Mapped B) {b : B}
    → (m >>= f) ≡ mapped b
    → (a : A) × (m ≡ mapped a) × (f a ≡ mapped b)
>>=-mapped (mapped a) f h = (a, refl, h)
>>=-mapped (thrown e) f h = cc

module _ (env : Env) where
  -- What the function asks of its argument, without reference to how it checks it.
  pub record Accepts (raw : Value) (fs : Fields) (t : EventType) (ts dur : ℕ) : Type 0 where
    pub is_object : raw ≡ obj fs
    pub known : raw_type env fs ≡ type_name t
    pub finite_ts : ts_number env fs ≡ pos ts
    pub positive : 0 < ts
    pub finite_dur : dur_number env fs ≡ pos dur

  check_type-type_name : (t : EventType) → check_type env (type_name t) ≡ mapped t
  check_type-type_name t = rw (type_of_name-type_name t, check_type) refl

  check_type-mapped : (s : String) (t : EventType) → check_type env s ≡ mapped t → s ≡ type_name t
  check_type-mapped s t h = elim (Option-cases (type_of_name s)) [
    | inl miss ↦ absurd (cc (rw (miss, check_type) at h))
    | inr (u, known) ↦ type_of_name-some s t (known ∙ same (rw (known, check_type) at h))
  ]
    where
      same : {u : EventType} → mapped u ≡ mapped t → some u ≡ some t
      same q = cc

  check_timing-mapped :
      (a b : Num) (p : ℕ × ℕ) → check_timing env a b ≡ mapped p → timing a b ≡ some p
  check_timing-mapped a b p h = elim (Option-cases (timing a b)) [
    | inl miss ↦ absurd (cc (rw (miss, check_timing) at h))
    | inr (q, known) ↦ known ∙ same (rw (known, check_timing) at h)
  ]
    where
      same : {q : ℕ × ℕ} → mapped q ≡ mapped p → some q ≡ some p
      same r = cc

  Accepts-mapped :
      (raw : Value) (id : ℕ) (fs : Fields) (t : EventType) (ts dur : ℕ)
      → Accepts raw fs t ts dur
      → map_wire_event env raw id ≡ mapped (build_event env fs id t ts dur)
  unfolding map_wire_event
  Accepts-mapped raw id fs t ts dur a =
      rw (a.is_object, as_record)
        (rw (a.known, check_type-type_name t, a.finite_ts, a.finite_dur)
          (rw (timing_of ts dur a.positive, check_timing) refl))

  mapped-Accepts :
      (raw : Value) (id : ℕ) (e : KernelEvent)
      → map_wire_event env raw id ≡ mapped e
      → (fs : Fields) × (t : EventType) × (ts : ℕ) × (dur : ℕ) × Accepts raw fs t ts dur
        × (e ≡ build_event env fs id t ts dur)
  unfolding map_wire_event
  mapped-Accepts (obj fs) id e h =
      let (t, known, h') = >>=-mapped (check_type env (raw_type env fs)) _ h in
      let (p, times, built) =
        >>=-mapped (check_timing env (ts_number env fs) (dur_number env fs)) _ h' in
      let (a, b, c) = timing-some _ _ p (check_timing-mapped _ _ p times) in
      (
        fs,
        t,
        p.0,
        p.1,
        record {
          is_object = refl;
          known = check_type-mapped _ t known;
          finite_ts = a;
          positive = c;
          finite_dur = b;
        },
        same built,
      )
    where
      same : {x : KernelEvent} → mapped x ≡ mapped e → e ≡ x
      same q = cc
  mapped-Accepts _ id e h = absurd (cc h)

  -- An event is returned exactly where the value is an object whose type text names one of the
  -- eight event types and whose two times are integers, the timestamp above 0 and the duration not
  -- below; it is then the event built from those parts.
  pub map_wire_event_iff :
      (raw : Value) (id : ℕ) (e : KernelEvent)
      → (map_wire_event env raw id ≡ mapped e) ↔ (
          (fs : Fields) × (t : EventType) × (ts : ℕ) × (dur : ℕ) × Accepts raw fs t ts dur
          × (e ≡ build_event env fs id t ts dur))
  map_wire_event_iff raw id e = (
    mapped-Accepts raw id e,
    λ w. Accepts-mapped raw id w.0 w.1 w.2 w.3 w.4 ∙ sym (ap mapped w.5),
  )

  -- Of a returned event the timestamp is above 0; the duration is null exactly where the wire's
  -- nanoseconds are 0, and else it is their number of microseconds, at most 500 ns away.
  pub map_wire_event-duration :
      (raw : Value) (id : ℕ) (e : KernelEvent)
      → map_wire_event env raw id ≡ mapped e
      → (fs : Fields) × (dur : ℕ) × (raw ≡ obj fs)
        × (dur_number env fs ≡ pos dur)
        × (0 < e.timestamp_ns)
        × ((e.duration_us ≡ none) ↔ (dur ≡ 0))
        × ((us : ℕ) → e.duration_us ≡ some us → (1000 * us ≤ dur + 500) × (dur < 1000 * us + 500))
  unfolding build_event round_us
  map_wire_event-duration raw id e h =
      let (fs, t, ts, dur, a, built) = mapped-Accepts raw id e h in
      (
        fs,
        dur,
        a.is_object,
        a.finite_dur,
        rw built a.positive,
        rw built (ground arith),
        λ us. rw built (λ q. ground arith),
      )

-- Why a value is refused, in the order in which the code looks.
pub data Refused (env : Env) (raw : Value) : WireError → Type 0 where
  no_object : ((fs : Fields) → raw ≢ obj fs) → Refused env raw not_object
  no_type :
      (fs : Fields) (x : WireError)
      → raw ≡ obj fs
      → ((t : EventType) → raw_type env fs ≢ type_name t)
      → x ≡ unknown_type (if raw_type env fs == "" then "missing" else raw_type env fs)
      → Refused env raw x
  no_times :
      (fs : Fields) (t : EventType) (x : WireError)
      → raw ≡ obj fs
      → raw_type env fs ≡ type_name t
      → ((ts dur : ℕ) → ts_number env fs ≡ pos ts → dur_number env fs ≡ pos dur → ts ≡ 0)
      → x ≡ bad_timing
      → Refused env raw x

module _ (env : Env) where
  Refused-type :
      (fs : Fields) (id : ℕ) (x : WireError)
      → type_of_name (raw_type env fs) ≡ none
      → map_wire_event env (obj fs) id ≡ thrown x
      → Refused env (obj fs) x
  unfolding map_wire_event
  Refused-type fs id x miss h =
      no_type fs x refl
        (λ t e. clash (sym (type_of_name-type_name t) ∙ ap type_of_name (sym e) ∙ miss))
        (out (rw (miss, check_type) at h))
    where
      clash : {t : EventType} → some t ≡ none → ⊥
      clash q = cc

      out : {y : WireError} → ◌≡◌ {A = Mapped KernelEvent} (thrown y) (thrown x) → x ≡ y
      out q = cc

  Refused-times :
      (fs : Fields) (id : ℕ) (t : EventType) (x : WireError)
      → type_of_name (raw_type env fs) ≡ some t
      → timing (ts_number env fs) (dur_number env fs) ≡ none
      → map_wire_event env (obj fs) id ≡ thrown x
      → Refused env (obj fs) x
  unfolding map_wire_event
  Refused-times fs id t x known miss h =
      no_times fs t x refl (type_of_name-some _ t known)
        (λ ts dur a b. zero_of ts dur (rw (a, b) at miss))
        (out (rw (known, check_type, miss, check_timing) at h))
    where
      zero_of : (ts dur : ℕ) → timing (pos ts) (pos dur) ≡ none → ts ≡ 0
      zero_of zero dur q = refl
      zero_of (suc ts) dur q = absurd (cc (sym (timing_of (suc ts) dur (omega arith)) ∙ q))

      out : {y : WireError} → ◌≡◌ {A = Mapped KernelEvent} (thrown y) (thrown x) → x ≡ y
      out q = cc

  -- A refusal has its reason: no object, else no known type (the error quotes the text, or says that
  -- it is missing), else a time that is no integer in range.
  pub map_wire_event-thrown :
      (raw : Value) (id : ℕ) (x : WireError)
      → map_wire_event env raw id ≡ thrown x
      → Refused env raw x
  unfolding map_wire_event
  map_wire_event-thrown (obj fs) id x h = elim (Option-cases (type_of_name (raw_type env fs))) [
    | inl miss ↦ Refused-type fs id x miss h
    | inr (t, known) ↦ elim (Option-cases (timing (ts_number env fs) (dur_number env fs))) [
      | inl miss ↦ Refused-times fs id t x known miss h
      | inr (p, times) ↦ absurd (cc (rw (known, check_type, times, check_timing) at h))
    ]
  ]
  map_wire_event-thrown null id x h = rw (out h) (no_object (λ fs e. cc))
    where
      out : ◌≡◌ {A = Mapped KernelEvent} (thrown not_object) (thrown x) → x ≡ not_object
      out q = cc
  map_wire_event-thrown _ id x h = rw (out h) (no_object (λ fs e. cc))
    where
      out : ◌≡◌ {A = Mapped KernelEvent} (thrown not_object) (thrown x) → x ≡ not_object
      out q = cc

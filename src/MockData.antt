-- ===== src/MockData.antt =====
-- console/src/lib/mockData.ts: the events that are made up where there is no backend.
-- `Math.random()` is the argument `Random`: a draw is known by its number, so the draws of a call are
-- made in the order of the source, and the number of draws made so far is passed on.
pub mod Laws
mod Tests
use Prim.Native.String
use kprobe.Base.{
  ℕ, zero, suc, ◌+◌, ◌*◌, String, Bool, true, false, Option, none, some, List, [], ◌∷◌,
  if◌then◌else◌, length, get_elem?,
}
use kprobe.Json.{Numerals, pos, template, join, pad_start}
use kprobe.Event.{
  EventType, tcp_send, tcp_recv, tcp_retransmit, sys_write, sys_read, sched_switch, page_fault,
  block_io, KernelEvent, event_types,
}

-- The draw of a number: `below i n` is `Math.floor(Math.random() * n)`, and `above i a` is
-- `Math.random() > a / 10`; `hex` is `toString(16)`.
pub record Random : Type 0 where
  pub below : ℕ → ℕ → ℕ
  pub above : ℕ → ℕ → Bool
  pub numerals : Numerals
  pub hex : ℕ → String

-- A time of day: hours, minutes, seconds and milliseconds.
pub record TimeOfDay : Type 0 where
  pub hours : ℕ
  pub minutes : ℕ
  pub seconds : ℕ
  pub millis : ℕ

abbrev pub services : List String
services =
    "api-worker" ∷ "checkout-service" ∷ "auth-service" ∷ "database-writer" ∷ "queue-consumer"
    ∷ "batch-job" ∷ []

-- What a template gives, and the number of draws after it.
pub record Details : Type 0 where
  pub detail : String
  pub meta : List (String × String)
  pub duration_us : Option ℕ
  pub drawn : ℕ

-- `idCounter`, `baseNs` and the number of draws.
pub record Source : Type 0 where
  pub id_counter : ℕ
  pub base_ns : ℕ
  pub drawn : ℕ

abbrev nth {ℓ} : {A : Type ℓ} → A → List A → ℕ → A
nth d xs i = elim (get_elem? xs i) [ none ↦ d | some x ↦ x ]

module _ (random : Random) where
  open random use {below, above, numerals, hex}
  open numerals use {print, fixed}

  abbrev num_text : ℕ → String
  num_text n = print (pos n)

  abbrev pick : List String → ℕ → String
  pick xs i = nth "" xs (below i (length xs))

  abbrev kb : ℕ → String
  kb bytes = template (fixed bytes 1_024 1 ∷ "kb" ∷ [])

  abbrev of_tcp_send : String → ℕ → Details
  of_tcp_send svc i =
      let bytes = below (i + 1) 8_192 + 512 in
      record {
        detail = template (svc ∷ " → " ∷ pick services i ∷ " · " ∷ kb bytes ∷ []);
        meta =
            ("src_port", num_text (40_000 + below (i + 2) 10_000))
            ∷ ("dst_port", "8080")
            ∷ ("bytes", num_text bytes)
            ∷ ("protocol", "TCP")
            ∷ ("direction", "egress")
            ∷ [];
        duration_us = some (below (i + 3) 800 + 50);
        drawn = i + 4;
      }

  abbrev of_tcp_recv : String → ℕ → Details
  of_tcp_recv svc i =
      let bytes = below i 4_096 + 256 in
      record {
        detail = template (svc ∷ " ← inbound · " ∷ kb bytes ∷ []);
        meta =
            ("src_port", num_text (40_000 + below (i + 1) 10_000))
            ∷ ("dst_port", "8080")
            ∷ ("bytes", num_text bytes)
            ∷ ("protocol", "TCP")
            ∷ ("direction", "ingress")
            ∷ [];
        duration_us = some (below (i + 2) 400 + 20);
        drawn = i + 3;
      }

  abbrev of_tcp_retransmit : String → ℕ → Details
  of_tcp_retransmit svc i = record {
    detail = template (svc ∷ " → " ∷ pick services i ∷ " · retransmit" ∷ []);
    meta = ("protocol", "TCP") ∷ ("direction", "egress") ∷ ("reason", "packet_loss") ∷ [];
    duration_us = some (below (i + 1) 1_200 + 300);
    drawn = i + 2;
  }

  abbrev file_text : ℕ → List String → ℕ → String
  file_text fd ops i = template ("fd=" ∷ num_text fd ∷ " · " ∷ pick ops i ∷ [])

  abbrev of_sys_write : ℕ → Details
  of_sys_write i =
      let fd = below i 10 + 3 in
      record {
        detail =
            file_text fd ("database write" ∷ "journal flush" ∷ "WAL append" ∷ "index update" ∷ [])
              (i + 1);
        meta =
            ("fd", num_text fd)
            ∷ ("bytes", num_text (below (i + 2) 16_384 + 512))
            ∷ ("offset", num_text (below (i + 3) 1_000_000))
            ∷ ("flags", "O_WRONLY|O_APPEND")
            ∷ [];
        duration_us = some (below (i + 4) 1_200 + 100);
        drawn = i + 5;
      }

  abbrev of_sys_read : ℕ → Details
  of_sys_read i =
      let fd = below i 10 + 3 in
      record {
        detail =
            file_text fd ("index scan" ∷ "page read" ∷ "WAL read" ∷ "snapshot fetch" ∷ []) (i + 1);
        meta =
            ("fd", num_text fd)
            ∷ ("bytes", num_text (below (i + 2) 8_192 + 256))
            ∷ ("offset", num_text (below (i + 3) 1_000_000))
            ∷ ("flags", "O_RDONLY")
            ∷ [];
        duration_us = some (below (i + 4) 600 + 50);
        drawn = i + 5;
      }

  abbrev delay : Bool → ℕ → ℕ
  delay true i = below i 600 + 100
  delay false i = below i 40 + 2

  abbrev switch_text : Bool → ℕ → ℕ → ℕ → String
  switch_text true cpu next ms = template (
      "preempted · CPU "
      ∷ num_text cpu
      ∷ " → PID "
      ∷ num_text next
      ∷ " · "
      ∷ num_text ms
      ∷ "ms delayed"
      ∷ [])
  switch_text false cpu next ms =
      template ("resumed · CPU " ∷ num_text cpu ∷ " · " ∷ num_text ms ∷ "ms" ∷ [])

  abbrev of_sched_switch : ℕ → ℕ → Details
  of_sched_switch pid i =
      let delayed = above i 7 in
      let ms = delay delayed (i + 1) in
      let cpu = below (i + 2) 8 in
      let next = below (i + 3) 9_000 + 1_000 in
      record {
        detail = switch_text delayed cpu next ms;
        meta =
            ("prev_pid", num_text pid)
            ∷ ("next_pid", num_text next)
            ∷ ("cpu", num_text cpu)
            ∷ ("delay_ms", num_text ms)
            ∷ ("prev_state", (if delayed then "TASK_RUNNING" else "TASK_INTERRUPTIBLE"))
            ∷ [];
        duration_us = some (ms * 1_000);
        drawn = i + 4;
      }

  abbrev of_page_fault : ℕ → Details
  of_page_fault i =
      let addr = pad_start 12 (hex (below i 281_474_976_710_655)) in
      record {
        detail = template (
            "addr=0x"
            ∷ addr
            ∷ " · "
            ∷ pick ("minor fault" ∷ "major fault" ∷ "memory pressure" ∷ []) (i + 1)
            ∷ []);
        meta =
            ("address", template ("0x" ∷ addr ∷ []))
            ∷ ("fault_type", (if above (i + 2) 5 then "minor" else "major"))
            ∷ ("vma_flags", "VM_READ|VM_WRITE")
            ∷ ("pgfault", num_text (below (i + 3) 1_000))
            ∷ [];
        duration_us = some (below (i + 4) 2_000 + 200);
        drawn = i + 5;
      }

  abbrev of_block_io : ℕ → Details
  of_block_io i =
      let bytes = below i 32_768 + 4_096 in
      record {
        detail = template ("block device · " ∷ kb bytes ∷ []);
        meta =
            ("bytes", num_text bytes)
            ∷ ("op", (if above (i + 1) 5 then "read" else "write"))
            ∷ ("sector", num_text (below (i + 2) 10_000_000))
            ∷ [];
        duration_us = some (below (i + 3) 1_800 + 200);
        drawn = i + 4;
      }

  -- `EVENT_TEMPLATES[type](pid, svc)`, from the draw `i` on.
  unfoldable pub event_template : EventType → ℕ → String → ℕ → Details
  event_template tcp_send pid svc i = of_tcp_send svc i
  event_template tcp_recv pid svc i = of_tcp_recv svc i
  event_template tcp_retransmit pid svc i = of_tcp_retransmit svc i
  event_template sys_write pid svc i = of_sys_write i
  event_template sys_read pid svc i = of_sys_read i
  event_template sched_switch pid svc i = of_sched_switch pid i
  event_template page_fault pid svc i = of_page_fault i
  event_template block_io pid svc i = of_block_io i

  abbrev two : ℕ → String
  two n = pad_start 2 (num_text n)

  abbrev time_text : TimeOfDay → String
  time_text t = template (
      join ":" (two t.hours ∷ two t.minutes ∷ two t.seconds ∷ [])
      ∷ "."
      ∷ pad_start 3 (num_text t.millis)
      ∷ [])

  -- `generateEvent`: the event, and what is left for the next one.
  unfoldable pub generate_event : TimeOfDay → Source → KernelEvent × Source
  unfolding event_template pad_start join
  generate_event now s =
      let base = s.base_ns + (below s.drawn 800_000 + 100_000) in
      let kind = nth tcp_send event_types (below (s.drawn + 1) 8) in
      let pid = below (s.drawn + 2) 9_000 + 1_000 in
      let service = pick services (s.drawn + 5) in
      let details = event_template kind pid service (s.drawn + 6) in
      (
        record {
          id = template ("evt-" ∷ num_text (suc s.id_counter) ∷ []);
          timestamp = time_text now;
          timestamp_ns = base;
          kind = kind;
          pid = pos pid;
          tid = pos (pid + below (s.drawn + 3) 4);
          cpu = pos (below (s.drawn + 4) 8);
          service = service;
          detail = details.detail;
          duration_us = details.duration_us;
          meta = details.meta;
        },
        record { id_counter = suc s.id_counter; base_ns = base; drawn = details.drawn },
      )

  -- The events of as many calls as there are times.
  unfoldable pub generate_all : List TimeOfDay → Source → List KernelEvent
  unfolding generate_event
  generate_all [] s = []
  generate_all (t ∷ ts) s = let made = generate_event t s in made.0 ∷ generate_all ts made.1

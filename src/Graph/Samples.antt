-- ===== src/Graph/Samples.antt =====
-- An event and an order of texts that tests can run.
use kprobe.Base.{ℕ, refl, String, false, none, []}
use kprobe.Json.{pos}
use kprobe.Event.{EventType, KernelEvent}
use kprobe.Graph.{Collation}
use kprobe.Graph.Acyclic.{IsStrict}

abbrev pub event_at : String → EventType → ℕ → KernelEvent
event_at id kind ts = record {
  id = id;
  timestamp = "";
  timestamp_ns = ts;
  kind = kind;
  pid = pos 7;
  tid = pos 7;
  cpu = pos 0;
  service = "kernel";
  detail = "";
  duration_us = none;
  meta = [];
}

-- A collation by nothing: it is strict, and tells no two ids apart.
abbrev pub flat : Collation
flat = record { before = λ a b. false }

pub flat-IsStrict : IsStrict flat
flat-IsStrict = record { irrefl = λ a. refl; trans = λ a b c h k. h }

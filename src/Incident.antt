-- ===== src/Incident.antt =====
-- console/src/pages/Replay.tsx: the recorded incidents that the replay page plays, one of them in
-- each file below this one, and the injections that the page tries on them.
pub mod Database
pub mod Queue
pub mod Wal
use kprobe.Base.{ℕ, String, Bool, true, false, Option, List, ◌∷◌, []}
use kprobe.Event.{EventType}

pub data Outcome : Type 0 where
  failed : Outcome
  passed : Outcome

pub record ReplayEvent : Type 0 where
  pub id : String
  pub offset_ms : ℕ
  pub kind : EventType
  pub pid : ℕ
  pub service : String
  pub detail : String
  pub duration : Option ℕ
  pub is_key_event : Bool
  pub key_label : Option String

pub record Incident : Type 0 where
  pub id : String
  pub name : String
  pub ts : String
  pub transaction_id : String
  pub root_cause : String
  pub duration_ms : ℕ
  pub events : List ReplayEvent
  pub original_outcome : Outcome
  pub fix_timeout_ms : ℕ

-- The default arguments `false` and `undefined` are written out where it is called.
abbrev pub mk_evt :
    String → ℕ → EventType → ℕ → String → String → Option ℕ → Bool → Option String → ReplayEvent
mk_evt i offset t p s d took is_key label = record {
  id = i;
  offset_ms = offset;
  kind = t;
  pid = p;
  service = s;
  detail = d;
  duration = took;
  is_key_event = is_key;
  key_label = label;
}

pub record Injections : Type 0 where
  pub timeout_ms : ℕ
  pub network_latency_ms : ℕ
  pub memory_pressure : Bool
  pub cpu_throttle : ℕ

abbrev pub default_injections : Injections
default_injections = record {
  timeout_ms = 750;
  network_latency_ms = 0;
  memory_pressure = false;
  cpu_throttle = 0;
}

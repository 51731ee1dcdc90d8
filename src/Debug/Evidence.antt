-- ===== src/Debug/Evidence.antt =====
-- console/src/lib/debugAnalysis.ts: what the analysis finds among the events and the edges.
use kprobe.Base.{
  ℕ, suc, String, Bool, true, false, not, ◌||◌, Option, none, some, List, [], ◌∷◌, ◌++◌, ltb, leb,
  nat_eq, if◌then◌else◌, ◌==◌, string_key, length, head?, filter, any, find, sort, lookup, put,
}
use text.Mathlib.Text.{find?}
use kprobe.Json.{Num, nan, num_eq}
use kprobe.Event.{
  KernelEvent, EventType, tcp_send, tcp_recv, tcp_retransmit, sys_write, sys_read, sched_switch,
  page_fault, block_io, type_key,
}

pub record DebugEdge : Type 0 where
  pub source_id : String
  pub target_id : String
  pub latency_ns : Num  -- `latencyMs`, in nanoseconds
  pub cause_type : Option String

pub data Status : Type 0 where
  nominal degraded critical : Status

pub record DebugSummary : Type 0 where
  pub status : Status
  pub title : String
  pub primary_cause : String
  pub impact : String
  pub evidence : List String
  pub next_step : String
  pub slowest_event : Option KernelEvent
  pub transaction_id : String
  pub services : List String
  pub pids : List Num

abbrev pub type_domain : EventType → String
type_domain tcp_send = "network send"
type_domain tcp_recv = "network receive"
type_domain tcp_retransmit = "network retransmit"
type_domain sys_write = "write syscall"
type_domain sys_read = "read syscall"
type_domain sched_switch = "scheduler"
type_domain page_fault = "memory fault"
type_domain block_io = "disk I/O"

abbrev pub cause_labels : List (String × String)
cause_labels =
    ("DISK_TO_SYSCALL", "disk wait feeding a syscall")
    ∷ ("READ_TO_WRITE", "read-to-write dependency")
    ∷ ("WRITE_TO_READ", "write-to-read dependency")
    ∷ ("CROSS_THREAD_READ_TO_WRITE", "cross-thread read/write handoff")
    ∷ ("CROSS_THREAD_WRITE_TO_READ", "cross-thread write/read handoff")
    ∷ ("SCHED_DELAY", "scheduler delay")
    ∷ ("CPU_CONTENTION", "CPU contention")
    ∷ ("CROSS_THREAD_CPU_CONTENTION", "cross-thread CPU contention")
    ∷ ("MEMORY_PRESSURE", "memory pressure")
    ∷ ("TCP_RTT", "network round trip")
    ∷ ("CROSS_THREAD_TCP_RTT", "cross-thread network delay")
    ∷ ("SEQUENTIAL", "sequential ordering")
    ∷ []

abbrev pub or_zero : Option ℕ → ℕ
or_zero none = 0
or_zero (some n) = n

abbrev pub duration_score : KernelEvent → ℕ
duration_score e = or_zero e.duration_us

-- A comparison of a duration that is not null.
abbrev pub exceeds : ℕ → Option ℕ → Bool
exceeds limit none = false
exceeds limit (some us) = ltb limit us

abbrev pub includes : String → String → Bool
includes s t = elim (find? s t) [ none ↦ false | some i ↦ true ]

abbrev pub has_type : EventType → List KernelEvent → Bool
has_type t events = any (λ e. e.kind == t) events

unfoldable pub infer_cause_from_events : List KernelEvent → String
infer_cause_from_events events =
    if has_type block_io events
    then "disk I/O wait"
    else if has_type sched_switch events
    then "scheduler delay"
    else if has_type page_fault events
    then "memory pressure"
    else if has_type tcp_retransmit events
    then "network retransmit"
    else if any (λ e. e.kind == tcp_recv || e.kind == tcp_send) events
    then "network timing"
    else "syscall latency"

-- `a` stands before `b` unless `b` is slower.
abbrev pub slower : KernelEvent → KernelEvent → Bool
slower a b = leb (duration_score b) (duration_score a)

unfoldable pub slowest : List KernelEvent → Option KernelEvent
slowest events = head? (sort slower events)

unfoldable pub slow_events : List KernelEvent → List KernelEvent
slow_events events = sort slower (filter (λ e. exceeds 500_000 e.duration_us) events)

abbrev pub causes : List DebugEdge → List String
causes [] = []
causes (e ∷ es) = elim e.cause_type [
  | none ↦ causes es
  | some c ↦ if c == "" then causes es else c ∷ causes es
]

unfoldable pub count_causes : List (String × ℕ) → List String → List (String × ℕ)
count_causes m [] = m
count_causes m (c ∷ cs) = count_causes (put c (suc (or_zero (lookup c m))) m) cs

abbrev pub more_often : String × ℕ → String × ℕ → Bool
more_often a b = leb b.1 a.1

unfoldable pub top_entry : List DebugEdge → Option (String × ℕ)
unfolding count_causes
top_entry edges = head? (sort more_often (count_causes [] (causes edges)))

unfoldable pub status_of : List KernelEvent → List DebugEdge → Status
unfolding slowest slow_events
status_of events edges =
    if elim (slowest events) [ none ↦ false | some e ↦ ltb 5_000_000 (duration_score e) ]
    then critical
    else if ltb 0 (length (slow_events events)) || ltb 0 (length edges)
    then degraded
    else nominal

-- Equality of numbers in a `Set`, where NaN is one number.
abbrev pub same_number : Num → Num → Bool
same_number nan nan = true
same_number a b = num_eq a b

abbrev pub distinct_numbers : List Num → List Num → List Num
distinct_numbers kept [] = kept
distinct_numbers kept (n ∷ ns) =
    distinct_numbers (if any (λ m. same_number m n) kept then kept else kept ++ n ∷ []) ns

abbrev pub service_of : KernelEvent → String
service_of e = if e.service == "" then "kernel" else e.service

abbrev pub transaction_of : KernelEvent → String
transaction_of e = elim (lookup "transaction_id" e.meta) [ none ↦ "" | some t ↦ t ]

abbrev pub first_transaction : List KernelEvent → String
first_transaction events = elim (find (λ e. not (transaction_of e == "")) events) [
  | none ↦ ""
  | some e ↦ transaction_of e
]

abbrev pub plural : ℕ → String
plural n = if nat_eq n 1 then "" else "s"

abbrev pub title_of : Status → String
title_of critical = "Critical latency path"
title_of degraded = "Potential latency path"
title_of nominal = "No clear bottleneck yet"

-- `lower` is `toLowerCase().replaceAll("_", " ")`.

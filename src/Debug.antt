-- ===== src/Debug.antt =====
-- console/src/lib/debugAnalysis.ts: the summary of a graph of events, and the explanation of one event.
-- The case conversion of the language is an argument, with the printing of numbers.
pub mod Evidence
pub mod Order
pub mod Causes
pub mod Summary
mod Tests
unfoldable pub use Evidence.*
use kprobe.Base.{
  ℕ, zero, suc, ◌+◌, String, Bool, true, false, not, ◌&&◌, ◌||◌, Option, none, some, List, [], ◌∷◌,
  ◌++◌, map, ltb, leb, nat_eq, if◌then◌else◌, ◌==◌, string_key, length, take, head?, filter, any,
  find, sort, lookup, put, set_of,
}
use text.Mathlib.Text.{find?}
use kprobe.Json.{Num, Numerals, pos, nan, num, num_eq, template, join, to_text}
use kprobe.Event.{
  KernelEvent, EventType, tcp_send, tcp_recv, tcp_retransmit, sys_write, sys_read, sched_switch,
  page_fault, block_io, type_name, type_key, fmt_dur,
}

module _ (numerals : Numerals) (lower : String → String) where
  open numerals use {print}

  unfoldable pub event_label : KernelEvent → String
  event_label e = template (type_name e.kind ∷ " on " ∷ service_of e ∷ " pid=" ∷ print e.pid ∷ [])

  unfoldable pub summarize_cause : String → String
  summarize_cause cause =
      if cause == ""
      then "local live timing"
      else elim (lookup cause cause_labels) [ none ↦ lower cause | some label ↦ label ]

  unfoldable pub next_step_for : String → Option KernelEvent → String
  next_step_for cause slow =
      if includes cause "disk"
      then "Inspect block_io before the slow syscall and compare sector/op/latency."
      else if includes cause "scheduler" || includes cause "CPU"
      then "Inspect sched_switch events around the slow pid/tid for preemption or CPU contention."
      else if includes cause "memory"
      then "Inspect page_fault events before the slow read/write path."
      else if includes cause "network"
      then "Inspect tcp_recv/tcp_send timing and retransmits for the same transaction."
      else elim slow [
        | some e ↦ template (
            "Inspect "
            ∷ type_name e.kind
            ∷ " around pid "
            ∷ print e.pid
            ∷ ", then follow adjacent edges."
            ∷ [])
        | none ↦ "Generate or select a transaction with edges, then inspect the slowest event."
      ]

  unfoldable pub explain_event : KernelEvent → String
  unfolding fmt_dur
  explain_event e =
      if exceeds 5_000_000 e.duration_us
      then template (
          type_domain e.kind
          ∷ " took "
          ∷ fmt_dur numerals e.duration_us
          ∷ ", which is unusually high and should be treated as the first suspect."
          ∷ [])
      else if exceeds 500_000 e.duration_us
      then template (
          type_domain e.kind
          ∷ " is slow at "
          ∷ fmt_dur numerals e.duration_us
          ∷ " and may explain user-visible latency."
          ∷ [])
      else elim e.kind [
        | sched_switch ↦
            "Scheduler activity can explain why a thread stopped running before work resumed."
        | page_fault ↦
            "Page faults can point to memory pressure or cold memory access before a syscall continues."
        | block_io ↦
            "Block I/O can explain read/write stalls when it appears before syscall latency."
        | _ ↦ template (
            type_domain e.kind
            ∷ " event. Use nearby events and causal edges to decide whether it is cause or consequence."
            ∷ [])
      ]

  abbrev pub slowest_line : Option KernelEvent → List String
  slowest_line none = []
  slowest_line (some e) =
      template
        ("Slowest event: " ∷ event_label e ∷ " at " ∷ fmt_dur numerals e.duration_us ∷ "." ∷ [])
      ∷ []

  abbrev pub edges_line : Option (String × ℕ) → ℕ → List String
  edges_line (some (c, n)) edges =
      template (
        "Top causal edge: "
        ∷ summarize_cause c
        ∷ " ("
        ∷ print (pos n)
        ∷ " edge"
        ∷ plural n
        ∷ ")."
        ∷ [])
      ∷ []
  edges_line none zero = []
  edges_line none edges =
      template
        (print (pos edges) ∷ " local timing edge" ∷ plural edges ∷ " connect nearby events." ∷ [])
      ∷ []

  abbrev pub services_line : List String → List String
  services_line [] = []
  services_line names = template ("Services involved: " ∷ join ", " names ∷ "." ∷ []) ∷ []

  abbrev pub slow_line : ℕ → List String
  slow_line n = if ltb 1 n then template (print (pos n) ∷ " events exceed 500ms." ∷ []) ∷ [] else []

  abbrev pub primary_cause_of : List KernelEvent → List DebugEdge → String
  primary_cause_of events edges = elim (top_entry edges) [
    | none ↦ infer_cause_from_events events
    | some top ↦ summarize_cause top.0
  ]

  unfoldable pub analyze_debug_graph : List KernelEvent → List DebugEdge → DebugSummary
  unfolding slowest slow_events top_entry status_of infer_cause_from_events event_label
      summarize_cause next_step_for fmt_dur
  analyze_debug_graph events edges =
      let services = take 6 (set_of (map service_of events)) in
      record {
        status = status_of events edges;
        title = title_of (status_of events edges);
        primary_cause = primary_cause_of events edges;
        impact = elim (slowest events) [
          | some e ↦ template (event_label e ∷ " is the current impact point." ∷ [])
          | none ↦ "Not enough events to identify an impact point."
        ];
        evidence = take 4 (
            slowest_line (slowest events)
            ++ (edges_line (top_entry edges) (length edges)
                ++ (services_line services ++ slow_line (length (slow_events events)))));
        next_step = next_step_for (primary_cause_of events edges) (slowest events);
        slowest_event = slowest events;
        transaction_id = first_transaction events;
        services = services;
        pids = take 8 (distinct_numbers [] (map (λ e. e.pid) events));
      }

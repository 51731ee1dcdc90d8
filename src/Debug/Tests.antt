-- ===== src/Debug/Tests.antt =====
-- The summary of a concrete graph, and the theorems on summaries applied to it.
use kprobe.Base.{
  ◌<◌, ◌↔◌, Memᴰ, length, String, ◌≤◌, ◌≡◌, refl, some, List, [], ◌∷◌, sort, insert, lookup, put,
}
use kprobe.Json.{pos}
use kprobe.Event.{KernelEvent, sys_write, block_io}
use kprobe.Debug.{
  DebugEdge, status_of, critical, nominal, duration_score, slowest, causes, count_causes, top_entry,
}
use kprobe.Debug.Summary.{status_of_iff}
use kprobe.Debug.Causes.{occurrences, top_entry_max}

abbrev quick : KernelEvent
quick = record {
  id = "a";
  timestamp = "02:47:13.000";
  timestamp_ns = 1_000;
  kind = sys_write;
  pid = pos 7;
  tid = pos 7;
  cpu = pos 0;
  service = "api-worker";
  detail = "";
  duration_us = some 40;
  meta = [];
}

abbrev stuck : KernelEvent
stuck = record quick { id = "b"; kind = block_io; duration_us = some 6_000_000 }

abbrev both : List KernelEvent
both = quick ∷ stuck ∷ []

abbrev edge : DebugEdge
edge = record { source_id = "a"; target_id = "b"; latency_ns = pos 1; cause_type = some "TCP_RTT" }

stuck_is_slowest : slowest both ≡ some stuck
unfolding slowest sort insert
stuck_is_slowest = refl

rtt_is_top : top_entry (edge ∷ edge ∷ []) ≡ some ("TCP_RTT", 2)
unfolding top_entry count_causes sort insert lookup put
rtt_is_top = refl

top_entry_max_example :
    (occurrences "TCP_RTT" (causes (edge ∷ edge ∷ [])) ≡ 2)
    × ((d : String) → occurrences d (causes (edge ∷ edge ∷ [])) ≤ 2)
top_entry_max_example = top_entry_max (edge ∷ edge ∷ []) "TCP_RTT" 2 rtt_is_top

status_of_iff_example :
    ((status_of both (edge ∷ []) ≡ critical)
      ↔ ((e : KernelEvent) × Memᴰ e both × (5_000_000 < duration_score e)))
    × ((status_of both (edge ∷ []) ≡ nominal) ↔ (
        ((e : KernelEvent) → Memᴰ e both → duration_score e ≤ 500_000) × (length (edge ∷ []) ≡ 0)))
status_of_iff_example = status_of_iff both (edge ∷ [])

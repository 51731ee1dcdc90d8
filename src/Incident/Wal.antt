-- ===== src/Incident/Wal.antt =====
-- console/src/pages/Replay.tsx: the entry of `INCIDENTS` on the WAL write collision.
use kprobe.Base.{true, false, none, some, [], ◌∷◌}
use kprobe.Event.{page_fault, sched_switch, sys_write, tcp_recv}
use kprobe.Incident.{Incident, failed, mk_evt}

abbrev pub inc_003 : Incident
inc_003 = record {
  id = "inc-003";
  name = "WAL write collision — txn #21983";
  ts = "2026-05-04 09:11:44";
  transaction_id = "#21983";
  root_cause = "Concurrent sys_write from two database-writer threads caused page fault cascade";
  duration_ms = 640;
  events =
      mk_evt "g1" 0 tcp_recv 6601 "database-writer" "database-writer ← inbound · 1.8kb" (some 70)
        true (some "Txn #21983 write request")
      ∷ mk_evt "g2" 8 sys_write 6601 "database-writer" "fd=11 · WAL append — thread A" none true
          (some "Thread A WAL write begins")
      ∷ mk_evt "g3" 9 sys_write 6602 "database-writer" "fd=11 · WAL append — thread B (concurrent)"
          none true (some "Thread B concurrent write")
      ∷ mk_evt "g4" 11 page_fault 6601 "database-writer" "addr=0x7ffe00a12400 · major fault"
          (some 1200) true (some "Page fault cascade begins")
      ∷ mk_evt "g5" 14 page_fault 6602 "database-writer" "addr=0x7ffe00a12800 · major fault"
          (some 1100) false none
      ∷ mk_evt "g6" 180 sched_switch 6601 "database-writer" "preempted · CPU 5 · 280ms"
          (some 280_000) false none
      ∷ mk_evt "g7" 460 sys_write 6601 "database-writer" "fd=11 · WAL append complete"
          (some 580_000) true (some "Thread A write complete")
      ∷ mk_evt "g8" 465 sys_write 6602 "database-writer"
          "fd=11 · WAL append — duplicate entry detected" none true
          (some "Duplicate write — txn rolled back")
      ∷ [];
  original_outcome = failed;
  fix_timeout_ms = 1000;
}

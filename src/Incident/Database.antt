-- ===== src/Incident/Database.antt =====
-- console/src/pages/Replay.tsx: the entry of `INCIDENTS` on the database timeout.
use kprobe.Base.{true, false, none, some, [], ◌∷◌}
use kprobe.Event.{page_fault, sched_switch, sys_read, sys_write, tcp_recv, tcp_send}
use kprobe.Incident.{Incident, failed, mk_evt}

abbrev pub inc_001 : Incident
inc_001 = record {
  id = "inc-001";
  name = "Database timeout — request req-9f21";
  ts = "2026-05-08 02:47:13";
  transaction_id = "#98721";
  root_cause =
      "Memory pressure from batch-job caused 800ms database write delay, exceeding 750ms api-worker timeout";
  duration_ms = 1240;
  events =
      mk_evt "e1" 0 tcp_recv 4821 "api-worker" "api-worker ← inbound · 2.1kb" (some 120) true
        (some "Request req-9f21 received")
      ∷ mk_evt "e2" 4 tcp_send 4821 "api-worker" "api-worker → auth-service · 1.4kb" (some 80) false
          none
      ∷ mk_evt "e3" 18 tcp_recv 5103 "risk-engine" "risk-engine ← inbound · 1.4kb" (some 95) false
          none
      ∷ mk_evt "e4" 45 tcp_send 5103 "risk-engine" "auth-service → api-worker · 0.8kb" (some 60)
          true (some "Risk check passed")
      ∷ mk_evt "e5" 62 tcp_recv 4821 "api-worker" "api-worker ← auth-service · 0.8kb" (some 55)
          false none
      ∷ mk_evt "e6" 80 sys_write 4821 "api-worker" "fd=7 · database write initiated" none true
          (some "Database write initiated")
      ∷ mk_evt "e7" 82 page_fault 4721 "batch-job" "addr=0x7fff3a2b1c00 · memory pressure"
          (some 1800) true (some "Memory pressure (batch-job PID 4721)")
      ∷ mk_evt "e8" 85 sched_switch 4821 "api-worker" "preempted · CPU 3 → PID 4721 · 800ms"
          (some 800_000) true (some "api-worker preempted")
      ∷ mk_evt "e9" 112 sys_write 4721 "batch-job" "fd=4 · index update" (some 420) false none
      ∷ mk_evt "e10" 340 sys_read 4721 "batch-job" "fd=4 · page read" (some 280) false none
      ∷ mk_evt "e11" 880 sched_switch 4821 "api-worker" "resumed · CPU 3 · after 800ms" none true
          (some "api-worker resumed")
      ∷ mk_evt "e12" 882 sys_write 4821 "api-worker" "fd=7 · database write completed"
          (some 950_000) true (some "Database write complete (950ms total)")
      ∷ mk_evt "e13" 830 tcp_send 4821 "api-worker" "api-worker → checkout-service · timeout signal"
          none true (some "Timeout exceeded (750ms threshold)")
      ∷ mk_evt "e14" 835 tcp_send 4821 "api-worker" "api-worker → client · request failed" none true
          (some "Request failed — timeout")
      ∷ [];
  original_outcome = failed;
  fix_timeout_ms = 1500;
}

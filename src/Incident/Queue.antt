-- ===== src/Incident/Queue.antt =====
-- console/src/pages/Replay.tsx: the entry of `INCIDENTS` on the queue consumer stall.
use kprobe.Base.{true, false, none, some, [], ◌∷◌}
use kprobe.Event.{sched_switch, sys_read, sys_write, tcp_recv, tcp_send}
use kprobe.Incident.{Incident, failed, mk_evt}

abbrev pub inc_002 : Incident
inc_002 = record {
  id = "inc-002";
  name = "Queue consumer stall — job #44102";
  ts = "2026-05-06 14:22:07";
  transaction_id = "#44102";
  root_cause = "TCP retransmit on queue-consumer → checkout-service pushed job past timeout budget";
  duration_ms = 980;
  events =
      mk_evt "f1" 0 tcp_recv 7201 "queue-consumer" "queue-consumer ← inbound · 3.2kb" (some 90) true
        (some "Job #44102 received")
      ∷ mk_evt "f2" 12 sys_read 7201 "queue-consumer" "fd=5 · cache snapshot fetch" (some 180) false
          none
      ∷ mk_evt "f3" 55 tcp_send 7201 "queue-consumer" "queue-consumer → checkout-service · 4.1kb"
          none true (some "Route to checkout")
      ∷ mk_evt "f4" 58 sched_switch 7201 "queue-consumer" "preempted · CPU 1 → PID 9012 · 420ms"
          (some 420_000) true (some "CPU preempt on queue-consumer")
      ∷ mk_evt "f5" 480 tcp_send 7201 "queue-consumer"
          "queue-consumer → checkout-service · retransmit" none true (some "TCP retransmit")
      ∷ mk_evt "f6" 485 tcp_recv 8830 "checkout-service" "checkout-service ← inbound · 4.1kb"
          (some 110) false none
      ∷ mk_evt "f7" 510 sys_write 8830 "checkout-service" "fd=9 · database write" (some 340_000)
          false none
      ∷ mk_evt "f8" 855 tcp_send 8830 "checkout-service"
          "checkout-service → database-writer · timeout budget missed" none true
          (some "Timeout budget exceeded")
      ∷ [];
  original_outcome = failed;
  fix_timeout_ms = 2000;
}

-- ===== src/Event.antt =====
-- Kernel events (console/src/types/events.ts) and how durations read
-- (`fmtDur` and `isSlow` of console/src/lib/mockData.ts).
use kprobe.Base.{
  ℕ, String, Bool, true, false, Option, none, some, List, [], ◌∷◌, ◌≡◌, ◌↔◌, arith, ltb, nat_eq,
  if◌then◌else◌, Key, string_key,
}
use kprobe.Json.{Num, Numerals, pos, template}

pub data EventType : Type 0 where
  tcp_send tcp_recv tcp_retransmit sys_write sys_read sched_switch page_fault block_io : EventType

pub data ConnectionStatus : Type 0 where
  connected connecting disconnected mock : ConnectionStatus

pub record KernelEvent : Type 0 where
  pub id : String
  pub timestamp : String
  pub timestamp_ns : ℕ
  pub kind : EventType  -- `type`
  pub pid : Num
  pub tid : Num
  pub cpu : Num
  pub service : String
  pub detail : String
  pub duration_us : Option ℕ
  pub meta : List (String × String)

abbrev pub event_types : List EventType
event_types =
    tcp_send ∷ tcp_recv ∷ tcp_retransmit ∷ sys_write ∷ sys_read ∷ sched_switch ∷ page_fault
    ∷ block_io ∷ []

-- The text of the type in the source.
unfoldable pub type_name : EventType → String
type_name tcp_send = "tcp_send"
type_name tcp_recv = "tcp_recv"
type_name tcp_retransmit = "tcp_retransmit"
type_name sys_write = "sys_write"
type_name sys_read = "sys_read"
type_name sched_switch = "sched_switch"
type_name page_fault = "page_fault"
type_name block_io = "block_io"

-- `===` on event types: they are told apart by their place in the list.
abbrev index : EventType → ℕ
index tcp_send = 0
index tcp_recv = 1
index tcp_retransmit = 2
index sys_write = 3
index sys_read = 4
index sched_switch = 5
index page_fault = 6
index block_io = 7

abbrev pub type_eq : EventType → EventType → Bool
type_eq a b = nat_eq (index a) (index b)

pub type_eq_iff : (a b : EventType) → (type_eq a b ≡ true) ↔ (a ≡ b)
type_eq_iff a b = ground arith

instance abbrev pub type_key : Key EventType
type_key = record { same = type_eq; same_iff = type_eq_iff }

abbrev pub slow_us : ℕ
slow_us = 500_000

unfoldable pub is_slow : Option ℕ → Bool
is_slow none = false
is_slow (some us) = ltb slow_us us

unfoldable pub fmt_dur : Numerals → Option ℕ → String
fmt_dur n none = "—"
fmt_dur n (some us) =
    if ltb us 1_000
    then template (n.print (pos us) ∷ "µs" ∷ [])
    else if ltb us 1_000_000
    then template (n.fixed us 1000 1 ∷ "ms" ∷ [])
    else template (n.fixed us 1_000_000 2 ∷ "s" ∷ [])

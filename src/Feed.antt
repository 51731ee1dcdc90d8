-- ===== src/Feed.antt =====
-- How the pages read the messages of the connection (console/src/pages/Stream.tsx, Graph.tsx and
-- Timeline.tsx): the messages that a page has not processed yet, and the event of a message.
use kprobe.Base.{ℕ, Bool, Option, none, some, ltb}
use kprobe.Json.{Codec}
use kprobe.Event.{KernelEvent}
use kprobe.Wire.{Env, Mapped, mapped, thrown, map_wire_event}
use kprobe.Connection.{ConnectionMessage}

module _ (codec : Codec) (env : Env) where
  open codec use {parse}

  abbrev event_of : Mapped KernelEvent → Option KernelEvent
  event_of (mapped e) = some e
  event_of (thrown x) = none

  -- The event of a message; `none` is an exception of `JSON.parse` or `mapWireEvent`.
  unfoldable pub decode : ConnectionMessage → Option KernelEvent
  decode m = elim (parse m.data_text) [
    | none ↦ none
    | some value ↦ event_of (map_wire_event env value m.id)
  ]

  abbrev pub is_new : ℕ → ConnectionMessage → Bool
  is_new processed m = ltb processed m.id

-- ===== src/Timeline/Log.antt =====
-- What the timeline page promises: a log of the events that it was given since it was last cleared.
-- The page implements it by a window of 2000 events and their number.
use kprobe.Base.{
  ◌≡◌, refl, sym, ◌∙◌, ap, subst, true, false, not, List, [], ◌∷◌, ◌++◌, arith, ltb, if◌then◌else◌,
  length, slice_last,
}
use mathlib.Core.List.{append-nil}
use kprobe.Event.{KernelEvent, mock}
use kprobe.Stream.Window.{slice_last_again}
use kprobe.Timeline.{
  Timeline, Setting, initial, max_events, append_events, events_of, pending, take_in, last_id,
  drain, mock_tick, Action, arrived, status_changed, ticked, pause_toggled, escaped, detail_closed,
  cleared, resized, wheeled, clicked, type_toggled, window_chosen, step,
}
use kprobe.Timeline.Invariant.{core-handle_canvas_click}

module _ (setting : Setting) where
  -- The events of the messages that a page that is not paused takes in.
  abbrev pub drained : Timeline → List KernelEvent
  drained s = if s.paused then [] else events_of setting (pending setting s)

  abbrev pub mocked : List KernelEvent → Timeline → List KernelEvent
  mocked batch s = elim s.status [ mock ↦ if s.paused then [] else batch | _ ↦ [] ]

  -- The events that a callback brings.
  abbrev pub brought : Action → Timeline → List KernelEvent
  brought (arrived ms) s = drained (record s { messages = ms })
  brought pause_toggled s = drained (record s { paused = not s.paused })
  brought (ticked batch) s = mocked batch s
  brought _ s = []

  abbrev pub log_step : Action → Timeline → List KernelEvent → List KernelEvent
  log_step cleared s log = []
  log_step a s log = log ++ brought a s

  -- The page and the log after the same callbacks.
  pub data Logged : Timeline → List KernelEvent → Type 0 where
    start : Logged initial []
    next :
        {s : Timeline} {log : List KernelEvent} (a : Action)
        → Logged s log
        → Logged (step setting a s) (log_step a s log)

  abbrev pub Implements : Timeline → List KernelEvent → Type 0
  Implements s log =
      (s.events ≡ slice_last max_events log) × (s.event_count ≡ length (slice_last max_events log))

  quiet : (s : Timeline) (log : List KernelEvent) → Implements s log → Implements s (log ++ [])
  quiet s log h = subst (Implements s) (sym (append-nil log)) h

  append_events-Implements :
      (batch : List KernelEvent) (s : Timeline) (log : List KernelEvent)
      → Implements s log
      → Implements (append_events batch s) (log ++ batch)
  unfolding append_events
  append_events-Implements batch s log (h, k) = (window, ap length window)
    where
      window : slice_last max_events (s.events ++ batch) ≡ slice_last max_events (log ++ batch)
      window =
          ap (λ l. slice_last max_events (l ++ batch)) h ∙ slice_last_again max_events log batch

  take_in-Implements :
      (batch : List KernelEvent) (s : Timeline) (log : List KernelEvent)
      → Implements s log
      → Implements (take_in setting batch s) (log ++ batch)
  take_in-Implements [] s log h = quiet s log h
  take_in-Implements (e ∷ es) s log h =
      subst (λ b. Implements (if b then append_events (e ∷ es) s else s) (log ++ e ∷ es)) (sym more)
        (append_events-Implements (e ∷ es) s log h)
    where
      more : ltb 0 (length (e ∷ es)) ≡ true
      more = ground arith

  drain-Implements :
      (s : Timeline) (log : List KernelEvent)
      → Implements s log
      → Implements (drain setting s) (log ++ drained s)
  unfolding drain
  drain-Implements s log h =
      elim s.paused
        as (λ b.
          Implements (if b then s else taken)
            (log ++ (if b then [] else events_of setting (pending setting s)))) [
              | true ↦ quiet s log h
              | false ↦ take_in-Implements (events_of setting (pending setting s)) processed log h
            ]
    where
      processed : Timeline
      processed = record s { processed = last_id setting s.processed (pending setting s) }

      taken : Timeline
      taken = take_in setting (events_of setting (pending setting s)) processed

  mock_tick-Implements :
      (batch : List KernelEvent) (s : Timeline) (log : List KernelEvent)
      → Implements s log
      → Implements (mock_tick batch s) (log ++ mocked batch s)
  mock_tick-Implements batch s log h =
      elim s.status
        as (λ st.
          Implements (elim st [ mock ↦ if s.paused then s else append_events batch s | _ ↦ s ])
            (log ++ elim st [ mock ↦ if s.paused then [] else batch | _ ↦ [] ])) [
              | mock ↦
                  elim s.paused
                    as (λ b.
                      Implements (if b then s else append_events batch s)
                        (log ++ (if b then [] else batch))) [
                          | true ↦ quiet s log h
                          | false ↦ append_events-Implements batch s log h
                        ]
              | _ ↦ quiet s log h
            ]

  step-Implements :
      (a : Action) (s : Timeline) (log : List KernelEvent)
      → Implements s log
      → Implements (step setting a s) (log_step a s log)
  unfolding step
  step-Implements (arrived ms) s log h = drain-Implements (record s { messages = ms }) log h
  step-Implements (status_changed st) s log h = quiet s log h
  step-Implements (ticked batch) s log h = mock_tick-Implements batch s log h
  step-Implements pause_toggled s log h =
      drain-Implements (record s { paused = not s.paused }) log h
  step-Implements escaped s log h = quiet s log h
  step-Implements detail_closed s log h = quiet s log h
  step-Implements cleared s log h = (refl, refl)
  step-Implements (resized w height) s log h = quiet s log h
  step-Implements (wheeled up) s log h = quiet s log h
  step-Implements (clicked mx my) s log h =
      let same = core-handle_canvas_click setting mx my s in
      quiet (step setting (clicked mx my) s) log
        (ap (λ c. c.events) same ∙ h.0, ap (λ c. c.event_count) same ∙ h.1)
  step-Implements (type_toggled t) s log h = quiet s log h
  step-Implements (window_chosen w) s log h = quiet s log h

  -- The timeline page implements a log: after any callbacks its events are the last 2000 of all that
  -- the messages and the mock interval brought since the page was last cleared, in their order, and
  -- its count is theirs.
  pub timeline-Implements :
      (s : Timeline) (log : List KernelEvent) → Logged s log → Implements s log
  timeline-Implements _ _ start = (refl, refl)
  timeline-Implements _ _ (next {s} {log} a r) =
      step-Implements a s log (timeline-Implements s log r)

-- ===== src/Timeline/Delivery.antt =====
-- A message on its way from the socket of the provider (console/src/hooks/useConnection.tsx) to the
-- events of the timeline page.
use kprobe.Base.{
  ℕ, suc, ◌-◌, ◌≤◌, ◌≡◌, refl, sym, ap, ◌∙◌, subst, String, true, false, Option, none, some, List,
  [], ◌∷◌, ◌++◌, arith, ltb, if◌then◌else◌, length, filter, drop, slice_last, contains, drop-append,
  length-append, All, All-drop, string_key,
}
use Prim.{tt}
use kprobe.Event.{KernelEvent}
use kprobe.Feed.{decode, is_new}
use kprobe.Connection.{
  Connection, ConnectionMessage, Action, initial, event_key, append_message, received,
  step as connection_step, run,
}
use kprobe.Connection.Keys.{Rising}
use kprobe.Connection.Receive.{new_appended}
use kprobe.Connection.Invariant.{run_sound}
use kprobe.Timeline.{
  Timeline, Setting, max_events, events_of, last_id, take_in, append_events, drain, arrived, step,
}

-- No id is above the last one given out.
Rising-below : (top : ℕ) (ms : List ConnectionMessage) → Rising top ms → All (λ m. m.id ≤ top) ms
Rising-below top [] h = tt
Rising-below top (m ∷ ms) (p, _, h) = (p, Rising-below top ms h)

-- Of messages that are no newer and one that is, the one is new.
filter_last :
    (top : ℕ) (ms : List ConnectionMessage) (m : ConnectionMessage)
    → All (λ x. x.id ≤ top) ms
    → ltb top m.id ≡ true
    → filter (λ x. ltb top x.id) (ms ++ m ∷ []) ≡ m ∷ []
filter_last top [] m h new = rw new refl
filter_last top (x ∷ xs) m (p, h) new =
    let old : ltb top x.id ≡ false = ground arith in rw old (filter_last top xs m h new)

slice_last-concat {ℓ} :
    {A : Type ℓ} (n : ℕ) (xs : List A) (a : A)
    → slice_last (suc n) (xs ++ a ∷ []) ≡ drop (length (xs ++ a ∷ []) - suc n) xs ++ a ∷ []
slice_last-concat n xs a =
    drop-append (length (xs ++ a ∷ []) - suc n) xs (a ∷ [])
      (omega (arith, length-append xs (a ∷ [])))

module _ (setting : Setting) where
  open setting use {codec, env}

  -- The message that is made of the text, and the messages of the provider with it.
  abbrev pub new_message : String → Connection → ConnectionMessage
  new_message text c = record { id = suc c.sequence; data_text = text }

  abbrev pub received_messages : String → Connection → List ConnectionMessage
  received_messages text c = (connection_step codec (received text) c).messages

  -- The events of the page with that of a message, if it is one.
  abbrev pub with_event : Option KernelEvent → List KernelEvent → List KernelEvent
  with_event none events = events
  with_event (some e) events = slice_last max_events (events ++ e ∷ [])

  appended :
      (text : String) (c : Connection)
      → contains c.seen (event_key codec text) ≡ false
      → c.mounted ≡ true
      → c.hydrated ≡ true
      → connection_step codec (received text) c ≡ append_message codec text c
  unfolding connection_step
  appended text c = new_appended codec text c

  pending_one :
      (text : String) (c : Connection)
      → Rising c.sequence c.messages
      → filter (is_new codec env c.sequence) (append_message codec text c).messages
        ≡ new_message text c ∷ []
  unfolding append_message
  pending_one text c rising =
      ap (filter (is_new codec env c.sequence))
        (slice_last-concat 1_999 c.messages (new_message text c))
      ∙ filter_last c.sequence (drop k c.messages) (new_message text c)
          (All-drop _ k c.messages (Rising-below c.sequence c.messages rising)) (ground arith)
    where
      k : ℕ
      k = length (c.messages ++ new_message text c ∷ []) - 2_000

  drain_one :
      (ms : List ConnectionMessage) (m : ConnectionMessage) (s : Timeline)
      → s.paused ≡ false
      → filter (is_new codec env s.processed) ms ≡ m ∷ []
      → drain setting (record s { messages = ms })
        ≡ take_in setting
            (events_of setting (m ∷ []))
            (record s { messages = ms; processed = m.id })
  unfolding drain
  drain_one ms m s open_now one =
      subst
        (λ b.
          (if b
            then record s { messages = ms }
            else taken (filter (is_new codec env s.processed) ms))
          ≡ taken (filter (is_new codec env s.processed) ms))
        (sym open_now) refl
      ∙ ap taken one
    where
      taken : List ConnectionMessage → Timeline
      taken ps =
          take_in setting (events_of setting ps)
            (record s { messages = ms; processed = last_id setting s.processed ps })

  abbrev Shows : ConnectionMessage → Timeline → Timeline → Type 0
  Shows m s u = (u.processed ≡ m.id) × (u.events ≡ with_event (decode codec env m) s.events)

  Shows-taken :
      (ms : List ConnectionMessage) (m : ConnectionMessage) (s : Timeline)
      → Shows m s (
          take_in setting
            (events_of setting (m ∷ []))
            (record s { messages = ms; processed = m.id }))
  unfolding append_events
  Shows-taken ms m s =
      elim (decode codec env m)
        as (λ o.
          let u =
            take_in setting (elim o [ none ↦ [] | some e ↦ e ∷ [] ])
              (record s { messages = ms; processed = m.id }) in
          (u.processed ≡ m.id) × (u.events ≡ with_event o s.events)) [
            | none ↦ (refl, refl)
            | some e ↦ (refl, refl)
          ]

  -- Where the provider is mounted and has its history, and the page is not paused and has processed all
  -- that came before: a text with a new key that the socket receives is taken in by the page at once
  -- and alone. Its event, if it is one, becomes the last event of the page, and the page has
  -- processed all again.
  pub step-received :
      (acts : List Action) (text : String) (s : Timeline)
      → let c = run codec acts initial in
        c.mounted ≡ true
        → c.hydrated ≡ true
        → contains c.seen (event_key codec text) ≡ false
        → s.paused ≡ false
        → s.processed ≡ c.sequence
        → let after = step setting (arrived (received_messages text c)) s in
          (after.processed ≡ (connection_step codec (received text) c).sequence)
          × (after.events ≡ with_event (decode codec env (new_message text c)) s.events)
  unfolding step append_message
  step-received acts text s mounted hydrated new open_now caught_up =
      subst (λ (u : Connection). Delivers u) (sym (appended text c new mounted hydrated))
        (subst (Shows (new_message text c) s) (sym drained)
          (Shows-taken messages (new_message text c) s))
    where
      c : Connection
      c = run codec acts initial

      messages : List ConnectionMessage
      messages = (append_message codec text c).messages

      Delivers : Connection → Type 0
      Delivers u =
          ((drain setting (record s { messages = u.messages })).processed ≡ u.sequence)
          × ((drain setting (record s { messages = u.messages })).events
              ≡ with_event (decode codec env (new_message text c)) s.events)

      drained :
          drain setting (record s { messages = messages })
          ≡ take_in setting
              (events_of setting (new_message text c ∷ []))
              (record s { messages = messages; processed = suc c.sequence })
      drained = drain_one messages (new_message text c) s open_now (
          subst (λ k. filter (is_new codec env k) messages ≡ new_message text c ∷ [])
            (sym caught_up) (pending_one text c (run_sound codec acts).0.rising))

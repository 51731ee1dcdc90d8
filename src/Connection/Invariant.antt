-- ===== src/Connection/Invariant.antt =====
-- What holds of the provider between two callbacks.
use kprobe.Base.{
  ℕ, suc, ◌+◌, ◌≤◌, ◌<◌, ◌≡◌, refl, ◌⊎◌, inl, inr, String, Bool, true, false, some, none, List, [],
  ◌∷◌, ◌++◌, map, Memᴰ, arith, Distinct, Distinct-drop, Distinct-concat, length, length-slice_last,
  slice_last-map, set_of, Memᴰ-add_all, contains, contains_iff, Bool-cases, if_both, Option,
  string_key, nat_eq, not, ◌||◌,
}
use mathlib.Core.List.{map-append}
use mathlib.Core.List.Memᴰ
use kprobe.Json.{Codec}
use kprobe.Connection.{
  Connection, ConnectionMessage, Action, mount, unmount, opened, closed, errored, cleared, received,
  timer_fired, history, max_messages, max_backoff, initial_backoff, event_key, keys_of, initial,
  ordered, number, hydrate, append_message, on_message, step, run,
}
use kprobe.Connection.Keys.{
  Rising, Rising-drop, Rising-concat, Rising-number, keys_of-number, length-number, length-ordered,
  Distinct-keys-ordered,
}

abbrev pub is_pending : Option ℕ → Bool
is_pending none = false
is_pending (some d) = true

module _ (codec : Codec) where
  -- The part of the invariant about the messages.
  pub record HoldsMessages (c : Connection) : Type 0 where
    pub bounded : length c.messages ≤ max_messages
    pub rising : Rising c.sequence c.messages
    pub unique : Distinct (keys_of codec c.messages)
    pub known : (j : String) → Memᴰ j (keys_of codec c.messages) → Memᴰ j c.seen

  -- The part about the socket: from the first mount on there is a socket or a pending attempt.
  pub record HoldsSocket (c : Connection) : Type 0 where
    pub backoff_low : initial_backoff ≤ c.backoff
    pub backoff_high : c.backoff ≤ max_backoff
    pub retries :
        c.mounted ≡ true → 0 < c.lifecycle → (c.socket ≡ true) ⊎ (is_pending c.timer ≡ true)
    pub quiet : c.mounted ≡ false → c.timer ≡ none

  messages-append :
      (text : String) (c : Connection)
      → contains c.seen (event_key codec text) ≡ false
      → HoldsMessages c
      → HoldsMessages (append_message codec text c)
  unfolding append_message
  messages-append text c new h = record {
    bounded = length-slice_last max_messages (c.messages ++ m ∷ []);
    rising = Rising-drop _ _ _ (Rising-concat c.sequence c.messages m h.rising refl);
    unique =
        rw (← slice_last-map (λ m. event_key codec m.data_text) max_messages (c.messages ++ m ∷ []))
          (Distinct-drop _ (keys_of codec (c.messages ++ m ∷ [])) (
            rw map-append (
              Distinct-concat (keys_of codec c.messages) (event_key codec text) h.unique
                (λ q. fresh (h.known _ q)))));
    known = λ j q. (Memᴰ-add_all j [] _).1 (inr q);
  }
    where
      m : ConnectionMessage
      m = record { id = suc c.sequence; data_text = text }

      fresh : ¬ Memᴰ (event_key codec text) c.seen
      fresh q = cc ((contains_iff (event_key codec text) c.seen).1 q)

  messages-hydrate :
      (lifecycle : ℕ) (stored : List String) (c : Connection)
      → HoldsMessages c
      → HoldsMessages (hydrate codec lifecycle stored c)
  unfolding hydrate
  messages-hydrate lifecycle stored c h =
      elim (Bool-cases (not c.mounted || not (nat_eq lifecycle c.lifecycle))) [
        | inl stale ↦ rw stale h
        | inr live ↦ rw live filled
      ]
    where
      texts : List String
      texts = ordered codec (stored ++ c.buffered)

      filled : HoldsMessages (record c {
        buffered = [];
        seen = set_of (map (event_key codec) texts);
        messages = number codec c.sequence texts;
        sequence = c.sequence + length texts;
        hydrated = true;
      })
      filled = record {
        bounded = rw (length-number codec c.sequence texts) (length-ordered codec _);
        rising = Rising-number codec c.sequence _ texts (omega arith);
        unique = rw (keys_of-number codec c.sequence texts) (Distinct-keys-ordered codec _);
        known = λ j q.
            (Memᴰ-add_all j [] (map (event_key codec) texts)).1
              (inr (rw (keys_of-number codec c.sequence texts) at q));
      }

  messages-received :
      (text : String) (c : Connection) → HoldsMessages c → HoldsMessages (on_message codec text c)
  unfolding on_message
  messages-received text c h =
      if_both HoldsMessages c.mounted _ c
        (λ here.
          if_both HoldsMessages c.hydrated _ _
            (λ filled.
              if_both HoldsMessages (contains c.seen (event_key codec text)) c _ (λ old. h)
                (λ new. messages-append text c new h))
            (λ early. buffered))
        (λ gone. h)
    where
      buffered : HoldsMessages (record c { buffered = c.buffered ++ text ∷ [] })
      buffered = record {
        bounded = h.bounded;
        rising = h.rising;
        unique = h.unique;
        known = h.known;
      }

  -- Callbacks that touch neither the messages nor their keys and ids.
  messages-same :
      (c d : Connection)
      → d.messages ≡ c.messages
      → d.sequence ≡ c.sequence
      → d.seen ≡ c.seen
      → HoldsMessages c
      → HoldsMessages d
  messages-same c d e f g h = record {
    bounded = rw e h.bounded;
    rising = rw (e, f) h.rising;
    unique = rw e h.unique;
    known = λ j. rw (e, g) (h.known j);
  }

  messages-step : (a : Action) (c : Connection) → HoldsMessages c → HoldsMessages (step codec a c)
  unfolding step
  messages-step (mount returns) c h =
      messages-same c _ (ground arith) (ground arith) (ground arith) h
  messages-step (unmount lifecycle) c h = messages-same c _ refl refl refl h
  messages-step opened c h = messages-same c _ (ground arith) (ground arith) (ground arith) h
  messages-step closed c h = messages-same c _ (ground arith) (ground arith) (ground arith) h
  messages-step errored c h = messages-same c _ (ground arith) (ground arith) (ground arith) h
  messages-step cleared c h = record {
    bounded = omega arith;
    rising = tt;
    unique = tt;
    known = λ j q. absurd (Memᴰ.not-nil q);
  }
  messages-step (received text) c h = messages-received text c h
  messages-step (timer_fired returns) c h =
      messages-same c _ (ground arith) (ground arith) (ground arith) h
  messages-step (history lifecycle has_token reply) c h = messages-hydrate lifecycle _ c h

  -- A message changes nothing about the socket.
  socket-received :
      (text : String) (c : Connection) → HoldsSocket c → HoldsSocket (on_message codec text c)
  unfolding on_message append_message
  socket-received text c h =
      if_both HoldsSocket c.mounted _ c
        (λ here.
          if_both HoldsSocket c.hydrated _ _
            (λ filled.
              if_both HoldsSocket (contains c.seen (event_key codec text)) c _ (λ old. h)
                (λ new. ground arith))
            (λ early. ground arith))
        (λ gone. h)

  socket-step : (a : Action) (c : Connection) → HoldsSocket c → HoldsSocket (step codec a c)
  unfolding step
  socket-step (mount returns) c h = ground arith
  socket-step (unmount lifecycle) c h = ground arith
  socket-step opened c h = ground arith
  socket-step closed c h = ground arith
  socket-step errored c h = ground arith
  socket-step cleared c h = ground arith
  socket-step (received text) c h = socket-received text c h
  socket-step (timer_fired returns) c h = ground arith
  socket-step (history lifecycle has_token reply) c h = ground arith

  -- Every callback, in every state, keeps both parts: at most 2000 messages, whose ids rise and whose
  -- event keys are distinct and all in the set of seen keys; a backoff from 1000 to 30000; and from
  -- the first mount on, while the provider is mounted, a socket or a pending attempt.
  pub step-holds :
      (a : Action) (c : Connection)
      → HoldsMessages c
      → HoldsSocket c
      → HoldsMessages (step codec a c) × HoldsSocket (step codec a c)
  step-holds a c h k = (messages-step a c h, socket-step a c k)

  run-holds :
      (acts : List Action) (c : Connection)
      → HoldsMessages c
      → HoldsSocket c
      → HoldsMessages (run codec acts c) × HoldsSocket (run codec acts c)
  unfolding run
  run-holds [] c h k = (h, k)
  run-holds (a ∷ acts) c h k =
      let (h', k') = step-holds a c h k in run-holds acts (step codec a c) h' k'

  initial-HoldsMessages : HoldsMessages initial
  unfolding initial
  initial-HoldsMessages = record {
    bounded = omega arith;
    rising = tt;
    unique = tt;
    known = λ j q. absurd (Memᴰ.not-nil q);
  }

  initial-HoldsSocket : HoldsSocket initial
  unfolding initial
  initial-HoldsSocket = ground arith

  -- After any callbacks in any order: the messages number at most 2000, their ids rise along the list
  -- (none is above the last id given out), no two have one event key, and each key is in the set of
  -- seen keys; the backoff lies between 1000 and 30000; from the first mount on, wherever the provider
  -- is mounted it has a socket or an attempt to reconnect is scheduled; where it is not mounted, no
  -- attempt is scheduled.
  pub run_sound :
      (acts : List Action)
      → HoldsMessages (run codec acts initial) × HoldsSocket (run codec acts initial)
  run_sound acts = run-holds acts initial initial-HoldsMessages initial-HoldsSocket

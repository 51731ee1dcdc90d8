-- ===== src/Stream/Invariant.antt =====
-- What holds of the stream page between two callbacks.
use kprobe.Base.{
  ◌≤◌, ◌<◌, ◌≡◌, refl, sym, ◌∙◌, String, true, false, not, Option, none, some, List, [], ◌∷◌, ◌++◌,
  arith, nat_eq, if◌then◌else◌, ◌==◌, string_key, length, filter, contains, if_both, Option-cases,
  inl, inr, length-append, Distinct, Distinct-concat, Memᴰ, contains_iff, subst,
}
use kprobe.Json.{Codec}
use kprobe.Event.{KernelEvent, EventType, mock, event_types, type_key}
use kprobe.Wire.{Env}
use kprobe.Connection.{ConnectionMessage}
use kprobe.Feed.{decode, is_new}
use kprobe.Stream.{
  Stream, initial, max_events, handle_new_event, close_gone, toggle_type, click_row, mock_tick,
  process, take_in, process_all, drain, Action, arrived, status_changed, ticked, second,
  pause_toggled, details_closed, cleared, type_toggled, row_clicked, scrolled, handle_scroll,
  handle, step,
}
use kprobe.Stream.Window.{length-keep_last}
use kprobe.Stream.Types.{length-removed, Distinct-filter, Distinct-of_test}
use kprobe.Stream.Details.{close_gone_closed, close_gone_open}

pub record Sound (s : Stream) : Type 0 where
  pub bounded : length s.events ≤ max_events
  pub some_type : 0 < length s.active_types
  pub each_once : Distinct s.active_types

Sound-closed : (s : Stream) → Sound s → Sound (record s { expanded_id = none })
Sound-closed s h = record { bounded = h.bounded; some_type = h.some_type; each_once = h.each_once }

Sound-opened : (s : Stream) (id : String) → Sound s → Sound (record s { expanded_id = some id })
Sound-opened s id h = record {
  bounded = h.bounded;
  some_type = h.some_type;
  each_once = h.each_once;
}

Sound-close_gone : (s : Stream) → Sound s → Sound (close_gone s)
Sound-close_gone s h = elim (Option-cases s.expanded_id) [
  | inl closed ↦ subst Sound (sym (close_gone_closed s closed)) h
  | inr (id, e) ↦
      subst Sound (sym (close_gone_open s id e))
        (if_both Sound _ _ _ (λ gone. Sound-closed s h) (λ there. h))
]

clash : true ≡ false → ⊥
clash e = cc

Sound-toggle_type : (t : EventType) (s : Stream) → Sound s → Sound (toggle_type t s)
unfolding toggle_type
Sound-toggle_type t s h =
    if_both Sound (contains s.active_types t) _ _
      (λ on. if_both Sound (nat_eq (length s.active_types) 1) _ _ (λ last. h) without)
      (λ off. record {
        bounded = h.bounded;
        some_type = omega (arith, length-append s.active_types (t ∷ []));
        each_once = Distinct-concat s.active_types t h.each_once (fresh off);
      })
  where
    fresh : contains s.active_types t ≡ false → ¬ Memᴰ t s.active_types
    fresh off m = clash (sym ((contains_iff t s.active_types).1 m) ∙ off)

    without :
        nat_eq (length s.active_types) 1 ≡ false
        → Sound (record s { active_types = filter (λ u. not (u == t)) s.active_types })
    without more = record {
      bounded = h.bounded;
      some_type = ground (arith, length-removed t s.active_types h.each_once);
      each_once = Distinct-filter _ s.active_types h.each_once;
    }

Sound-handle_new_event : (e : KernelEvent) (s : Stream) → Sound s → Sound (handle_new_event e s)
Sound-handle_new_event e s h = record {
  bounded = length-keep_last (s.events ++ e ∷ []);
  some_type = h.some_type;
  each_once = h.each_once;
}

Sound-take_in :
    (codec : Codec) (env : Env) (o : Option KernelEvent) (s : Stream)
    → Sound s
    → Sound (take_in codec env o s)
Sound-take_in codec env none s h = h
Sound-take_in codec env (some e) s h = Sound-handle_new_event e s h

Sound-process_all :
    (codec : Codec) (env : Env) (ms : List ConnectionMessage) (s : Stream)
    → Sound s
    → Sound (process_all codec env ms s)
unfolding process_all
Sound-process_all codec env [] s h = h
Sound-process_all codec env (m ∷ ms) s h =
    let k = Sound-take_in codec env (decode codec env m) s h in
    Sound-process_all codec env ms (process codec env m s)
      (record { bounded = k.bounded; some_type = k.some_type; each_once = k.each_once })

Sound-drain : (codec : Codec) (env : Env) (s : Stream) → Sound s → Sound (drain codec env s)
unfolding drain
Sound-drain codec env s h =
    if_both Sound s.paused s _ (λ on. h)
      (λ off. Sound-process_all codec env (filter (is_new codec env s.processed) s.messages) s h)

Sound-click_row : (e : KernelEvent) (s : Stream) → Sound s → Sound (click_row e s)
Sound-click_row e s h =
    elim s.expanded_id
      as (λ o. Sound (elim o [
        | none ↦ record s { expanded_id = some e.id }
        | some id ↦
            if id == e.id
            then record s { expanded_id = none }
            else record s { expanded_id = some e.id }
      ])) [
        | none ↦ Sound-opened s e.id h
        | some id ↦
            if_both Sound (id == e.id) _ _ (λ same. Sound-closed s h)
              (λ other. Sound-opened s e.id h)
      ]

Sound-mock_tick : (e : KernelEvent) (s : Stream) → Sound s → Sound (mock_tick e s)
Sound-mock_tick e s h =
    elim s.status
      as (λ st. Sound (elim st [ mock ↦ if s.paused then s else handle_new_event e s | _ ↦ s ])) [
        | mock ↦ if_both Sound s.paused s _ (λ on. h) (λ off. Sound-handle_new_event e s h)
        | _ ↦ h
      ]

Sound-handle :
    (codec : Codec) (env : Env) (a : Action) (s : Stream) → Sound s → Sound (handle codec env a s)
unfolding handle handle_scroll
Sound-handle codec env (arrived ms) s h =
    Sound-drain codec env (record s { messages = ms })
      (record { bounded = h.bounded; some_type = h.some_type; each_once = h.each_once })
Sound-handle codec env (status_changed st) s h = record {
  bounded = h.bounded;
  some_type = h.some_type;
  each_once = h.each_once;
}
Sound-handle codec env (ticked e) s h = Sound-mock_tick e s h
Sound-handle codec env second s h = record {
  bounded = h.bounded;
  some_type = h.some_type;
  each_once = h.each_once;
}
Sound-handle codec env pause_toggled s h =
    Sound-drain codec env (record s { paused = not s.paused })
      (record { bounded = h.bounded; some_type = h.some_type; each_once = h.each_once })
Sound-handle codec env details_closed s h = Sound-closed s h
Sound-handle codec env cleared s h = record {
  bounded = omega arith;
  some_type = h.some_type;
  each_once = h.each_once;
}
Sound-handle codec env (type_toggled t) s h = Sound-toggle_type t s h
Sound-handle codec env (row_clicked e) s h = Sound-click_row e s h
Sound-handle codec env (scrolled top height client) s h = record {
  bounded = h.bounded;
  some_type = h.some_type;
  each_once = h.each_once;
}

pub data Reach (codec : Codec) (env : Env) : Stream → Type 0 where
  start : Reach codec env initial
  next : {s : Stream} (a : Action) → Reach codec env s → Reach codec env (step codec env a s)

-- In every state that the callbacks reach, the page holds at most 500 events, and at least one type of
-- event is selected, none of them twice.
pub stream-Sound : (codec : Codec) (env : Env) (s : Stream) → Reach codec env s → Sound s
unfolding step
stream-Sound codec env _ start = record {
  bounded = omega arith;
  some_type = omega arith;
  each_once = Distinct-of_test event_types refl;
}
stream-Sound codec env _ (next {s} a r) =
    Sound-close_gone (handle codec env a s)
      (Sound-handle codec env a s (stream-Sound codec env s r))

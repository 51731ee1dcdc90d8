-- ===== src/Timeline/Invariant.antt =====
-- What holds of the timeline page between two callbacks.
use kprobe.Base.{
  ℕ, ◌≤◌, ◌<◌, ◌*◌, ◌≡◌, refl, sym, ◌∙◌, subst, String, Bool, true, false, not, Option, none, some,
  List, [], ◌∷◌, ◌++◌, arith, nat_eq, if◌then◌else◌, ◌==◌, length, filter, contains, if_both,
  length-append, length-slice_last, Distinct, Distinct-concat, contains_iff, ltb,
}
use kprobe.Event.{KernelEvent, EventType, mock, event_types, type_key}
use kprobe.Timeline.{
  Timeline, Setting, initial, max_events, min_view, max_view, Window, one, five, thirty, all,
  seconds, toggled, append_events, mock_tick, click_lane, handle_canvas_click, handle_wheel,
  events_of, pending, last_id, drain, active_events, ruler_h, lane_label_w, Action, arrived,
  status_changed, ticked, pause_toggled, escaped, detail_closed, cleared, resized, wheeled, clicked,
  type_toggled, window_chosen, step,
}
use kprobe.Stream.Types.{length-removed, Distinct-filter, Distinct-of_test}

-- The part of the state that the invariant speaks of.
pub record Core : Type 0 where
  pub events : List KernelEvent
  pub event_count : ℕ
  pub view : ℕ
  pub offset : ℕ
  pub types : List EventType

abbrev pub core : Timeline → Core
core s = record {
  events = s.events;
  event_count = s.event_count;
  view = s.view_ns;
  offset = s.offset_ns;
  types = s.active_types;
}

-- At most 2000 events, counted right.
pub record Kept (events : List KernelEvent) (count : ℕ) : Type 0 where
  pub few : length events ≤ max_events
  pub counted : count ≡ length events

-- A view between 0.5 ms and 120 s, not moved off the end.
pub record Viewed (view offset : ℕ) : Type 0 where
  pub view_above : min_view ≤ view
  pub view_below : view ≤ max_view
  pub at_the_end : offset ≡ 0

-- At least one type of event, none of them twice.
pub record Chosen (types : List EventType) : Type 0 where
  pub some_type : 0 < length types
  pub each_once : Distinct types

pub record IsSound (c : Core) : Type 0 where
  pub kept : Kept c.events c.event_count
  pub viewed : Viewed c.view c.offset
  pub chosen : Chosen c.types

abbrev pub Sound : Timeline → Type 0
Sound s = IsSound (core s)

clash : true ≡ false → ⊥
clash e = cc

Chosen-toggled : (t : EventType) (types : List EventType) → Chosen types → Chosen (toggled t types)
unfolding toggled
Chosen-toggled t types h =
    if_both Chosen (contains types t) _ _
      (λ on. if_both Chosen (nat_eq (length types) 1) _ _ (λ last. h) without) added
  where
    added : contains types t ≡ false → Chosen (types ++ t ∷ [])
    added off = record {
      some_type = omega (arith, length-append types (t ∷ []));
      each_once =
          Distinct-concat types t h.each_once (λ m. clash (sym ((contains_iff t types).1 m) ∙ off));
    }

    without : nat_eq (length types) 1 ≡ false → Chosen (filter (λ u. not (u == t)) types)
    without more = record {
      some_type = ground (arith, length-removed t types h.each_once);
      each_once = Distinct-filter _ types h.each_once;
    }

Sound-append_events :
    (batch : List KernelEvent) (s : Timeline) → Sound s → Sound (append_events batch s)
unfolding append_events
Sound-append_events batch s h = record {
  kept = record { few = length-slice_last max_events (s.events ++ batch); counted = refl };
  viewed = h.viewed;
  chosen = h.chosen;
}

Sound-mock_tick : (batch : List KernelEvent) (s : Timeline) → Sound s → Sound (mock_tick batch s)
Sound-mock_tick batch s h =
    elim s.status
      as (λ st. Sound (elim st [ mock ↦ if s.paused then s else append_events batch s | _ ↦ s ])) [
        | mock ↦ if_both Sound s.paused s _ (λ on. h) (λ off. Sound-append_events batch s h)
        | _ ↦ h
      ]

module _ (setting : Setting) where
  Sound-handle_wheel : (up : Bool) (s : Timeline) → Sound s → Sound (handle_wheel setting up s)
  unfolding handle_wheel
  Sound-handle_wheel up s h = record {
    kept = h.kept;
    viewed = record {
      view_above = omega arith;
      view_below = omega arith;
      at_the_end = h.viewed.at_the_end;
    };
    chosen = h.chosen;
  }

  Viewed-seconds :
      (w : Window) → Viewed ((if nat_eq (seconds w) 0 then 30 else seconds w) * 1_000_000_000) 0
  Viewed-seconds one = record {
    view_above = omega arith;
    view_below = omega arith;
    at_the_end = refl;
  }
  Viewed-seconds five = record {
    view_above = omega arith;
    view_below = omega arith;
    at_the_end = refl;
  }
  Viewed-seconds thirty = record {
    view_above = omega arith;
    view_below = omega arith;
    at_the_end = refl;
  }
  Viewed-seconds all = record {
    view_above = omega arith;
    view_below = omega arith;
    at_the_end = refl;
  }

  core-click_lane :
      (lane : Option String) (mx : ℕ) (events : List KernelEvent) (s : Timeline)
      → core (click_lane setting lane mx events s) ≡ core s
  core-click_lane none mx events s = refl
  core-click_lane (some lane) mx events s = refl

  -- A click changes the selection alone.
  pub core-handle_canvas_click :
      (mx my : ℕ) (s : Timeline) → core (handle_canvas_click setting mx my s) ≡ core s
  unfolding handle_canvas_click
  core-handle_canvas_click mx my s =
      let Same : Timeline → Type 0 = λ u. core u ≡ core s in
      if_both Same (ltb mx lane_label_w) _ _ (λ p. refl)
        (λ p.
          if_both Same (nat_eq (length (active_events s)) 0) _ _ (λ q. refl)
            (λ q.
              if_both Same (ltb my ruler_h) _ _ (λ r. refl)
                (λ r. core-click_lane _ mx (active_events s) s)))

  Sound-drain : (s : Timeline) → Sound s → Sound (drain setting s)
  unfolding drain
  Sound-drain s h =
      if_both Sound s.paused _ _ (λ on. h)
        (λ off.
          if_both Sound (ltb 0 (length (events_of setting (pending setting s)))) _ _
            (λ more.
              Sound-append_events _
                (record s { processed = last_id setting s.processed (pending setting s) }) h)
            (λ no_more. h))

  Sound-step : (a : Action) (s : Timeline) → Sound s → Sound (step setting a s)
  unfolding step
  Sound-step (arrived ms) s h = Sound-drain (record s { messages = ms }) h
  Sound-step (status_changed st) s h = h
  Sound-step (ticked batch) s h = Sound-mock_tick batch s h
  Sound-step pause_toggled s h = Sound-drain (record s { paused = not s.paused }) h
  Sound-step escaped s h = h
  Sound-step detail_closed s h = h
  Sound-step cleared s h = record {
    kept = record { few = omega arith; counted = refl };
    viewed = h.viewed;
    chosen = h.chosen;
  }
  Sound-step (resized w height) s h = h
  Sound-step (wheeled up) s h = Sound-handle_wheel up s h
  Sound-step (clicked mx my) s h = subst IsSound (sym (core-handle_canvas_click mx my s)) h
  Sound-step (type_toggled t) s h = record {
    kept = h.kept;
    viewed = h.viewed;
    chosen = Chosen-toggled t s.active_types h.chosen;
  }
  Sound-step (window_chosen w) s h = record {
    kept = h.kept;
    viewed = Viewed-seconds w;
    chosen = h.chosen;
  }

  pub data Reach : Timeline → Type 0 where
    start : Reach initial
    next : {s : Timeline} (a : Action) → Reach s → Reach (step setting a s)

  -- Whatever the wheel, the clicks, the messages and the other callbacks do: the timeline holds at most
  -- 2000 events and counts them right, its view is between 0.5 ms and 120 s and is never moved off the
  -- end, and at least one type of event is active, none of them twice.
  pub timeline-Sound : (s : Timeline) → Reach s → Sound s
  timeline-Sound _ start = record {
    kept = record { few = omega arith; counted = refl };
    viewed = record { view_above = omega arith; view_below = omega arith; at_the_end = refl };
    chosen = record { some_type = omega arith; each_once = Distinct-of_test event_types refl };
  }
  timeline-Sound _ (next {s} a r) = Sound-step a s (timeline-Sound s r)

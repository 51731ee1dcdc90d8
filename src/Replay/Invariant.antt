-- ===== src/Replay/Invariant.antt =====
-- What holds of the replay page between two callbacks.
use kprobe.Base.{
  ℕ, ◌≤◌, ◌<◌, ◌≡◌, refl, ◌∙◌, sym, Bool, true, false, Option, none, Memᴰ, arith, leb, All,
  Memᴰ-All, All-of_any, any, not, Memᴰ-get_elem?, length, get_elem?, if_both, leb→le, Option-cases,
  inl, inr,
}
use Prim.{Unit, tt}
use kprobe.Incident.{Incident, ReplayEvent}
use kprobe.Incident.Database.{inc_001}
use kprobe.Incident.Queue.{inc_002}
use kprobe.Incident.Wal.{inc_003}
use kprobe.Replay.{
  incidents, ms, speeds, Replay, initial, count_at, tick, Direction, back, forward, step_target,
  target_of, handle_step, key_step, handle_select_incident, handle_play, handle_space, handle_scrub,
  handle_reset, handle_marker_click, on_key, space, arrow_left, arrow_right, other, Action, select,
  play, pause_pressed, reset, escape, memory_toggled, injections_reset, stepped, scrubbed, marker,
  speed, slid, key, frame, flag_eq, settle, handle, step, Key, step_from, next_at,
}

-- The buttons, sliders and marks there are: an incident of the list, a value of the range input, the
-- mark of an event of the incident, and one of the speeds.
abbrev pub Offered : Action → Replay → Type 0
Offered (select inc) s = Memᴰ inc incidents
Offered (scrubbed v) s = v ≤ s.incident.duration_ms
Offered (marker offset) s = (e : ReplayEvent) × Memᴰ e s.incident.events × (offset ≡ e.offset_ms)
Offered (speed i) s = i < length speeds
Offered _ s = Unit

pub data Reach : Replay → Type 0 where
  start : Reach initial
  next : {s : Replay} (a : Action) → Offered a s → Reach s → Reach (step a s)

pub record Sound (s : Replay) : Type 0 where
  pub incident_known : Memᴰ s.incident incidents
  pub in_window : s.playhead ≤ ms s.incident.duration_ms
  pub speed_known : s.speed_idx < length speeds
  pub clocked : s.frame_requested ≡ s.playing

-- The part that the effect on `playing` leaves alone.
record Placed (s : Replay) : Type 0 where
  incident_known : Memᴰ s.incident incidents
  in_window : s.playhead ≤ ms s.incident.duration_ms
  speed_known : s.speed_idx < length speeds

abbrev fits : Incident → ReplayEvent → Bool
fits inc e = leb e.offset_ms inc.duration_ms

abbrev Fits : Incident → Type 0
Fits inc = All (λ e. fits inc e ≡ true) inc.events

pub offset_le :
    (inc : Incident)
    → Memᴰ inc incidents
    → (e : ReplayEvent) → Memᴰ e inc.events
    → e.offset_ms ≤ inc.duration_ms
offset_le inc m e q =
    leb→le _ _ (Memᴰ-All (λ x. fits inc x ≡ true) inc.events (Memᴰ-All Fits incidents all_fit m) q)
  where
    fit : (i : Incident) → any (λ e. not (fits i e)) i.events ≡ false → Fits i
    fit i = All-of_any (fits i) i.events

    all_fit : All Fits incidents
    all_fit = (fit inc_001 refl, (fit inc_002 refl, (fit inc_003 refl, tt)))

ms_le : {m n : ℕ} → m ≤ n → ms m ≤ ms n
ms_le h = omega arith

step_target_le :
    (inc : Incident)
    → ((e : ReplayEvent) → Memᴰ e inc.events → e.offset_ms ≤ inc.duration_ms)
    → (cur : ℕ) (dir : Direction) → step_target inc cur dir ≤ ms inc.duration_ms
unfolding step_target
step_target_le inc fit cur dir =
    elim (Option-cases (get_elem? inc.events (target_of dir (length inc.events) cur))) [
      | inl gone ↦ rw (step_target, gone) (edge_le dir)
      | inr (e, found) ↦ rw (step_target, found) (ms_le (fit e (Memᴰ-get_elem? inc.events _ found)))
    ]
  where
    edge_le :
        (d : Direction) → elim d [ forward ↦ ms inc.duration_ms | back ↦ 0 ] ≤ ms inc.duration_ms
    edge_le forward = omega arith
    edge_le back = omega arith

Placed-settle : (was : Bool) (s : Replay) → Placed s → Placed (settle was s)
Placed-settle was s h =
    if_both Placed (flag_eq was s.playing) _ _ (λ p. h)
      (λ p. if_both Placed s.playing _ _ (λ q. kept) (λ q. kept'))
  where
    kept : Placed (record s { last_ts = none; frame_requested = true })
    kept = record {
      incident_known = h.incident_known;
      in_window = h.in_window;
      speed_known = h.speed_known;
    }

    kept' : Placed (record s { frame_requested = false })
    kept' = record {
      incident_known = h.incident_known;
      in_window = h.in_window;
      speed_known = h.speed_known;
    }

settle-clocked :
    (was : Bool) (s : Replay)
    → (was ≡ s.playing → s.frame_requested ≡ s.playing)
    → (settle was s).frame_requested ≡ (settle was s).playing
settle-clocked was s h = ground arith

-- What the callbacks besides frames keep: a requested frame stays requested.
record Moved (s s' : Replay) : Type 0 where
  placed : Placed s'
  same_frame : s'.frame_requested ≡ s.frame_requested

settled :
    (was : Bool) (s : Replay)
    → Placed s
    → (was ≡ s.playing → s.frame_requested ≡ s.playing)
    → Sound (settle was s)
settled was s h same = record {
  incident_known = p.incident_known;
  in_window = p.in_window;
  speed_known = p.speed_known;
  clocked = settle-clocked was s same;
}
  where
    p : Placed (settle was s)
    p = Placed-settle was s h

Sound-settle : (s s' : Replay) → Sound s → Moved s s' → Sound (settle s.playing s')
Sound-settle s s' h m = settled s.playing s' m.placed (λ e. m.same_frame ∙ h.clocked ∙ e)

moved :
    (s s' : Replay)
    → Memᴰ s'.incident incidents
    → s'.playhead ≤ ms s'.incident.duration_ms
    → s'.speed_idx < length speeds
    → s'.frame_requested ≡ s.frame_requested
    → Moved s s'
moved s s' known window idx same = record {
  placed = record { incident_known = known; in_window = window; speed_known = idx };
  same_frame = same;
}

Moved-step_from :
    (inc : Incident) (cur : ℕ) (dir : Direction) (s : Replay)
    → Sound s
    → step_target inc cur dir ≤ ms s.incident.duration_ms
    → Moved s (step_from inc cur dir s)
Moved-step_from inc cur dir s h low = moved s _ h.incident_known low h.speed_known refl

Moved-handle_play : (s : Replay) → Sound s → Moved s (handle_play s)
unfolding handle_play
Moved-handle_play s h =
    if_both (Moved s) (leb (ms s.incident.duration_ms) s.playhead) _ _
      (λ over. moved s _ h.incident_known (omega arith) h.speed_known refl)
      (λ more. moved s _ h.incident_known h.in_window h.speed_known refl)

-- The first render has the target 18 ms for the right key and 0 for the left one.
key_target_le :
    (dir : Direction) (inc : Incident)
    → Memᴰ inc incidents
    → step_target inc_001 (count_at inc_001 0) dir ≤ ms inc.duration_ms
unfolding step_target count_at
key_target_le back inc m = omega arith
key_target_le forward inc m = ms_le (
    leb→le 18 _
      (Memᴰ-All (λ i. leb 18 i.duration_ms ≡ true) incidents (refl, (refl, (refl, tt))) m))

Sound-tick :
    (now : ℕ) (s : Replay)
    → Sound s
    → s.frame_requested ≡ true
    → Sound (settle s.playing (tick now (record s { frame_requested = false })))
unfolding tick
Sound-tick now s h r =
    if_both (λ s'. Sound (settle s.playing s')) s.playing _ _
      (λ on.
        if_both (λ s'. Sound (settle s.playing s'))
          (leb (ms s.incident.duration_ms) (next_at now s)) _ _
          (λ over. settled s.playing _ inside (λ e. refl))
          (λ more. settled s.playing _ inside (λ e. sym on)))
      (λ off. absurd (ground arith))
  where
    inside :
        {fr pl : Bool} {n : ℕ} {ts : Option ℕ}
        → Placed (record s {
          playhead = next_at now s;
          frame_requested = fr;
          playing = pl;
          visible_count = n;
          last_ts = ts;
        })
    inside = record {
      incident_known = h.incident_known;
      in_window = ground arith;
      speed_known = h.speed_known;
    }

Sound-frame : (now : ℕ) (s : Replay) → Sound s → Sound (step (frame now) s)
unfolding step handle
Sound-frame now s h =
    if_both (λ s'. Sound (settle s.playing s')) s.frame_requested _ _ (λ r. Sound-tick now s h r)
      (λ r. Sound-settle s s h (moved s s h.incident_known h.in_window h.speed_known refl))

Moved-handle_step : (dir : Direction) (s : Replay) → Sound s → Moved s (handle_step dir s)
unfolding handle_step
Moved-handle_step dir s h =
    Moved-step_from s.incident _ dir s h
      (step_target_le s.incident (offset_le s.incident h.incident_known) _ dir)

Moved-key_step : (dir : Direction) (s : Replay) → Sound s → Moved s (key_step dir s)
unfolding key_step
Moved-key_step dir s h =
    Moved-step_from inc_001 _ dir s h (key_target_le dir s.incident h.incident_known)

Moved-handle_reset : (s : Replay) → Sound s → Moved s (handle_reset s)
unfolding handle_reset
Moved-handle_reset s h = moved s _ h.incident_known (omega arith) h.speed_known refl

Moved-on_key : (typing : Bool) (k : Key) (s : Replay) → Sound s → Moved s (on_key typing k s)
unfolding on_key handle_space
Moved-on_key true k s h = moved s s h.incident_known h.in_window h.speed_known refl
Moved-on_key false space s h =
    if_both (Moved s) s.playing _ _
      (λ on. moved s _ h.incident_known h.in_window h.speed_known refl)
      (λ off. Moved-handle_play s h)
Moved-on_key false arrow_left s h = Moved-key_step back s h
Moved-on_key false arrow_right s h = Moved-key_step forward s h
Moved-on_key false other s h = moved s s h.incident_known h.in_window h.speed_known refl

Sound-step : (a : Action) (s : Replay) → Offered a s → Sound s → Sound (step a s)
unfolding step handle handle_select_incident handle_scrub handle_marker_click
Sound-step (select inc) s o h = Sound-settle s _ h (moved s _ o (omega arith) h.speed_known refl)
Sound-step play s o h = Sound-settle s _ h (Moved-handle_play s h)
Sound-step (frame now) s o h = Sound-frame now s h
Sound-step reset s o h = Sound-settle s _ h (Moved-handle_reset s h)
Sound-step escape s o h = Sound-settle s _ h (Moved-handle_reset s h)
Sound-step (stepped dir) s o h = Sound-settle s _ h (Moved-handle_step dir s h)
Sound-step (scrubbed v) s o h =
    Sound-settle s _ h (moved s _ h.incident_known (ms_le o) h.speed_known refl)
Sound-step (marker offset) s (e, m, p) h = Sound-settle s _ h (
    moved s _ h.incident_known (ms_le (rw p (offset_le s.incident h.incident_known e m)))
      h.speed_known refl)
Sound-step (speed i) s o h = Sound-settle s _ h (moved s _ h.incident_known h.in_window o refl)
Sound-step (key typing k) s o h = Sound-settle s _ h (Moved-on_key typing k s h)
Sound-step pause_pressed s o h =
    Sound-settle s _ h (moved s _ h.incident_known h.in_window h.speed_known refl)
Sound-step memory_toggled s o h =
    Sound-settle s _ h (moved s _ h.incident_known h.in_window h.speed_known refl)
Sound-step injections_reset s o h =
    Sound-settle s _ h (moved s _ h.incident_known h.in_window h.speed_known refl)
Sound-step (slid slider v) s o h =
    Sound-settle s _ h (moved s _ h.incident_known h.in_window h.speed_known refl)

-- In every state that the callbacks reach from the first render, with the buttons, marks and slider
-- values the page offers: the incident is one of the list, the playhead is not past its end, the
-- speed is one of the list, and an animation frame is requested exactly while the replay plays.
pub replay-Sound : (s : Replay) → Reach s → Sound s
replay-Sound _ start = record {
  incident_known = Memᴰ.head refl;
  in_window = omega arith;
  speed_known = omega arith;
  clocked = refl;
}
replay-Sound _ (next {s} a o r) = Sound-step a s o (replay-Sound s r)

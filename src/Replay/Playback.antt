-- ===== src/Replay/Playback.antt =====
-- How the playhead moves while the replay plays.
use kprobe.Base.{
  ℕ, ◌+◌, ◌-◌, ◌*◌, ◌≤◌, min, ◌≡◌, refl, sym, ap, ◌∙◌, true, false, none, some, List, [], ◌∷◌,
  arith, leb, Bool-cases, inl, inr, if◌then◌else◌, get_elem?,
}
use Prim.{Unit}
use kprobe.Incident.{Incident, Injections}
use kprobe.Replay.{
  ms, Replay, speeds, speed_of, count_at, tick, handle, handle_play, step, play, frame,
}

abbrev pub frames : List ℕ → Replay → Replay
frames [] s = s
frames (t ∷ ts) s = frames ts (step (frame t) s)

-- The times do not go back, from `t` on.
abbrev pub Forward : ℕ → List ℕ → Type 0
Forward t [] = Unit
Forward t (u ∷ us) = (t ≤ u) × Forward u us

abbrev pub last_from : ℕ → List ℕ → ℕ
last_from t [] = t
last_from t (u ∷ us) = last_from u us

last_from-le : (t : ℕ) (ts : List ℕ) → Forward t ts → t ≤ last_from t ts
last_from-le t [] h = omega arith
last_from-le t (u ∷ us) (a, h) = let k = last_from-le u us h in omega arith

sum_times : (a b c : ℕ) → (a + b) * c ≡ a * c + b * c
sum_times a b c = omega arith

-- The time from `a` to `c` is that to `b` and from there.
span_split : (a b c v : ℕ) → a ≤ b → b ≤ c → (b - a) * v + (c - b) * v ≡ (c - a) * v
span_split a b c v h k = sym (sum_times (b - a) (c - b) v) ∙ ap (λ x. x * v) spans
  where
    spans : (b - a) + (c - b) ≡ c - a
    spans = omega arith

sub_self : (n : ℕ) → n - n ≡ 0
sub_self n = omega arith

zero_times : (n : ℕ) → 0 * n ≡ 0
zero_times n = omega arith

module _ (inc : Incident) (inj : Injections) (idx : ℕ) where
  abbrev rolling : ℕ → ℕ → ℕ → Replay
  rolling p n last = record {
    incident = inc;
    injections = inj;
    playing = true;
    speed_idx = idx;
    playhead = p;
    visible_count = n;
    frame_requested = true;
    last_ts = some last;
  }

  abbrev stopped : ℕ → ℕ → ℕ → Replay
  stopped p n last = record {
    incident = inc;
    injections = inj;
    playing = false;
    speed_idx = idx;
    playhead = p;
    visible_count = n;
    frame_requested = false;
    last_ts = some last;
  }

  abbrev velocity : ℕ
  velocity = elim (get_elem? speeds idx) [ none ↦ 0 | some tenths ↦ tenths ]

  frames-stopped : (ts : List ℕ) (p n last : ℕ) → (frames ts (stopped p n last)).playhead ≡ p
  unfolding step handle
  frames-stopped [] p n last = refl
  frames-stopped (t ∷ ts) p n last = frames-stopped ts p n last

  abbrev end : ℕ
  end = ms inc.duration_ms

  step-frame :
      (t p n last : ℕ)
      → (leb end (min (p + (t - last) * velocity) end) ≡ true
          → step (frame t) (rolling p n last)
            ≡ stopped
                (min (p + (t - last) * velocity) end)
                (count_at inc (min (p + (t - last) * velocity) end))
                t)
        × (leb end (min (p + (t - last) * velocity) end) ≡ false
            → step (frame t) (rolling p n last)
              ≡ rolling
                  (min (p + (t - last) * velocity) end)
                  (count_at inc (min (p + (t - last) * velocity) end))
                  t)
  unfolding step handle tick
  step-frame t p n last = (λ h. rw h refl, λ h. rw h refl)

  frames-rolling :
      (ts : List ℕ) (p n last : ℕ)
      → Forward last ts
      → p ≤ end
      → (frames ts (rolling p n last)).playhead
        ≡ min (p + (last_from last ts - last) * velocity) end
  frames-rolling [] p n last h k = rw (frames, sub_self last, zero_times velocity) (ground arith)
  frames-rolling (t ∷ ts) p n last (g, h) k = elim (Bool-cases (leb end next)) [
    | inl over ↦
        rw (frames, (step-frame t p n last).0 over)
          (frames-stopped ts next (count_at inc next) t ∙ at_end over)
    | inr more ↦
        rw (frames, (step-frame t p n last).1 more)
          (frames-rolling ts next (count_at inc next) t h (ground arith) ∙ short more)
  ]
    where
      next : ℕ
      next = min (p + (t - last) * velocity) end

      whole :
          (t - last) * velocity + (last_from t ts - t) * velocity
          ≡ (last_from t ts - last) * velocity
      whole = span_split last t (last_from t ts) velocity g (last_from-le t ts h)

      at_end : leb end next ≡ true → next ≡ min (p + (last_from t ts - last) * velocity) end
      at_end o = rw (← whole) (ground arith)

      short :
          leb end next ≡ false
          → min (next + (last_from t ts - t) * velocity) end
            ≡ min (p + (last_from t ts - last) * velocity) end
      short o = rw (← whole) (ground arith)

  -- After `play`, before the first frame.
  abbrev waiting : ℕ → ℕ → Replay
  waiting p n = record {
    incident = inc;
    injections = inj;
    playing = true;
    speed_idx = idx;
    playhead = p;
    visible_count = n;
    frame_requested = true;
    last_ts = none;
  }

  frame-waiting : (t p n : ℕ) → step (frame t) (waiting p n) ≡ step (frame t) (rolling p n t)
  unfolding step handle tick
  frame-waiting t p n = rw (sub_self t, zero_times velocity) refl

  frames-waiting :
      (t : ℕ) (ts : List ℕ) (p n : ℕ)
      → Forward t ts
      → p ≤ end
      → (frames (t ∷ ts) (waiting p n)).playhead ≡ min (p + (last_from t ts - t) * velocity) end
  frames-waiting t ts p n h k =
      rw (frames, frame-waiting t p n) (frames-rolling (t ∷ ts) p n t (omega arith, h) k)

-- Where `play` starts.
abbrev pub start_of : Replay → ℕ
start_of s = if leb (ms s.incident.duration_ms) s.playhead then 0 else s.playhead

-- After `play` on a replay that is paused, and animation frames at times that do not go back, the
-- playhead is where it started, which is 0 if it was at the end, and on from there by the time since
-- the first frame at the speed selected, but not past the end of the incident.
pub frames-play :
    (s : Replay) (t : ℕ) (ts : List ℕ)
    → s.playing ≡ false
    → Forward t ts
    → (frames (t ∷ ts) (step play s)).playhead
      ≡ min (start_of s + (last_from t ts - t) * speed_of s) (ms s.incident.duration_ms)
unfolding step handle handle_play
frames-play s t ts idle h = elim (Bool-cases (leb (ms s.incident.duration_ms) s.playhead)) [
  | inl over ↦
      rw (idle, over) (frames-waiting s.incident s.injections s.speed_idx t ts 0 0 h (omega arith))
  | inr more ↦
      rw (idle, more)
        (frames-waiting s.incident s.injections s.speed_idx t ts s.playhead s.visible_count h
          (ground arith))
]

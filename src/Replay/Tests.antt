-- ===== src/Replay/Tests.antt =====
-- Runs of the replay page on concrete states, and the theorems on them applied there.
use kprobe.Base.{◌+◌, ◌-◌, ◌*◌, min, max, ◌≡◌, refl, false, [], ◌∷◌, Memᴰ, arith}
use Prim.{tt}
use kprobe.Incident.{Injections, default_injections}
use kprobe.Incident.Queue.{inc_002}
use kprobe.Replay.{
  Replay, initial, ms, step, play, select, forward, back, count_at, handle_step, on_key,
  arrow_right, key_step, speed_of,
}
use kprobe.Replay.Invariant.{Sound, replay-Sound, start, next}
use kprobe.Replay.Steps.{count-handle_step}
use kprobe.Replay.Playback.{frames, start_of, frames-play}

abbrev queue : Replay
queue = record initial { incident = inc_002 }

queue_is_selected : step (select inc_002) initial ≡ queue
unfolding step
queue_is_selected = refl

replay-Sound_example : Sound (step play (step (select inc_002) initial))
replay-Sound_example =
    replay-Sound (step play (step (select inc_002) initial))
      (next play tt (next (select inc_002) (Memᴰ.tail (Memᴰ.head refl)) start))

-- From the first event of `inc_002`, at 0 ms, the forward button goes to the third one, at 55 ms.
steps_two_events : (handle_step forward queue).playhead ≡ ms 55
unfolding handle_step
steps_two_events = refl

count-handle_step_example :
    (count_at inc_002 (handle_step forward queue).playhead ≡ min 8 (count_at inc_002 0 + 2))
    × (count_at inc_002 (handle_step back queue).playhead ≡ max 1 (count_at inc_002 0 - 1))
count-handle_step_example = count-handle_step queue refl (omega arith)

-- The right key seeks to 18 ms, whatever is selected: the handler is that of the first render.
key_ignores_selection : (on_key false arrow_right queue).playhead ≡ ms 18
unfolding on_key key_step
key_ignores_selection = refl

-- Two seconds at the real speed, on an incident of 980 ms.
frames-play_example :
    (frames (1_000 ∷ 501_000 ∷ 2_001_000 ∷ []) (step play queue)).playhead
    ≡ min (start_of queue + (2_001_000 - 1_000) * speed_of queue) (ms 980)
frames-play_example =
    frames-play queue 1_000 (501_000 ∷ 2_001_000 ∷ []) refl (omega arith, (omega arith, tt))

abbrev patient : Injections
patient = record default_injections { timeout_ms = 2_000 }

-- ===== src/Replay/Steps.antt =====
-- The step buttons and the arrow keys of the replay page.
use kprobe.Base.{
  ℕ, zero, suc, ◌+◌, ◌-◌, ◌≤◌, ◌<◌, min, max, ◌≡◌, refl, ap, subst, ◌∙◌, Bool, true, false, some,
  List, [], ◌∷◌, arith, ltb, length, get_elem?, filter, All, All-of_any, length-filter-le, any, not,
  ◌&&◌, Memᴰ-All, Memᴰ-get_elem?,
}
use Prim.{Unit, tt}
use kprobe.Incident.{Incident, ReplayEvent}
use kprobe.Replay.{
  ms, Replay, reached, shown, count_at, Direction, back, forward, target_of, step_target,
  handle_step,
}

-- Each event is after those before it, as a test.
abbrev pub rising : List ReplayEvent → Bool
rising [] = true
rising (e ∷ es) = not (any (λ f. not (ltb e.offset_ms f.offset_ms)) es) && rising es

abbrev Rising : List ReplayEvent → Type 0
Rising [] = Unit
Rising (e ∷ es) = All (λ f. ltb e.offset_ms f.offset_ms ≡ true) es × Rising es

rising-Rising : (es : List ReplayEvent) → rising es ≡ true → Rising es
rising-Rising [] h = tt
rising-Rising (e ∷ es) h = (
  All-of_any (λ f. ltb e.offset_ms f.offset_ms) es (ground arith),
  rising-Rising es (ground arith),
)

filter-none :
    (e : ReplayEvent) (es : List ReplayEvent)
    → All (λ f. ltb e.offset_ms f.offset_ms ≡ true) es
    → length (filter (reached (ms e.offset_ms)) es) ≡ 0
filter-none e [] h = refl
filter-none e (f ∷ es) (q, h) = rw (late f q) (filter-none e es h)
  where
    late :
        (f : ReplayEvent) → ltb e.offset_ms f.offset_ms ≡ true → reached (ms e.offset_ms) f ≡ false
    late f q = ground arith

reached_itself : (e : ReplayEvent) → reached (ms e.offset_ms) e ≡ true
reached_itself e = ground arith

only :
    (e : ReplayEvent) (es : List ReplayEvent)
    → All (λ f. ltb e.offset_ms f.offset_ms ≡ true) es
    → length (filter (reached (ms e.offset_ms)) (e ∷ es)) ≡ 1
only e es h = rw (reached_itself e) (ap suc (filter-none e es h))

earlier :
    (e f : ReplayEvent) → ltb e.offset_ms f.offset_ms ≡ true → reached (ms f.offset_ms) e ≡ true
earlier e f h = ground arith

fewer : (n c : ℕ) → c ≤ n → 0 < n → suc (target_of back n c) ≡ max 1 (c - 1)
fewer n zero h g = ground arith
fewer n (suc zero) h g = ground arith
fewer n (suc (suc c)) h g = ground arith

length-reached :
    (es : List ReplayEvent) (k : ℕ) (e : ReplayEvent)
    → Rising es
    → get_elem? es k ≡ some e
    → length (filter (reached (ms e.offset_ms)) es) ≡ suc k
length-reached [] k e r h = cc
length-reached (x ∷ es) zero e (a, r) h =
    subst (λ f. length (filter (reached (ms f.offset_ms)) (x ∷ es)) ≡ 1) (out h) (only x es a)
  where
    out : {y z : ReplayEvent} → some y ≡ some z → y ≡ z
    out q = cc
length-reached (x ∷ es) (suc k) e (a, r) h = rw early (ap suc (length-reached es k e r h))
  where
    early : reached (ms e.offset_ms) x ≡ true
    early =
        earlier x e
          (Memᴰ-All (λ f. ltb x.offset_ms f.offset_ms ≡ true) es a (Memᴰ-get_elem? es k h))

get_elem?-some {ℓ} :
    {A : Type ℓ} (xs : List A) (k : ℕ) → k < length xs → (a : A) × (get_elem? xs k ≡ some a)
get_elem?-some [] k h = absurd (omega arith)
get_elem?-some (x ∷ xs) zero h = (x, refl)
get_elem?-some (x ∷ xs) (suc k) h = get_elem?-some xs k (omega arith)

count_at-le : (inc : Incident) (playhead : ℕ) → count_at inc playhead ≤ length inc.events
unfolding count_at shown
count_at-le inc playhead = length-filter-le (reached playhead) inc.events

count-step_target :
    (inc : Incident) (cur : ℕ) (dir : Direction)
    → Rising inc.events
    → 0 < length inc.events
    → count_at inc (step_target inc cur dir) ≡ suc (target_of dir (length inc.events) cur)
unfolding step_target count_at shown
count-step_target inc cur dir r h =
    let (e, found) =
      get_elem?-some inc.events (target_of dir (length inc.events) cur) (below dir) in
    rw (step_target, found) (length-reached inc.events _ e r found)
  where
    below : (d : Direction) → target_of d (length inc.events) cur < length inc.events
    below back = ground arith
    below forward = ground arith

-- On an incident that has events, each after those before it, the forward button shows two events
-- more, or all of them if there are not as many, and the back button one less, but not less than one.
pub count-handle_step :
    (s : Replay)
    → rising s.incident.events ≡ true
    → 0 < length s.incident.events
    → (count_at s.incident (handle_step forward s).playhead
        ≡ min (length s.incident.events) (count_at s.incident s.playhead + 2))
      × (count_at s.incident (handle_step back s).playhead
          ≡ max 1 (count_at s.incident s.playhead - 1))
unfolding handle_step
count-handle_step s r h = (
  count-step_target s.incident _ forward (rising-Rising _ r) h ∙ ahead,
  count-step_target s.incident _ back (rising-Rising _ r) h ∙ behind,
)
  where
    few : count_at s.incident s.playhead ≤ length s.incident.events
    few = count_at-le s.incident s.playhead

    ahead :
        suc (target_of forward (length s.incident.events) (count_at s.incident s.playhead))
        ≡ min (length s.incident.events) (count_at s.incident s.playhead + 2)
    ahead = ground arith

    behind :
        suc (target_of back (length s.incident.events) (count_at s.incident s.playhead))
        ≡ max 1 (count_at s.incident s.playhead - 1)
    behind = fewer _ _ few h

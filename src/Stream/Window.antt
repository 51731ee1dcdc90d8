-- ===== src/Stream/Window.antt =====
-- The events that the stream page holds after it takes messages in: the newest of all of them.
use kprobe.Base.{
  ℕ, zero, suc, ◌+◌, ◌-◌, ◌≤◌, ◌≡◌, refl, sym, subst, if◌then◌else◌, ap, ◌∙◌, false, none, some,
  List, [], ◌∷◌, ◌++◌, arith, ltb, length, drop, filter, slice_last, slice_last_short,
  length-append, length-drop, length-slice_last, Bool-cases, Option-cases, inl, inr,
}
use mathlib.Core.List.{append-nil, append_assoc}
use kprobe.Json.{Codec}
use kprobe.Event.{KernelEvent}
use kprobe.Wire.{Env}
use kprobe.Connection.{ConnectionMessage}
use kprobe.Feed.{decode, is_new}
use kprobe.Stream.{Stream, max_events, keep_last, process, process_all, drain}

drop-nil {ℓ} : {A : Type ℓ} (n : ℕ) → ◌≡◌ {A = List A} (drop n []) []
drop-nil zero = refl
drop-nil (suc n) = refl

drop-drop {ℓ} : {A : Type ℓ} (j k : ℕ) (xs : List A) → drop j (drop k xs) ≡ drop (k + j) xs
drop-drop j zero xs = let e : 0 + j ≡ j = omega arith in rw e refl
drop-drop j (suc k) [] = drop-nil j ∙ sym (drop-nil (suc k + j))
drop-drop j (suc k) (x ∷ xs) =
    let e : suc k + j ≡ suc (k + j) = omega arith in rw e (drop-drop j k xs)

drop-append {ℓ} :
    {A : Type ℓ} (k : ℕ) (xs ys : List A) → k ≤ length xs → drop k xs ++ ys ≡ drop k (xs ++ ys)
drop-append zero xs ys h = refl
drop-append (suc k) [] ys h = absurd (omega arith)
drop-append (suc k) (x ∷ xs) ys h = drop-append k xs ys (omega arith)

-- To keep the last `n` early makes no difference to the last `n` in the end.
pub slice_last_again {ℓ} :
    {A : Type ℓ} (n : ℕ) (xs ys : List A)
    → slice_last n (slice_last n xs ++ ys) ≡ slice_last n (xs ++ ys)
slice_last_again n xs ys =
    rw (drop-append k xs ys (omega arith), drop-drop _ k (xs ++ ys))
      (ap (λ i. drop i (xs ++ ys)) ends)
  where
    k : ℕ
    k = length xs - n

    ends : k + (length (drop k (xs ++ ys)) - n) ≡ length (xs ++ ys) - n
    ends = omega (arith, length-drop k (xs ++ ys), length-append xs ys)

keep_last_lem : (xs : List KernelEvent) → keep_last xs ≡ slice_last max_events xs
keep_last_lem xs = elim (Bool-cases (ltb max_events (length xs))) [
  | inl many ↦ rw (keep_last, many) refl
  | inr few ↦ rw (keep_last, few) (sym (slice_last_short max_events xs (ground arith)))
]

pub length-keep_last : (xs : List KernelEvent) → length (keep_last xs) ≤ max_events
length-keep_last xs = rw (keep_last_lem xs) (length-slice_last max_events xs)

module _ (codec : Codec) (env : Env) where
  -- The events of messages, without those that are no event.
  abbrev pub decoded : List ConnectionMessage → List KernelEvent
  decoded [] = []
  decoded (m ∷ ms) = elim (decode codec env m) [ none ↦ decoded ms | some e ↦ e ∷ decoded ms ]

  process_all-events :
      (ms : List ConnectionMessage) (s : Stream)
      → length s.events ≤ max_events
      → (process_all codec env ms s).events ≡ slice_last max_events (s.events ++ decoded ms)
  unfolding process_all
  process_all-events [] s h =
      rw (append-nil s.events) (sym (slice_last_short max_events s.events h))
  process_all-events (m ∷ ms) s h = elim (Option-cases (decode codec env m)) [
    | inl no_event ↦
        rw (process_all, process, decoded, no_event)
          (process_all-events ms (record s { processed = m.id }) h)
    | inr (e, found) ↦
        rw (process_all, process, decoded, found)
          (process_all-events ms _ (kept e)
            ∙ ap (λ l. slice_last max_events (l ++ decoded ms)) (keep_last_lem (s.events ++ e ∷ []))
            ∙ slice_last_again max_events (s.events ++ e ∷ []) (decoded ms)
            ∙ ap (slice_last max_events) (append_assoc s.events (e ∷ []) (decoded ms)))
  ]
    where
      kept : (e : KernelEvent) → length (keep_last (s.events ++ e ∷ [])) ≤ max_events
      kept e = length-keep_last (s.events ++ e ∷ [])

  pub drain_open :
      (s : Stream)
      → s.paused ≡ false
      → drain codec env s
        ≡ process_all codec env (filter (is_new codec env s.processed) s.messages) s
  unfolding drain
  drain_open s h = subst (λ b. (if b then s else pending) ≡ pending) (sym h) refl
    where
      pending : Stream
      pending = process_all codec env (filter (is_new codec env s.processed) s.messages) s

  -- While the page is not paused it holds the last 500 of the events it had and those of the messages
  -- that are new, in their order.
  pub drain-events :
      (s : Stream)
      → s.paused ≡ false
      → length s.events ≤ max_events
      → (drain codec env s).events
        ≡ slice_last max_events
            (s.events ++ decoded (filter (is_new codec env s.processed) s.messages))
  unfolding drain
  drain-events s h k = ap (λ u. u.events) (drain_open s h) ∙ process_all-events _ s k

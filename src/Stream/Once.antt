-- ===== src/Stream/Once.antt =====
-- Each message is taken in once, however often the list of messages grows before the page sees it.
use kprobe.Base.{
  ℕ, ◌≤◌, ◌<◌, ◌≡◌, refl, sym, ap, ◌∙◌, true, false, List, [], ◌∷◌, ◌++◌, arith, if◌then◌else◌,
  filter, if_both, All, Bool-cases, inl, inr, Option, none, some,
}
use Prim.{tt}
use kprobe.Json.{Codec}
use kprobe.Wire.{Env}
use kprobe.Connection.{ConnectionMessage}
use kprobe.Connection.Keys.{Rising}
use kprobe.Event.{KernelEvent}
use kprobe.Stream.Window.{drain_open}
use kprobe.Feed.{decode, is_new}
use kprobe.Stream.{handle, arrived, Stream, process, process_all, take_in, drain}

module _ (codec : Codec) (env : Env) where
  -- A message is taken in if it is new at its turn.
  abbrev take_new : ConnectionMessage → Stream → Stream
  take_new m s = if is_new codec env s.processed m then process codec env m s else s

  abbrev take_all : List ConnectionMessage → Stream → Stream
  take_all [] s = s
  take_all (m ∷ ms) s = take_all ms (take_new m s)

  take_all-append :
      (ms ns : List ConnectionMessage) (s : Stream)
      → take_all (ms ++ ns) s ≡ take_all ns (take_all ms s)
  take_all-append [] ns s = refl
  take_all-append (m ∷ ms) ns s = take_all-append ms ns (take_new m s)

  filter-All :
      (k : ℕ) (ms : List ConnectionMessage)
      → All (λ n. k < n.id) ms
      → filter (is_new codec env k) ms ≡ ms
  filter-All k [] h = refl
  filter-All k (m ∷ ms) (p, h) = rw (new, filter-All k ms h) refl
    where
      new : is_new codec env k m ≡ true
      new = ground arith

  All-above :
      (j k : ℕ) (ms : List ConnectionMessage)
      → j ≤ k
      → All (λ n. k < n.id) ms
      → All (λ n. j < n.id) ms
  All-above j k [] h a = tt
  All-above j k (m ∷ ms) h (p, a) = (omega arith, All-above j k ms h a)

  process_all-take_all :
      (top : ℕ) (ms : List ConnectionMessage) (s : Stream)
      → Rising top ms
      → process_all codec env (filter (is_new codec env s.processed) ms) s ≡ take_all ms s
  unfolding process_all
  process_all-take_all top [] s h = refl
  process_all-take_all top (m ∷ ms) s (p, q, h) =
      elim (Bool-cases (is_new codec env s.processed m)) [
        | inl new ↦
            rw
              (
                filter,
                take_all,
                new,
                filter-All s.processed ms (All-above s.processed m.id ms (ground arith) q),
              )
              (ap (λ l. process_all codec env l (process codec env m s))
                  (sym (filter-All m.id ms q))
                ∙ process_all-take_all top ms (process codec env m s) h)
        | inr old ↦ rw (filter, take_all, old) (process_all-take_all top ms s h)
      ]

  -- All messages of ids up to `k`.
  abbrev Past : ℕ → List ConnectionMessage → Type 0
  Past k ms = All (λ n. n.id ≤ k) ms

  take_all-Past :
      (ms : List ConnectionMessage) (s : Stream) → Past s.processed ms → take_all ms s ≡ s
  take_all-Past [] s h = refl
  take_all-Past (m ∷ ms) s (p, h) = rw (take_all, old) (take_all-Past ms s h)
    where
      old : is_new codec env s.processed m ≡ false
      old = ground arith

  take_new-le : (m : ConnectionMessage) (s : Stream) → s.processed ≤ (take_new m s).processed
  take_new-le m s =
      if_both (λ (u : Stream). s.processed ≤ u.processed) (is_new codec env s.processed m) _ _
        (λ new. ground arith) (λ old. omega arith)

  take_new_past : (m : ConnectionMessage) (s : Stream) → m.id ≤ (take_new m s).processed
  take_new_past m s =
      if_both (λ (u : Stream). m.id ≤ u.processed) (is_new codec env s.processed m) _ _
        (λ new. omega arith) (λ old. ground arith)

  take_all-le : (ms : List ConnectionMessage) (s : Stream) → s.processed ≤ (take_all ms s).processed
  take_all-le [] s = omega arith
  take_all-le (m ∷ ms) s =
      let h = take_new-le m s in let k = take_all-le ms (take_new m s) in omega arith

  Past-take_all : (ms : List ConnectionMessage) (s : Stream) → Past (take_all ms s).processed ms
  Past-take_all [] s = tt
  Past-take_all (m ∷ ms) s = (reached, Past-take_all ms (take_new m s))
    where
      reached : m.id ≤ (take_all ms (take_new m s)).processed
      reached = omega (arith, take_new_past m s, take_all-le ms (take_new m s))

  process_all_grown :
      (top : ℕ) (ms ns : List ConnectionMessage) (s : Stream)
      → Rising top ms
      → Rising top (ms ++ ns)
      → process_all codec env
          (filter
            (is_new codec env
              (process_all codec env (filter (is_new codec env s.processed) ms) s).processed)
            (ms ++ ns))
          (process_all codec env (filter (is_new codec env s.processed) ms) s)
        ≡ process_all codec env (filter (is_new codec env s.processed) (ms ++ ns)) s
  process_all_grown top ms ns s h k = rw (process_all-take_all top ms s h) (
      process_all-take_all top (ms ++ ns) (take_all ms s) k
      ∙ take_all-append ms ns (take_all ms s)
      ∙ ap (take_all ns) (take_all-Past ms (take_all ms s) (Past-take_all ms s))
      ∙ sym (take_all-append ms ns s)
      ∙ sym (process_all-take_all top (ms ++ ns) s k))

  abbrev with_messages : Stream → List ConnectionMessage → Stream
  with_messages s ms = record s { messages = ms }

  take_in-messages :
      (o : Option KernelEvent) (ms : List ConnectionMessage) (s : Stream)
      → with_messages (take_in codec env o s) ms ≡ take_in codec env o (with_messages s ms)
  take_in-messages none ms s = refl
  take_in-messages (some e) ms s = refl

  process_all-messages :
      (l ms : List ConnectionMessage) (s : Stream)
      → with_messages (process_all codec env l s) ms ≡ process_all codec env l (with_messages s ms)
  unfolding process_all
  process_all-messages [] ms s = refl
  process_all-messages (m ∷ l) ms s =
      process_all-messages l ms (process codec env m s)
      ∙ ap (λ (u : Stream). process_all codec env l (record u { processed = m.id }))
          (take_in-messages (decode codec env m) ms s)

  take_in-paused : (o : Option KernelEvent) (s : Stream) → (take_in codec env o s).paused ≡ s.paused
  take_in-paused none s = refl
  take_in-paused (some e) s = refl

  process_all-paused :
      (l : List ConnectionMessage) (s : Stream) → (process_all codec env l s).paused ≡ s.paused
  unfolding process_all
  process_all-paused [] s = refl
  process_all-paused (m ∷ l) s =
      process_all-paused l (process codec env m s) ∙ take_in-paused (decode codec env m) s

  take_in_kept :
      (o : Option KernelEvent) (s : Stream) → (take_in codec env o s).messages ≡ s.messages
  take_in_kept none s = refl
  take_in_kept (some e) s = refl

  process_all-kept :
      (l : List ConnectionMessage) (s : Stream) → (process_all codec env l s).messages ≡ s.messages
  unfolding process_all
  process_all-kept [] s = refl
  process_all-kept (m ∷ l) s =
      process_all-kept l (process codec env m s) ∙ take_in_kept (decode codec env m) s

  -- On a page that is not paused, a list of messages that arrives and then arrives again, grown, has
  -- the same effect as the grown list alone: each message is taken in once, in whichever renders the
  -- page sees it. The ids rise along the list.
  pub arrived_grown :
      (top : ℕ) (ms ns : List ConnectionMessage) (s : Stream)
      → s.paused ≡ false
      → Rising top ms
      → Rising top (ms ++ ns)
      → handle codec env (arrived (ms ++ ns)) (handle codec env (arrived ms) s)
        ≡ handle codec env (arrived (ms ++ ns)) s
  unfolding handle
  arrived_grown top ms ns s open_now h k =
      ap (λ u. drain codec env (with_messages u (ms ++ ns)))
        (drain_open codec env (with_messages s ms) open_now)
      ∙ ap (drain codec env) (process_all-messages first_new (ms ++ ns) (with_messages s ms))
      ∙ drain_open codec env _
          (process_all-paused first_new (with_messages s (ms ++ ns)) ∙ open_now)
      ∙ again
      ∙ sym (drain_open codec env (with_messages s (ms ++ ns)) open_now)
    where
      first_new : List ConnectionMessage
      first_new = filter (is_new codec env s.processed) ms

      again :
          process_all codec env
            (filter
              (is_new codec env
                (process_all codec env first_new (with_messages s (ms ++ ns))).processed)
              (process_all codec env first_new (with_messages s (ms ++ ns))).messages)
            (process_all codec env first_new (with_messages s (ms ++ ns)))
          ≡ process_all codec env
              (filter (is_new codec env s.processed) (ms ++ ns))
              (with_messages s (ms ++ ns))
      again =
          ap
            (λ l.
              process_all codec env
                (filter
                  (is_new codec env
                    (process_all codec env first_new (with_messages s (ms ++ ns))).processed)
                  l)
                (process_all codec env first_new (with_messages s (ms ++ ns))))
            (process_all-kept first_new (with_messages s (ms ++ ns)))
          ∙ process_all_grown top ms ns (with_messages s (ms ++ ns)) h k

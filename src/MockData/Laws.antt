-- ===== src/MockData/Laws.antt =====
-- What the made-up events have in common.
use kprobe.Base.{
  ℕ, suc, ◌+◌, ◌<◌, ◌≡◌, refl, ◌∙◌, String, Bool, true, List, [], ◌∷◌, map, Memᴰ, arith, ltb, All,
  Distinct, IsSorted, ⊎_elim, All-of_Memᴰ, Memᴰ-All,
}
use Prim.{tt}
use mathlib.Core.List.Memᴰ
use text.Mathlib.TextLemmas.{append_cancel_left, append_cancel_right}
use kprobe.Json.{pos, template}
use kprobe.Event.{
  EventType, tcp_send, tcp_recv, tcp_retransmit, sys_write, sys_read, sched_switch, page_fault,
  block_io, KernelEvent, is_slow,
}
use kprobe.MockData.{Random, TimeOfDay, Source, event_template, generate_event, generate_all}

-- Draws are below their bound, and numbers print differently.
pub record IsFair (random : Random) : Type 0 where
  pub draws : (i n : ℕ) → 0 < n → random.below i n < n
  pub prints : (a b : ℕ) → random.numerals.print (pos a) ≡ random.numerals.print (pos b) → a ≡ b

abbrev pub earlier : KernelEvent → KernelEvent → Bool
earlier a b = ltb a.timestamp_ns b.timestamp_ns

module _ (random : Random) (fair : IsFair random) where
  abbrev event_id : ℕ → String
  event_id k = template ("evt-" ∷ random.numerals.print (pos k) ∷ [])

  event_id_inj : (a b : ℕ) → event_id a ≡ event_id b → a ≡ b
  event_id_inj a b h =
      fair.prints a b (append_cancel_right _ _ "" (append_cancel_left "evt-" _ _ h))

  slow_template :
      (kind : EventType) (pid : ℕ) (svc : String) (i : ℕ)
      → is_slow (event_template random kind pid svc i).duration_us ≡ true
      → kind ≡ sched_switch
  unfolding is_slow event_template
  slow_template tcp_send pid svc i h = absurd (ground (arith, fair.draws (i + 3) 800 (omega arith)))
  slow_template tcp_recv pid svc i h = absurd (ground (arith, fair.draws (i + 2) 400 (omega arith)))
  slow_template tcp_retransmit pid svc i h =
      absurd (ground (arith, fair.draws (i + 1) 1_200 (omega arith)))
  slow_template sys_write pid svc i h =
      absurd (ground (arith, fair.draws (i + 4) 1_200 (omega arith)))
  slow_template sys_read pid svc i h = absurd (ground (arith, fair.draws (i + 4) 600 (omega arith)))
  slow_template sched_switch pid svc i h = refl
  slow_template page_fault pid svc i h =
      absurd (ground (arith, fair.draws (i + 4) 2_000 (omega arith)))
  slow_template block_io pid svc i h =
      absurd (ground (arith, fair.draws (i + 3) 1_800 (omega arith)))

  -- An event that is made after the source was in the state `s`.
  record Later (s : Source) (e : KernelEvent) : Type 0 where
    number : ℕ
    above_counter : s.id_counter < number
    named : e.id ≡ event_id number
    after_base : s.base_ns < e.timestamp_ns
    slow_switch : is_slow e.duration_us ≡ true → e.kind ≡ sched_switch

  abbrev made : TimeOfDay → Source → KernelEvent
  made t s = (generate_event random t s).0

  abbrev left : TimeOfDay → Source → Source
  left t s = (generate_event random t s).1

  Later-made : (t : TimeOfDay) (s : Source) → Later s (made t s)
  unfolding generate_event
  Later-made t s = record {
    number = suc s.id_counter;
    above_counter = omega arith;
    named = refl;
    after_base = omega arith;
    slow_switch = slow_template (made t s).kind _ _ _;
  }

  Later-left : (t : TimeOfDay) (s : Source) (e : KernelEvent) → Later (left t s) e → Later s e
  unfolding generate_event
  Later-left t s e l = record {
    number = l.number;
    above_counter = let h = l.above_counter in omega arith;
    named = l.named;
    after_base = let h = l.after_base in omega arith;
    slow_switch = l.slow_switch;
  }

  generate_all-Later : (ts : List TimeOfDay) (s : Source) → All (Later s) (generate_all random ts s)
  unfolding generate_all
  generate_all-Later [] s = tt
  generate_all-Later (t ∷ ts) s = (
    Later-made t s,
    All-of_Memᴰ (Later s) (generate_all random ts (left t s)) (λ e m. Later-left t s e (
        Memᴰ-All (Later (left t s)) (generate_all random ts (left t s))
          (generate_all-Later ts (left t s)) m)),
  )

  named_in :
      (s : Source) (j : String) (es : List KernelEvent)
      → All (Later s) es
      → Memᴰ j (map (λ e. e.id) es)
      → (k : ℕ) × (s.id_counter < k) × (j ≡ event_id k)
  named_in s j [] h m = absurd (Memᴰ.not-nil m)
  named_in s j (e ∷ es) (l, h) m =
      ⊎_elim (λ q. (l.number, l.above_counter, q ∙ l.named)) (named_in s j es h) (Memᴰ.cases_cons m)

  new_name :
      (t : TimeOfDay) (s : Source) (es : List KernelEvent)
      → All (Later (left t s)) es
      → ¬ Memᴰ (made t s).id (map (λ e. e.id) es)
  unfolding generate_event
  new_name t s es h m =
      let (k, above, same) = named_in (left t s) (made t s).id es h m in
      let number = event_id_inj (suc s.id_counter) k same in omega arith

  -- The events that are made up have distinct ids, each is later than the one before it, and a slow
  -- one is always a switch of the scheduler.
  pub generate_all_lem :
      (ts : List TimeOfDay) (s : Source)
      → Distinct (map (λ e. e.id) (generate_all random ts s))
        × IsSorted earlier (generate_all random ts s)
        × All (λ e. is_slow e.duration_us ≡ true → e.kind ≡ sched_switch) (generate_all random ts s)
  unfolding generate_all
  generate_all_lem [] s = (tt, tt, tt)
  generate_all_lem (t ∷ ts) s =
      let (distinct, sorted, slow) = generate_all_lem ts (left t s) in
      (
        (new_name t s rest later, distinct),
        (All-of_Memᴰ _ rest (λ e m. in_order e (Memᴰ-All (Later (left t s)) rest later m)), sorted),
        ((Later-made t s).slow_switch, slow),
      )
    where
      rest : List KernelEvent
      rest = generate_all random ts (left t s)

      later : All (Later (left t s)) rest
      later = generate_all-Later ts (left t s)

      in_order : (e : KernelEvent) → Later (left t s) e → earlier (made t s) e ≡ true
      in_order e l = let h = l.after_base in unfold generate_event in ground arith

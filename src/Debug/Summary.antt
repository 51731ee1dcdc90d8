-- ===== src/Debug/Summary.antt =====
-- What the summary says of the slowest event, and its status.
use kprobe.Base.{
  ℕ, ◌≤◌, ◌<◌, ◌≡◌, ◌↔◌, refl, sym, ap, ◌∙◌, subst, inl, inr, Bool, true, false, Option, none, some,
  List, [], ◌∷◌, Memᴰ, arith, ltb, leb→le, ltb→lt, ¬→false, ◌||◌, string_key, length, head?, filter,
  sort, length-sort, Option-cases, Memᴰ-filter, if◌then◌else◌,
}
use mathlib.Core.List.Memᴰ
use kprobe.Event.{KernelEvent}
use kprobe.Debug.{
  DebugEdge, nominal, degraded, critical, duration_score, exceeds, slower, slowest, slow_events,
  or_zero, status_of,
}
use kprobe.Debug.Order.{first_sorted}

slower_total : (a b : KernelEvent) → slower a b ≡ false → slower b a ≡ true
slower_total a b h = ground arith

slower_trans : (a b c : KernelEvent) → slower a b ≡ true → slower b c ≡ true → slower a c ≡ true
slower_trans a b c h k = ground arith

-- The slowest event of a summary is one of the events, and none has a longer duration, where an event
-- without a duration counts as 0.
pub slowest_max :
    (events : List KernelEvent) (e : KernelEvent)
    → slowest events ≡ some e
    → Memᴰ e events × ((f : KernelEvent) → Memᴰ f events → duration_score f ≤ duration_score e)
unfolding slowest
slowest_max events e h =
    let (m, most) = first_sorted slower slower_total slower_trans e events h in
    (
      m,
      λ f q. elim (most f q) [
        | inl same ↦ subst (λ x. duration_score x ≤ duration_score e) (sym same) (omega arith)
        | inr above ↦ leb→le _ _ above
      ],
    )

-- Whether the slowest event took more than 5 seconds.
abbrev over_5s : Option KernelEvent → Bool
over_5s o = elim o [ none ↦ false | some e ↦ ltb 5_000_000 (duration_score e) ]

critical_iff :
    (b c : Bool)
    → ((if b then critical else if c then degraded else nominal) ≡ critical) ↔ (b ≡ true)
critical_iff true c = (λ h. refl, λ h. refl)
critical_iff false true = (λ h. cc, λ h. cc)
critical_iff false false = (λ h. cc, λ h. cc)

nominal_iff :
    (b c : Bool)
    → ((if b then critical else if c then degraded else nominal) ≡ nominal)
      ↔ ((b ≡ false) × (c ≡ false))
nominal_iff true c = (λ h. cc, λ h. cc)
nominal_iff false true = (λ h. cc, λ h. cc)
nominal_iff false false = (λ h. (refl, refl), λ h. refl)

slowest-none : (events : List KernelEvent) → slowest events ≡ none → length events ≡ 0
unfolding slowest
slowest-none events h = sym (length-sort slower events) ∙ empty (sort slower events) h
  where
    empty : (es : List KernelEvent) → head? es ≡ none → length es ≡ 0
    empty [] h = refl
    empty (e ∷ es) h = cc

no_member : (events : List KernelEvent) (e : KernelEvent) → length events ≡ 0 → Memᴰ e events → ⊥
no_member [] e h m = Memᴰ.not-nil m
no_member (x ∷ es) e h m = omega arith

over_5s_iff :
    (events : List KernelEvent)
    → (over_5s (slowest events) ≡ true)
      ↔ ((e : KernelEvent) × Memᴰ e events × (5_000_000 < duration_score e))
over_5s_iff events = elim (Option-cases (slowest events)) [
  | inl gone ↦ (
    λ h. absurd (clash (sym (ap over_5s gone) ∙ h)),
    λ w. absurd (no_member events w.0 (slowest-none events gone) w.1),
  )
  | inr (e, found) ↦
      let (m, most) = slowest_max events e found in
      (
        λ h. (e, m, ltb→lt _ _ (sym (ap over_5s found) ∙ h)),
        λ w. ap over_5s found ∙ above e (omega (arith, most w.0 w.1, w.2)),
      )
]
  where
    clash : false ≡ true → ⊥
    clash q = cc

    above : (e : KernelEvent) → 5_000_000 < duration_score e → over_5s (some e) ≡ true
    above e h = ground arith

short : (o : Option ℕ) → exceeds 500_000 o ≡ false → or_zero o ≤ 500_000
short none h = omega arith
short (some us) h = ground arith

long : (o : Option ℕ) → or_zero o ≤ 500_000 → exceeds 500_000 o ≡ false
long none h = refl
long (some us) h = ground arith

slow_iff :
    (events : List KernelEvent)
    → (length (slow_events events) ≡ 0)
      ↔ ((e : KernelEvent) → Memᴰ e events → duration_score e ≤ 500_000)
unfolding slow_events
slow_iff events = (
  λ h e m. low e (
      ¬→false (λ x.
        no_member kept e (sym (length-sort slower kept) ∙ h)
          ((Memᴰ-filter slow e events).1 (m, x)))),
  λ quiet. length-sort slower kept ∙ none_kept events (λ e m. high e (quiet e m)),
)
  where
    slow : KernelEvent → Bool
    slow e = exceeds 500_000 e.duration_us

    kept : List KernelEvent
    kept = filter slow events

    low : (e : KernelEvent) → slow e ≡ false → duration_score e ≤ 500_000
    low e h = short e.duration_us h

    high : (e : KernelEvent) → duration_score e ≤ 500_000 → slow e ≡ false
    high e h = long e.duration_us h

    none_kept :
        (es : List KernelEvent)
        → ((e : KernelEvent) → Memᴰ e es → slow e ≡ false)
        → length (filter slow es) ≡ 0
    none_kept [] h = refl
    none_kept (e ∷ es) h = rw (h e (Memᴰ.head refl)) (none_kept es (λ f m. h f (Memᴰ.tail m)))

-- A summary is critical exactly where an event took more than 5 seconds, and nominal exactly where
-- none took more than half a second and there are no edges.
pub status_of_iff :
    (events : List KernelEvent) (edges : List DebugEdge)
    → ((status_of events edges ≡ critical)
        ↔ ((e : KernelEvent) × Memᴰ e events × (5_000_000 < duration_score e)))
      × ((status_of events edges ≡ nominal)
          ↔ (((e : KernelEvent) → Memᴰ e events → duration_score e ≤ 500_000) × (length edges ≡ 0)))
unfolding status_of
status_of_iff events edges = (
  (
    λ h. (over_5s_iff events).0 ((critical_iff _ _).0 h),
    λ w. (critical_iff _ _).1 ((over_5s_iff events).1 w),
  ),
  (
    λ h.
        let (quiet, few) =
          (nominal_iff (over_5s (slowest events))
              (ltb 0 (length (slow_events events)) || ltb 0 (length edges))).0
            h in
        ((slow_iff events).0 (ground arith), ground arith),
    λ w.
        (nominal_iff (over_5s (slowest events))
            (ltb 0 (length (slow_events events)) || ltb 0 (length edges))).1
          (
            ¬→false (λ h.
                let (e, m, long) = (over_5s_iff events).0 h in absurd (too_long _ (w.0 e m) long)),
            neither _ _ ((slow_iff events).1 w.0) w.1,
          ),
  ),
)
  where
    too_long : (n : ℕ) → n ≤ 500_000 → 5_000_000 < n → ⊥
    too_long n h k = omega arith

    neither : (m n : ℕ) → m ≡ 0 → n ≡ 0 → (ltb 0 m || ltb 0 n) ≡ false
    neither m n h k = ground arith

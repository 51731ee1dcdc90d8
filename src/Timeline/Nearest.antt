-- ===== src/Timeline/Nearest.antt =====
-- Which event a click on the canvas of the timeline finds.
use kprobe.Base.{
  ℕ, ◌-◌, ◌/◌, ◌≤◌, ◌≡◌, refl, sym, subst, ap, String, Bool, true, false, Option, none, some, List,
  [], ◌∷◌, ◌++◌, arith, Memᴰ, Memᴰ-append, ⊎_elim, ltb, nat_eq, if◌then◌else◌, string_key, length,
  if_both, inl, inr, get_elem?,
}
use mathlib.Core.List.Memᴰ
use mathlib.Core.List.{append_assoc, append-nil}
use kprobe.Event.{KernelEvent}
use kprobe.Timeline.{
  Timeline, Setting, VisRange, get_vis_range, placed, distance, is_hit, nearer, nearest, select,
  active_events, click_ns, click_lane, get_timeline_lanes, handle_canvas_click, lane_label_w,
  ruler_h, lane_h,
}

module _ (vis : VisRange) (lane : String) (at : ℕ) where
  abbrev pub away : KernelEvent → ℕ
  away e = distance (placed vis e.timestamp_ns) at

  -- No event is met, or one that is met and not farther than any other that is.
  abbrev pub Finds : List KernelEvent → Option KernelEvent → Type 0
  Finds events none = (e : KernelEvent) → Memᴰ e events → is_hit vis lane at e ≡ false
  Finds events (some b) =
      Memᴰ b events
      × (is_hit vis lane at b ≡ true)
      × ((e : KernelEvent) → Memᴰ e events → is_hit vis lane at e ≡ true → away b ≤ away e)

  clash : {b : Bool} → b ≡ true → b ≡ false → ⊥
  clash h k = cc

  -- What holds of the events so far and of one more holds of all of them.
  each {ℓ} :
      (P : KernelEvent → Type ℓ) (seen : List KernelEvent) (e : KernelEvent)
      → ((x : KernelEvent) → Memᴰ x seen → P x)
      → P e
      → (x : KernelEvent) → Memᴰ x (seen ++ e ∷ [])
      → P x
  each P seen e h p x m =
      ⊎_elim (h x) (λ q. subst P (sym (Memᴰ.eq_of_singleton q)) p)
        ((Memᴰ-append x seen (e ∷ [])).0 m)

  last : (seen : List KernelEvent) (e : KernelEvent) → Memᴰ e (seen ++ e ∷ [])
  last seen e = (Memᴰ-append e seen (e ∷ [])).1 (inr (Memᴰ.head refl))

  Finds-missed :
      (seen : List KernelEvent) (e : KernelEvent) (best : Option KernelEvent)
      → is_hit vis lane at e ≡ false
      → Finds seen best
      → Finds (seen ++ e ∷ []) best
  Finds-missed seen e none miss h = each (λ x. is_hit vis lane at x ≡ false) seen e h miss
  Finds-missed seen e (some b) miss (m, hit, least) = (
    (Memᴰ-append b seen (e ∷ [])).1 (inl m),
    hit,
    each (λ x. is_hit vis lane at x ≡ true → away b ≤ away x) seen e least
        (λ k. absurd (clash k miss)),
  )

  Finds-met :
      (seen : List KernelEvent) (e : KernelEvent) (best : Option KernelEvent)
      → is_hit vis lane at e ≡ true
      → Finds seen best
      → Finds
          (seen ++ e ∷ [])
          (elim best [ none ↦ some e | some b ↦ if ltb (away e) (away b) then some e else some b ])
  Finds-met seen e none met h = (
    last seen e,
    met,
    each (λ x. is_hit vis lane at x ≡ true → away e ≤ away x) seen e
        (λ x m k. absurd (clash k (h x m))) (λ k. omega arith),
  )
  Finds-met seen e (some b) met (m, hit, least) =
      if_both (Finds (seen ++ e ∷ [])) (ltb (away e) (away b)) (some e) (some b)
        (λ closer. (
          last seen e,
          met,
          each (λ x. is_hit vis lane at x ≡ true → away e ≤ away x) seen e
              (λ x q k. let l = least x q k in ground arith) (λ k. omega arith),
        ))
        (λ farther. (
          (Memᴰ-append b seen (e ∷ [])).1 (inl m),
          hit,
          each (λ x. is_hit vis lane at x ≡ true → away b ≤ away x) seen e least
              (λ k. ground arith),
        ))

  Finds-nearer :
      (seen : List KernelEvent) (e : KernelEvent) (best : Option KernelEvent)
      → Finds seen best
      → Finds (seen ++ e ∷ []) (nearer vis lane at e best)
  Finds-nearer seen e best h =
      if_both (Finds (seen ++ e ∷ [])) (is_hit vis lane at e) _ best
        (λ met. Finds-met seen e best met h) (λ missed. Finds-missed seen e best missed h)

  Finds-from :
      (seen es : List KernelEvent) (best : Option KernelEvent)
      → Finds seen best
      → Finds (seen ++ es) (nearest vis lane at es best)
  unfolding nearest
  Finds-from seen [] best h = subst (λ l. Finds l best) (sym (append-nil seen)) h
  Finds-from seen (e ∷ es) best h =
      subst (λ l. Finds l (nearest vis lane at es (nearer vis lane at e best)))
        (append_assoc seen (e ∷ []) es)
        (Finds-from (seen ++ e ∷ []) es (nearer vis lane at e best) (Finds-nearer seen e best h))

  Finds-nearest : (es : List KernelEvent) → Finds es (nearest vis lane at es none)
  Finds-nearest es = Finds-from [] es none (λ e m. absurd (Memᴰ.not-nil m))

module _ (setting : Setting) where
  -- A click on a lane selects, among the active events of that lane whose bar is within 0.3 ms of the
  -- click, the one that starts nearest to it; it deselects where there is none, or where that one was
  -- selected.
  pub handle_canvas_click-nearest :
      (mx my : ℕ) (s : Timeline) (lane : String)
      → lane_label_w ≤ mx
      → ruler_h ≤ my
      → 1 ≤ length (active_events s)
      → get_elem? (get_timeline_lanes (active_events s)) ((my - ruler_h) / lane_h) ≡ some lane
      → let vis = get_vis_range s (active_events s) in
        (best : Option KernelEvent) × ((handle_canvas_click setting mx my s).selected
          ≡ select best s.selected)
        × Finds vis lane (click_ns setting vis s mx) (active_events s) best
  unfolding handle_canvas_click
  handle_canvas_click-nearest mx my s lane right below some_active there = (
    best,
    ap (λ u. u.selected) on_lane,
    Finds-nearest vis lane (click_ns setting vis s mx) (active_events s),
  )
    where
      vis : VisRange
      vis = get_vis_range s (active_events s)

      best : Option KernelEvent
      best = nearest vis lane (click_ns setting vis s mx) (active_events s) none

      clicked_lane : Option String → Timeline
      clicked_lane o = click_lane setting o mx (active_events s) s

      on_lane : handle_canvas_click setting mx my s ≡ clicked_lane (some lane)
      on_lane =
          let Is : Timeline → Type 0 = λ u. u ≡ clicked_lane (some lane) in
          if_both Is (ltb mx lane_label_w) _ _ (λ p. absurd (ground arith))
            (λ p.
              if_both Is (nat_eq (length (active_events s)) 0) _ _ (λ q. absurd (ground arith))
                (λ q.
                  if_both Is (ltb my ruler_h) _ _ (λ r. absurd (ground arith))
                    (λ r. ap clicked_lane there)))

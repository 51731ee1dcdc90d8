-- ===== src/Stream/Details.antt =====
-- The details of an event on the stream page.
use kprobe.Base.{
  ◌≡◌, refl, sym, ◌∙◌, String, true, false, not, ◌&&◌, none, some, arith, if◌then◌else◌, ◌==◌,
  string_key, any, if_both, Option-cases, inl, inr, subst,
}
use kprobe.Json.{Codec}
use kprobe.Event.{type_key}
use kprobe.Wire.{Env}
use kprobe.Stream.{Stream, filtered, close_gone, Action, handle, step}

-- The event whose details are open is one of those shown, if it has an id.
pub record Shown (s : Stream) : Type 0 where
  pub open_event :
      (id : String)
      → s.expanded_id ≡ some id
      → (id == "") ≡ false
      → any (λ e. e.id == id) (filtered s) ≡ true

pub close_gone_closed : (s : Stream) → s.expanded_id ≡ none → close_gone s ≡ s
close_gone_closed s h =
    subst
      (λ o.
        elim o [
          | none ↦ s
          | some id ↦
              if not (id == "") && not (any (λ e. e.id == id) (filtered s))
              then record s { expanded_id = none }
              else s
        ]
        ≡ s)
      (sym h) refl

pub close_gone_open :
    (s : Stream) (id : String)
    → s.expanded_id ≡ some id
    → close_gone s ≡ (
        if not (id == "") && not (any (λ e. e.id == id) (filtered s))
        then record s { expanded_id = none }
        else s)
close_gone_open s i h =
    subst
      (λ o.
        elim o [
          | none ↦ s
          | some id ↦
              if not (id == "") && not (any (λ e. e.id == id) (filtered s))
              then record s { expanded_id = none }
              else s
        ]
        ≡ (if not (i == "") && not (any (λ e. e.id == i) (filtered s))
            then record s { expanded_id = none }
            else s))
      (sym h) refl

Shown-close_gone : (s : Stream) → Shown (close_gone s)
Shown-close_gone s = elim (Option-cases s.expanded_id) [
  | inl closed ↦ subst Shown (sym (close_gone_closed s closed)) (none_open s closed)
  | inr (id, e) ↦ subst Shown (sym (close_gone_open s id e)) (
      if_both Shown (not (id == "") && not (any (λ x. x.id == id) (filtered s))) _ _
        (λ gone. none_open (record s { expanded_id = none }) refl)
        (λ there. record { open_event = λ j f n. still id j there (sym e ∙ f) n }))
]
  where
    clash_none : (id : String) → none ≡ some id → ⊥
    clash_none id e = cc

    none_open : (u : Stream) → u.expanded_id ≡ none → Shown u
    none_open u h = record { open_event = λ id e n. absurd (clash_none id (sym h ∙ e)) }

    same : (i j : String) → some i ≡ some j → i ≡ j
    same i j q = cc

    still :
        (i j : String)
        → (not (i == "") && not (any (λ x. x.id == i) (filtered s))) ≡ false
        → some i ≡ some j
        → (j == "") ≡ false
        → any (λ x. x.id == j) (filtered s) ≡ true
    still i j there q n = ground arith

-- After any callback in any state, an event whose details are open, and whose id is not empty, is one
-- of the events that the selected types let through.
pub Shown-step : (codec : Codec) (env : Env) (a : Action) (s : Stream) → Shown (step codec env a s)
unfolding step
Shown-step codec env a s = Shown-close_gone (handle codec env a s)

-- ===== src/Stream/Types.antt =====
-- Sets of event types as lists without repetition.
use kprobe.Base.{
  suc, ◌≤◌, ◌≡◌, refl, sym, Bool, true, false, not, ◌&&◌, List, [], ◌∷◌, arith, ◌==◌, string_key,
  length, filter, contains, if_both, Bool-cases, inl, inr, Distinct, Memᴰ, Memᴰ-filter,
  contains_iff, ¬→false, subst,
}
use Prim.{tt}
use kprobe.Event.{EventType, type_key}

pub filter_fresh :
    (t : EventType) (ts : List EventType) → ¬ Memᴰ t ts → filter (λ u. not (u == t)) ts ≡ ts
filter_fresh t [] n = refl
filter_fresh t (u ∷ us) n = rw (other, filter_fresh t us (λ m. n (Memᴰ.tail m))) refl
  where
    other : (u == t) ≡ false
    other = ¬→false (λ e. n (Memᴰ.head (sym ((type_key.same_iff u t).0 e))))

pub length-removed :
    (t : EventType) (ts : List EventType)
    → Distinct ts
    → length ts ≤ suc (length (filter (λ u. not (u == t)) ts))
length-removed t [] d = omega arith
length-removed t (u ∷ us) (n, d) = elim (Bool-cases (u == t)) [
  | inl here ↦ rw (here, filter_fresh t us (fresh here)) (omega arith)
  | inr there ↦ let h = length-removed t us d in rw there (omega arith)
]
  where
    fresh : (u == t) ≡ true → ¬ Memᴰ t us
    fresh e = subst (λ x. ¬ Memᴰ x us) ((type_key.same_iff u t).0 e) n

pub Distinct-filter :
    (p : EventType → Bool) (ts : List EventType) → Distinct ts → Distinct (filter p ts)
Distinct-filter p [] d = tt
Distinct-filter p (u ∷ us) (n, d) =
    if_both Distinct (p u) _ _
      (λ kept. (λ m. n ((Memᴰ-filter p u us).0 m).0, Distinct-filter p us d))
      (λ gone. Distinct-filter p us d)

abbrev all_different : List EventType → Bool
all_different [] = true
all_different (t ∷ ts) = not (contains ts t) && all_different ts

pub Distinct-of_test : (ts : List EventType) → all_different ts ≡ true → Distinct ts
Distinct-of_test [] h = tt
Distinct-of_test (t ∷ ts) h =
    (λ m. fresh ((contains_iff t ts).1 m) h, Distinct-of_test ts (ground arith))
  where
    fresh : contains ts t ≡ true → (not (contains ts t) && all_different ts) ≡ true → ⊥
    fresh a b = ground arith

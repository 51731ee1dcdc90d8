-- ===== src/Settings/Objects.antt =====
-- Properties of objects that are set or merged.
use kprobe.Base.{
  String, false, Option, none, some, List, [], ◌∷◌, ◌≡◌, ◌≢◌, ⊎_elim, refl, sym, ◌∙◌, ap, subst,
  arith, Memᴰ, Distinct, if◌then◌else◌, ◌==◌, string_key, if_both, Bool-cases, inl, inr, ¬→false,
}
use mathlib.Core.List.Memᴰ
use kprobe.Json.{Value, Fields, end, field, prop}
use kprobe.Settings.{with_prop, merged}

abbrev pub names : Fields → List String
names end = []
names (field k v fs) = k ∷ names fs

-- The first value where there is one.
abbrev pub either_of : Option Value → Option Value → Option Value
either_of none d = d
either_of (some v) d = some v

pub prop-with_prop :
    (j k : String) (v : Value) (fs : Fields)
    → prop j (with_prop k v fs) ≡ (if k == j then some v else prop j fs)
unfolding prop with_prop
prop-with_prop j k v end = refl
prop-with_prop j k v (field i w fs) = ground (
  arith,
  prop-with_prop j k v fs,
  string_key.same_iff i k,
  string_key.same_iff i j,
  string_key.same_iff k j,
)

pub prop_absent : (k : String) (fs : Fields) → ¬ Memᴰ k (names fs) → prop k fs ≡ none
unfolding prop
prop_absent k end n = refl
prop_absent k (field j v fs) n =
    rw (¬→false (λ e. n (Memᴰ.head (sym ((string_key.same_iff j k).0 e)))))
      (prop_absent k fs (λ m. n (Memᴰ.tail m)))

pub prop_there : (k : String) (fs : Fields) → Memᴰ k (names fs) → prop k fs ≢ none
unfolding prop
prop_there k end m = absurd (Memᴰ.not-nil m)
prop_there k (field j v fs) m =
    if_both (λ o. o ≢ none) (j == k) (some v) (prop k fs) (λ same e. cc)
      (λ other.
        prop_there k fs (⊎_elim (λ e. absurd (different e other)) (λ q. q) (Memᴰ.cases_cons m)))
  where
    different : k ≡ j → (j == k) ≡ false → ⊥
    different e h = ground (arith, string_key.same_iff j k)

pub prop-merged :
    (j : String) (a b : Fields)
    → Distinct (names b)
    → prop j (merged a b) ≡ either_of (prop j b) (prop j a)
unfolding prop merged
prop-merged j a end d = refl
prop-merged j a (field k v fs) (new, d) =
    prop-merged j (with_prop k v a) fs d
    ∙ ap (either_of (prop j fs)) (prop-with_prop j k v a)
    ∙ set_once
  where
    set_once :
        either_of (prop j fs) (if k == j then some v else prop j a)
        ≡ either_of (if k == j then some v else prop j fs) (prop j a)
    set_once = elim (Bool-cases (k == j)) [
      | inl same ↦
          let gone =
            prop_absent j fs
              (subst (λ x. ¬ Memᴰ x (names fs)) ((string_key.same_iff k j).0 same) new) in
          rw (same, gone) refl
      | inr other ↦ rw other refl
    ]

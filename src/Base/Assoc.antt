-- ===== src/Base/Assoc.antt =====
-- `Map` and `Set`: association lists in the order of first insertion.
use Prim.Native.Nat.{suc, ◌≤◌}
use mathlib.Core.Path.{◌≡◌, refl}
use mathlib.Core.Logic.{◌↔◌, ◌⊎◌, inl, inr, ⊎_elim}
use mathlib.Core.Bool.{true, false}
use mathlib.Core.Option.{Option, none, some}
use mathlib.Core.List.{List, [], ◌∷◌, ◌++◌, map, Memᴰ}
use mathlib.Core.List.Memᴰ
use native.Mathlib.Omega.{arith}
use kprobe.Base.Bools.{if◌then◌else◌, Key, ◌==◌, Bool-cases}
use kprobe.Base.Lists.{length, Memᴰ-cons, Distinct, contains, contains_iff, Distinct-concat}

module _ {ℓ κ} {K : Type ℓ} {V : Type κ} where
  abbrev pub keys : List (K × V) → List K
  keys = map (λ e. e.0)

  abbrev pub values : List (K × V) → List V
  values = map (λ e. e.1)

module _ {ℓ κ} {K : Type ℓ} {V : Type κ} ⦃k : Key K⦄ where
  unfoldable pub lookup : K → List (K × V) → Option V
  lookup a [] = none
  lookup a ((b, v) ∷ m) = let rest = lookup a m in if b == a then some v else rest

  -- `m.set(a, v)`: a key keeps the place of its first insertion.
  unfoldable pub put : K → V → List (K × V) → List (K × V)
  put a v [] = (a, v) ∷ []
  put a v ((b, w) ∷ m) = let rest = put a v m in if b == a then (b, v) ∷ m else (b, w) ∷ rest

module _ {ℓ κ} {K : Type ℓ} {V : Type κ} ⦃k : Key K⦄ where
  pub lookup-put :
      (a j : K) (v : V) (m : List (K × V))
      → lookup j (put a v m) ≡ (if a == j then some v else lookup j m)
  unfolding lookup put
  lookup-put a j v [] = refl
  lookup-put a j v ((b, w) ∷ m) =
      ground (arith, k.same_iff b a, k.same_iff b j, k.same_iff a j, lookup-put a j v m)

  pub Memᴰ-keys-put :
      (a j : K) (v : V) (m : List (K × V)) → Memᴰ j (keys (put a v m)) ↔ ((j ≡ a) ⊎ Memᴰ j (keys m))
  unfolding put
  Memᴰ-keys-put a j v [] = Memᴰ-cons j a []
  Memᴰ-keys-put a j v ((b, w) ∷ m) = ground (
    arith,
    k.same_iff b a,
    Memᴰ-keys-put a j v m,
    Memᴰ-cons j b (keys m),
    Memᴰ-cons j b (keys (put a v m)),
  )

  pub Distinct-keys-put :
      (a : K) (v : V) (m : List (K × V)) → Distinct (keys m) → Distinct (keys (put a v m))
  unfolding put
  Distinct-keys-put a v [] d = (Memᴰ.not-nil, tt)
  Distinct-keys-put a v ((b, w) ∷ m) (p, d) = elim (Bool-cases (b == a)) [
    | inl e ↦ rw e (p, d)
    | inr e ↦ rw e (
      λ q. ⊎_elim (λ (h : b ≡ a). clash e h) p ((Memᴰ-keys-put a b v m).0 q),
      Distinct-keys-put a v m d,
    )
  ]
    where
      clash : (b == a) ≡ false → b ≡ a → ⊥
      clash e h = ground (arith, k.same_iff b a)

  pub length-put-le : (a : K) (v : V) (m : List (K × V)) → length (put a v m) ≤ suc (length m)
  unfolding put
  length-put-le a v [] = omega arith
  length-put-le a v ((b, w) ∷ m) = ground (arith, length-put-le a v m)

  pub Memᴰ-put :
      (a : K) (v : V) (m : List (K × V)) (e : K × V) → Memᴰ e (put a v m) → (e ≡ (a, v)) ⊎ Memᴰ e m
  unfolding put
  Memᴰ-put a v [] e q = inl (Memᴰ.eq_of_singleton q)
  Memᴰ-put a v ((b, w) ∷ m) e q = ground (
    arith,
    k.same_iff b a,
    Memᴰ-put a v m e,
    Memᴰ-cons e (b, w) m,
    Memᴰ-cons e (b, w) (put a v m),
    Memᴰ-cons e (b, v) m,
  )

-- `new Set(xs)`: the first of equal elements is kept.
module _ {ℓ} {A : Type ℓ} ⦃k : Key A⦄ where
  unfoldable pub add : List A → A → List A
  add s a = if contains s a then s else s ++ a ∷ []

  unfoldable pub add_all : List A → List A → List A
  unfolding add
  add_all s [] = s
  add_all s (x ∷ xs) = add_all (add s x) xs

  abbrev pub set_of : List A → List A
  set_of xs = add_all [] xs

module _ {ℓ} {A : Type ℓ} ⦃k : Key A⦄ where
  Memᴰ-concat : (a x : A) (xs : List A) → Memᴰ a (xs ++ x ∷ []) ↔ (Memᴰ a xs ⊎ (a ≡ x))
  Memᴰ-concat a x xs = (
    λ m. ⊎_elim inl (λ last. inr (Memᴰ.eq_of_singleton last)) (Memᴰ.append_cases xs m),
    ⊎_elim (Memᴰ.append_left _) (λ e. Memᴰ.append_right xs (Memᴰ.head e)),
  )

  pub Memᴰ-add : (a x : A) (s : List A) → Memᴰ a (add s x) ↔ (Memᴰ a s ⊎ (a ≡ x))
  unfolding add
  Memᴰ-add a x s = elim (Bool-cases (contains s x)) [
    | inl h ↦ rw h (inl, ⊎_elim (λ m. m) (λ e. rw e ((contains_iff x s).0 h)))
    | inr h ↦ rw h (Memᴰ-concat a x s)
  ]

  pub Memᴰ-add_all : (a : A) (s xs : List A) → Memᴰ a (add_all s xs) ↔ (Memᴰ a s ⊎ Memᴰ a xs)
  unfolding add_all
  Memᴰ-add_all a s [] = (inl, ⊎_elim (λ m. m) (λ m. absurd (Memᴰ.not-nil m)))
  Memᴰ-add_all a s (x ∷ xs) =
      ground (arith, Memᴰ-add_all a (add s x) xs, Memᴰ-add a x s, Memᴰ-cons a x xs)

  pub Distinct-add : (s : List A) (x : A) → Distinct s → Distinct (add s x)
  unfolding add
  Distinct-add s x d = elim (Bool-cases (contains s x)) [
    | inl h ↦ rw h d
    | inr h ↦ rw h (Distinct-concat s x d (λ m. clash h ((contains_iff x s).1 m)))
  ]
    where
      clash : contains s x ≡ false → contains s x ≡ true → ⊥
      clash p q = cc

  pub Distinct-add_all : (s xs : List A) → Distinct s → Distinct (add_all s xs)
  unfolding add_all
  Distinct-add_all s [] d = d
  Distinct-add_all s (x ∷ xs) d = Distinct-add_all (add s x) xs (Distinct-add s x d)

module _ {ℓ κ} {K : Type ℓ} {V : Type κ} ⦃k : Key K⦄ where
  pub lookup-Memᴰ : (a : K) (v : V) (m : List (K × V)) → lookup a m ≡ some v → Memᴰ (a, v) m
  unfolding lookup
  lookup-Memᴰ a v [] h = absurd (cc h)
  lookup-Memᴰ a v ((b, w) ∷ m) h =
      ground (arith, k.same_iff b a, Memᴰ-cons (a, v) (b, w) m, lookup-Memᴰ a v m)

  pub lookup-none : (a : K) (m : List (K × V)) → lookup a m ≡ none → ¬ Memᴰ a (keys m)
  unfolding lookup
  lookup-none a [] h q = Memᴰ.not-nil q
  lookup-none a ((b, w) ∷ m) h q =
      ground (arith, k.same_iff b a, Memᴰ-cons a b (keys m), lookup-none a m)

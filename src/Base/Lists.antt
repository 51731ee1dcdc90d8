-- ===== src/Base/Lists.antt =====
-- Arrays as lists: what the source uses of `Array.prototype`, measured by the native numbers.
use Prim.Native.Nat.{ℕ, zero, suc, ◌+◌, ◌-◌, ◌≤◌}
use mathlib.Core.Path.{◌≡◌, refl, ap}
use mathlib.Core.Logic.{◌↔◌, ◌⊎◌, inl, inr, ⊎_elim}
use mathlib.Core.Bool.{Bool, true, false, not, ◌||◌}
use mathlib.Core.Option.{Option, none, some}
use mathlib.Core.List.{List, [], ◌∷◌, ◌++◌, map, Memᴰ}
use mathlib.Core.List.Memᴰ
use native.Mathlib.Omega.{arith}
use kprobe.Base.Bools.{if◌then◌else◌, Key, ◌==◌, Bool-cases}

module _ {ℓ} {A : Type ℓ} where
  abbrev pub length : List A → ℕ
  length [] = 0
  length (x ∷ xs) = suc (length xs)

  abbrev pub get_elem? : List A → ℕ → Option A
  get_elem? [] i = none
  get_elem? (x ∷ xs) zero = some x
  get_elem? (x ∷ xs) (suc i) = get_elem? xs i

  abbrev pub take : ℕ → List A → List A
  take zero xs = []
  take (suc n) [] = []
  take (suc n) (x ∷ xs) = x ∷ take n xs

  abbrev pub drop : ℕ → List A → List A
  drop zero xs = xs
  drop (suc n) [] = []
  drop (suc n) (x ∷ xs) = drop n xs

  abbrev pub head? : List A → Option A
  head? [] = none
  head? (x ∷ xs) = some x

  abbrev pub filter : (A → Bool) → List A → List A
  filter p [] = []
  filter p (x ∷ xs) = let rest = filter p xs in if p x then x ∷ rest else rest

  abbrev pub any : (A → Bool) → List A → Bool
  any p [] = false
  any p (x ∷ xs) = p x || any p xs

  abbrev pub find : (A → Bool) → List A → Option A
  find p [] = none
  find p (x ∷ xs) = let rest = find p xs in if p x then some x else rest

module _ {ℓ} {A : Type ℓ} where
  -- `xs.slice(-n)` for a positive `n`.
  abbrev pub slice_last : ℕ → List A → List A
  slice_last n xs = drop (length xs - n) xs

  pub length-append : (xs ys : List A) → length (xs ++ ys) ≡ length xs + length ys
  length-append [] ys = omega arith
  length-append (x ∷ xs) ys = omega (arith, length-append xs ys)

  pub length-drop : (n : ℕ) (xs : List A) → length (drop n xs) ≡ length xs - n
  length-drop zero xs = omega arith
  length-drop (suc n) [] = omega arith
  length-drop (suc n) (x ∷ xs) = omega (arith, length-drop n xs)

  pub length-take-le : (n : ℕ) (xs : List A) → length (take n xs) ≤ n
  length-take-le zero xs = omega arith
  length-take-le (suc n) [] = omega arith
  length-take-le (suc n) (x ∷ xs) = omega (arith, length-take-le n xs)

  pub length-slice_last : (n : ℕ) (xs : List A) → length (slice_last n xs) ≤ n
  length-slice_last n xs = omega (arith, length-drop (length xs - n) xs)

  pub slice_last_short : (n : ℕ) (xs : List A) → length xs ≤ n → slice_last n xs ≡ xs
  slice_last_short n xs h = let e : length xs - n ≡ 0 = omega arith in rw e refl

  pub length-filter-le : (p : A → Bool) (xs : List A) → length (filter p xs) ≤ length xs
  length-filter-le p [] = omega arith
  length-filter-le p (x ∷ xs) = ground (arith, length-filter-le p xs)

  pub drop-append : (n : ℕ) (xs ys : List A) → n ≤ length xs → drop n (xs ++ ys) ≡ drop n xs ++ ys
  drop-append zero xs ys h = refl
  drop-append (suc n) [] ys h = absurd (omega arith)
  drop-append (suc n) (x ∷ xs) ys h = drop-append n xs ys (omega arith)

  pub drop-drop : (m n : ℕ) (xs : List A) → drop m (drop n xs) ≡ drop (n + m) xs
  drop-drop m zero xs = let e : 0 + m ≡ m = omega arith in rw e refl
  drop-drop zero (suc n) [] = let e : suc n + 0 ≡ suc n = omega arith in rw e refl
  drop-drop (suc m) (suc n) [] = let e : suc n + suc m ≡ suc (n + suc m) = omega arith in rw e refl
  drop-drop m (suc n) (x ∷ xs) =
      let e : suc n + m ≡ suc (n + m) = omega arith in rw e (drop-drop m n xs)

-- Membership.
module _ {ℓ} {A : Type ℓ} where
  pub Memᴰ-cons : (a x : A) (xs : List A) → Memᴰ a (x ∷ xs) ↔ ((a ≡ x) ⊎ Memᴰ a xs)
  Memᴰ-cons a x xs = (Memᴰ.cases_cons, ⊎_elim Memᴰ.head Memᴰ.tail)

  pub Memᴰ-append : (a : A) (xs ys : List A) → Memᴰ a (xs ++ ys) ↔ (Memᴰ a xs ⊎ Memᴰ a ys)
  Memᴰ-append a xs ys = (Memᴰ.append_cases xs, ⊎_elim (Memᴰ.append_left ys) (Memᴰ.append_right xs))

  pub Memᴰ-drop : (a : A) (n : ℕ) (xs : List A) → Memᴰ a (drop n xs) → Memᴰ a xs
  Memᴰ-drop a zero xs m = m
  Memᴰ-drop a (suc n) [] m = m
  Memᴰ-drop a (suc n) (x ∷ xs) m = Memᴰ.tail (Memᴰ-drop a n xs m)

  pub Memᴰ-filter :
      (p : A → Bool) (a : A) (xs : List A) → Memᴰ a (filter p xs) ↔ (Memᴰ a xs × (p a ≡ true))
  Memᴰ-filter p a [] = (λ m. absurd (Memᴰ.not-nil m), λ m. absurd (Memᴰ.not-nil m.0))
  Memᴰ-filter p a (x ∷ xs) = elim (Bool-cases (p x)) [
    | inl h ↦ rw h (
      λ m.
          ⊎_elim (λ e. (Memᴰ.head e, rw e h))
            (λ t. let (u, v) = (Memᴰ-filter p a xs).0 t in (Memᴰ.tail u, v)) (Memᴰ.cases_cons m),
      λ m.
          ⊎_elim (λ e. Memᴰ.head e) (λ t. Memᴰ.tail ((Memᴰ-filter p a xs).1 (t, m.1)))
            (Memᴰ.cases_cons m.0),
    )
    | inr h ↦ rw h (
      λ m. let (u, v) = (Memᴰ-filter p a xs).0 m in (Memᴰ.tail u, v),
      λ m.
          ⊎_elim (λ (e : a ≡ x). absurd (clash e m.1 h)) (λ t. (Memᴰ-filter p a xs).1 (t, m.1))
            (Memᴰ.cases_cons m.0),
    )
  ]
    where
      clash : a ≡ x → p a ≡ true → p x ≡ false → ⊥
      clash e t f = cc

module _ {ℓ} {A : Type ℓ} ⦃k : Key A⦄ where
  abbrev pub contains : List A → A → Bool
  contains xs a = any (λ x. x == a) xs

  pub contains_iff : (a : A) (xs : List A) → (contains xs a ≡ true) ↔ Memᴰ a xs
  contains_iff a [] = (λ h. absurd (cc), λ m. absurd (Memᴰ.not-nil m))
  contains_iff a (x ∷ xs) = ground (arith, k.same_iff x a, contains_iff a xs, Memᴰ-cons a x xs)

module _ {ℓ κ} {A : Type ℓ} (P : A → Type κ) where
  abbrev pub All : List A → Type κ
  All [] = Unit
  All (x ∷ xs) = P x × All xs

  pub All-append : (xs ys : List A) → All xs → All ys → All (xs ++ ys)
  All-append [] ys h k = k
  All-append (x ∷ xs) ys (p, h) k = (p, All-append xs ys h k)

  pub All-drop : (n : ℕ) (xs : List A) → All xs → All (drop n xs)
  All-drop zero xs h = h
  All-drop (suc n) [] h = h
  All-drop (suc n) (x ∷ xs) (p, h) = All-drop n xs h

  pub All-of_Memᴰ : (xs : List A) → ((a : A) → Memᴰ a xs → P a) → All xs
  All-of_Memᴰ [] f = tt
  All-of_Memᴰ (x ∷ xs) f = (f x (Memᴰ.head refl), All-of_Memᴰ xs (λ a m. f a (Memᴰ.tail m)))

  pub Memᴰ-All : (xs : List A) {a : A} → All xs → Memᴰ a xs → P a
  Memᴰ-All [] h m = absurd (Memᴰ.not-nil m)
  Memᴰ-All (x ∷ xs) (p, h) (Memᴰ.head e) = rw e p
  Memᴰ-All (x ∷ xs) (p, h) (Memᴰ.tail m) = Memᴰ-All xs h m

pub All-map {ℓ κ} :
    {A : Type ℓ} {P Q : A → Type κ} (f : (a : A) → P a → Q a) (xs : List A) → All P xs → All Q xs
All-map f [] h = tt
All-map f (x ∷ xs) (p, h) = (f x p, All-map f xs h)

-- No element stands twice.
module _ {ℓ} {A : Type ℓ} where
  abbrev pub Distinct : List A → Type ℓ
  Distinct [] = Unit
  Distinct (x ∷ xs) = (¬ Memᴰ x xs) × Distinct xs

  pub Distinct-drop : (n : ℕ) (xs : List A) → Distinct xs → Distinct (drop n xs)
  Distinct-drop zero xs h = h
  Distinct-drop (suc n) [] h = h
  Distinct-drop (suc n) (x ∷ xs) (p, h) = Distinct-drop n xs h

  pub Distinct-concat : (xs : List A) (a : A) → Distinct xs → ¬ Memᴰ a xs → Distinct (xs ++ a ∷ [])
  Distinct-concat [] a h n = (Memᴰ.not-nil, tt)
  Distinct-concat (x ∷ xs) a (p, h) n = (
    λ m.
        ⊎_elim p (λ last. n (Memᴰ.head (back (Memᴰ.eq_of_singleton last))))
          (Memᴰ.append_cases xs m),
    Distinct-concat xs a h (λ m. n (Memᴰ.tail m)),
  )
    where
      back : x ≡ a → a ≡ x
      back e = cc

module _ {ℓ κ} {A : Type ℓ} {B : Type κ} (f : A → B) where
  pub length-map : (xs : List A) → length (map f xs) ≡ length xs
  length-map [] = refl
  length-map (x ∷ xs) = ap suc (length-map xs)

  pub drop-map : (n : ℕ) (xs : List A) → drop n (map f xs) ≡ map f (drop n xs)
  drop-map zero xs = refl
  drop-map (suc n) [] = refl
  drop-map (suc n) (x ∷ xs) = drop-map n xs

  pub slice_last-map : (n : ℕ) (xs : List A) → slice_last n (map f xs) ≡ map f (slice_last n xs)
  slice_last-map n xs = rw (length-map xs) (drop-map (length xs - n) xs)

-- Under a key without repetition, an element is known by its key.
pub Distinct-map_inj {ℓ κ} :
    {A : Type ℓ} {B : Type κ} (f : A → B) (xs : List A) (x y : A)
    → Distinct (map f xs)
    → Memᴰ x xs
    → Memᴰ y xs
    → f x ≡ f y
    → x ≡ y
Distinct-map_inj f [] x y d m n e = absurd (Memᴰ.not-nil m)
Distinct-map_inj f (z ∷ xs) x y (p, d) (Memᴰ.head u) (Memᴰ.head v) e = cc
Distinct-map_inj f (z ∷ xs) x y (p, d) (Memᴰ.head u) (Memᴰ.tail n) e =
    absurd (p (Memᴰ.cast same (Memᴰ.map f n)))
  where
    same : f z ≡ f y
    same = cc
Distinct-map_inj f (z ∷ xs) x y (p, d) (Memᴰ.tail m) (Memᴰ.head v) e =
    absurd (p (Memᴰ.cast same (Memᴰ.map f m)))
  where
    same : f z ≡ f x
    same = cc
Distinct-map_inj f (z ∷ xs) x y (p, d) (Memᴰ.tail m) (Memᴰ.tail n) e =
    Distinct-map_inj f xs x y d m n e

pub Memᴰ-get_elem? {ℓ} :
    {A : Type ℓ} (xs : List A) (i : ℕ) {a : A} → get_elem? xs i ≡ some a → Memᴰ a xs
Memᴰ-get_elem? [] i h = cc
Memᴰ-get_elem? {A = A} (x ∷ xs) zero h = Memᴰ.head (out h)
  where
    out : {y z : A} → some y ≡ some z → z ≡ y
    out e = cc
Memᴰ-get_elem? (x ∷ xs) (suc i) h = Memᴰ.tail (Memᴰ-get_elem? xs i h)

-- A test that no entry fails holds of all.
pub All-of_any {ℓ} :
    {A : Type ℓ} (f : A → Bool) (xs : List A)
    → any (λ x. not (f x)) xs ≡ false
    → All (λ x. f x ≡ true) xs
All-of_any f [] h = tt
All-of_any f (x ∷ xs) h = (ground arith, All-of_any f xs (ground arith))

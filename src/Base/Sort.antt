-- ===== src/Base/Sort.antt =====
-- `Array.prototype.sort`: stable, by a comparison that says whether `a` may stand before `b`
-- (the comparator's result is not positive).
use Prim.Native.Nat.{ℕ, zero, suc}
use mathlib.Core.Path.{◌≡◌, refl, ap, ◌∙◌}
use mathlib.Core.Logic.{◌↔◌, ◌⊎◌, inl, inr, ⊎_elim}
use mathlib.Core.Bool.{Bool, true, false}
use mathlib.Core.List.{List, [], ◌∷◌, map, Memᴰ}
use mathlib.Core.List.Memᴰ
use native.Mathlib.Omega.{arith}
use kprobe.Base.Bools.{if◌then◌else◌, Bool-cases}
use kprobe.Base.Lists.{length, drop, Memᴰ-drop, All, All-of_Memᴰ, Memᴰ-All, Memᴰ-cons, Distinct}

module _ {ℓ} {A : Type ℓ} (le : A → A → Bool) where
  unfoldable pub insert : A → List A → List A
  insert x [] = x ∷ []
  insert x (y ∷ ys) = let rest = insert x ys in if le x y then x ∷ y ∷ ys else y ∷ rest

  unfoldable pub sort : List A → List A
  unfolding insert
  sort [] = []
  sort (x ∷ xs) = insert x (sort xs)

  abbrev pub IsSorted : List A → Type ℓ
  IsSorted [] = Unit
  IsSorted (x ∷ xs) = All (λ y. le x y ≡ true) xs × IsSorted xs

module _ {ℓ} {A : Type ℓ} (le : A → A → Bool) where
  Memᴰ-insert : (a x : A) (ys : List A) → Memᴰ a (insert le x ys) ↔ ((a ≡ x) ⊎ Memᴰ a ys)
  unfolding insert
  Memᴰ-insert a x [] = Memᴰ-cons a x []
  Memᴰ-insert a x (y ∷ ys) = ground (
    arith,
    Memᴰ-insert a x ys,
    Memᴰ-cons a x (y ∷ ys),
    Memᴰ-cons a y ys,
    Memᴰ-cons a y (insert le x ys),
  )

  pub Memᴰ-sort : (a : A) (xs : List A) → Memᴰ a (sort le xs) ↔ Memᴰ a xs
  unfolding sort
  Memᴰ-sort a [] = (λ m. m, λ m. m)
  Memᴰ-sort a (x ∷ xs) =
      ground (arith, Memᴰ-insert a x (sort le xs), Memᴰ-sort a xs, Memᴰ-cons a x xs)

  length-insert : (x : A) (ys : List A) → length (insert le x ys) ≡ suc (length ys)
  unfolding insert
  length-insert x [] = refl
  length-insert x (y ∷ ys) = ground (arith, length-insert x ys)

  pub length-sort : (xs : List A) → length (sort le xs) ≡ length xs
  unfolding sort
  length-sort [] = refl
  length-sort (x ∷ xs) = length-insert x (sort le xs) ∙ ap suc (length-sort xs)

  -- The comparison need only be transitive through elements of which `P` holds.
  module _ {κ} (P : A → Type κ) (total : (a b : A) → le a b ≡ false → le b a ≡ true)
      (trans : (a b c : A) → P b → le a b ≡ true → le b c ≡ true → le a c ≡ true) where
    insert-IsSorted :
        (x : A) (ys : List A) → All P ys → IsSorted le ys → IsSorted le (insert le x ys)
    unfolding insert
    insert-IsSorted x [] _ s = (tt, tt)
    insert-IsSorted x (y ∷ ys) (p, ps) (h, s) = elim (Bool-cases (le x y)) [
      | inl e ↦ rw e ((e, All-of_Memᴰ _ ys (λ a m. trans x y a p e (Memᴰ-All _ ys h m))), (h, s))
      | inr e ↦ rw e (
        All-of_Memᴰ _ (insert le x ys) (λ a m.
            ⊎_elim (λ (p : a ≡ x). rw p (total x y e)) (λ t. Memᴰ-All _ ys h t)
              ((Memᴰ-insert a x ys).0 m)),
        insert-IsSorted x ys ps s,
      )
    ]

    pub sort-IsSorted : (xs : List A) → All P xs → IsSorted le (sort le xs)
    unfolding sort
    sort-IsSorted [] _ = tt
    sort-IsSorted (x ∷ xs) (p, ps) =
        insert-IsSorted x (sort le xs)
          (All-of_Memᴰ P (sort le xs) (λ a m. Memᴰ-All P xs ps ((Memᴰ-sort a xs).0 m)))
          (sort-IsSorted xs ps)

-- What is distinct under a key stays so.
module _ {ℓ κ} {A : Type ℓ} {B : Type κ} (f : A → B) (le : A → A → Bool) where
  Memᴰ-map-insert :
      (b : B) (x : A) (ys : List A)
      → Memᴰ b (map f (insert le x ys)) ↔ ((b ≡ f x) ⊎ Memᴰ b (map f ys))
  unfolding insert
  Memᴰ-map-insert b x [] = Memᴰ-cons b (f x) []
  Memᴰ-map-insert b x (y ∷ ys) = ground (
    arith,
    Memᴰ-map-insert b x ys,
    Memᴰ-cons b (f x) (f y ∷ map f ys),
    Memᴰ-cons b (f y) (map f ys),
    Memᴰ-cons b (f y) (map f (insert le x ys)),
  )

  pub Memᴰ-map-sort : (b : B) (xs : List A) → Memᴰ b (map f (sort le xs)) ↔ Memᴰ b (map f xs)
  unfolding sort
  Memᴰ-map-sort b [] = (λ m. m, λ m. m)
  Memᴰ-map-sort b (x ∷ xs) =
      ground
        (arith, Memᴰ-map-insert b x (sort le xs), Memᴰ-map-sort b xs, Memᴰ-cons b (f x) (map f xs))

  Distinct-insert :
      (x : A) (ys : List A)
      → Distinct (map f ys)
      → ¬ Memᴰ (f x) (map f ys)
      → Distinct (map f (insert le x ys))
  unfolding insert
  Distinct-insert x [] d n = (Memᴰ.not-nil, tt)
  Distinct-insert x (y ∷ ys) (p, d) n = elim (Bool-cases (le x y)) [
    | inl e ↦ rw e (n, (p, d))
    | inr e ↦ rw e (
      λ m. ⊎_elim (λ (q : f y ≡ f x). n (Memᴰ.head (flip q))) p ((Memᴰ-map-insert (f y) x ys).0 m),
      Distinct-insert x ys d (λ m. n (Memᴰ.tail m)),
    )
  ]
    where
      flip : f y ≡ f x → f x ≡ f y
      flip q = cc

  pub Distinct-sort : (xs : List A) → Distinct (map f xs) → Distinct (map f (sort le xs))
  unfolding sort
  Distinct-sort [] d = tt
  Distinct-sort (x ∷ xs) (p, d) =
      Distinct-insert x (sort le xs) (Distinct-sort xs d) (λ m. p ((Memᴰ-map-sort (f x) xs).0 m))

-- In a sorted list what `drop` leaves out stands before all that it keeps.
pub IsSorted-drop {ℓ} :
    {A : Type ℓ} (le : A → A → Bool) (k : ℕ) (x y : A) (xs : List A)
    → IsSorted le xs
    → Memᴰ x xs
    → Memᴰ y (drop k xs)
    → Memᴰ x (drop k xs) ⊎ (le x y ≡ true)
IsSorted-drop le zero x y xs s m q = inl m
IsSorted-drop le (suc k) x y [] s m q = inl m
IsSorted-drop le (suc k) x y (z ∷ xs) (h, s) m q =
    ⊎_elim (λ (e : x ≡ z). inr (rw e (Memᴰ-All _ xs h (Memᴰ-drop y k xs q))))
      (λ t. IsSorted-drop le k x y xs s t q) (Memᴰ.cases_cons m)

pub drop-IsSorted {ℓ} :
    {A : Type ℓ} (le : A → A → Bool) (k : ℕ) (xs : List A)
    → IsSorted le xs
    → IsSorted le (drop k xs)
drop-IsSorted le zero xs s = s
drop-IsSorted le (suc k) [] s = s
drop-IsSorted le (suc k) (x ∷ xs) s = drop-IsSorted le k xs s.1

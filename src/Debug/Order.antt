-- ===== src/Debug/Order.antt =====
-- The first element of a sorted list.
use kprobe.Base.{
  ◌≡◌, ◌∙◌, subst, ◌⊎◌, inl, inr, Bool, true, false, some, List, [], ◌∷◌, Memᴰ, string_key, head?,
  Memᴰ-All, All-of_Memᴰ, IsSorted, sort, Memᴰ-sort, sort-IsSorted,
}
use Prim.{Unit, tt}
use mathlib.Core.List.Memᴰ

module _ {ℓ} {A : Type ℓ} (le : A → A → Bool) (total : (a b : A) → le a b ≡ false → le b a ≡ true)
    (trans : (a b c : A) → le a b ≡ true → le b c ≡ true → le a c ≡ true) where
  head-sorted :
      (a : A) (xs : List A)
      → head? xs ≡ some a
      → IsSorted le xs
      → (b : A) → Memᴰ b xs
      → (b ≡ a) ⊎ (le a b ≡ true)
  head-sorted a [] h s b m = absurd (Memᴰ.not-nil m)
  head-sorted a (x ∷ xs) h (p, s) b (Memᴰ.head e) = inl (e ∙ out h)
    where
      out : {y z : A} → some y ≡ some z → y ≡ z
      out q = cc
  head-sorted a (x ∷ xs) h (p, s) b (Memᴰ.tail m) =
      inr (subst (λ y. le y b ≡ true) (out h) (Memᴰ-All (λ y. le x y ≡ true) xs p m))
    where
      out : {y z : A} → some y ≡ some z → y ≡ z
      out q = cc

  Memᴰ-head : (a : A) (xs : List A) → head? xs ≡ some a → Memᴰ a xs
  Memᴰ-head a [] h = cc
  Memᴰ-head a (x ∷ xs) h = Memᴰ.head (out h)
    where
      out : {y z : A} → some y ≡ some z → z ≡ y
      out q = cc

  -- The first of the sorted list is an element, and stands before every other one.
  pub first_sorted :
      (a : A) (xs : List A)
      → head? (sort le xs) ≡ some a
      → Memᴰ a xs × ((b : A) → Memᴰ b xs → (b ≡ a) ⊎ (le a b ≡ true))
  first_sorted a xs h = (
    (Memᴰ-sort le a xs).0 (Memᴰ-head a (sort le xs) h),
    λ b m. head-sorted a (sort le xs) h sorted b ((Memᴰ-sort le b xs).1 m),
  )
    where
      sorted : IsSorted le (sort le xs)
      sorted =
          sort-IsSorted le (λ x. Unit {ℓ}) total (λ a b c u. trans a b c) xs
            (All-of_Memᴰ _ xs (λ x m. tt))

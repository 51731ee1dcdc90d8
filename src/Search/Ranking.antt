-- ===== src/Search/Ranking.antt =====
-- Which pages the search of the documentation site finds, and in which order.
use kprobe.Base.{
  ℕ, zero, suc, ◌≤◌, ◌<◌, ◌≡◌, refl, ap, String, Bool, true, List, [], ◌∷◌, map, Memᴰ, Memᴰ-filter,
  Memᴰ-sort, arith, ltb, length, take, filter, length-take-le, sort, sort-IsSorted, IsSorted, All,
  All-of_Memᴰ, Memᴰ-All, ⊎_elim, inl, inr, ◌⊎◌,
}
use Prim.{Unit, tt}
use mathlib.Core.List.Memᴰ
use kprobe.Search.{SearchEntry, Texts, score, better, ranked}

module _ {ℓ} {A : Type ℓ} where
  Memᴰ-take : (a : A) (n : ℕ) (xs : List A) → Memᴰ a (take n xs) → Memᴰ a xs
  Memᴰ-take a zero xs m = absurd (Memᴰ.not-nil m)
  Memᴰ-take a (suc n) [] m = m
  Memᴰ-take a (suc n) (x ∷ xs) (Memᴰ.head e) = Memᴰ.head e
  Memᴰ-take a (suc n) (x ∷ xs) (Memᴰ.tail m) = Memᴰ.tail (Memᴰ-take a n xs m)

  take-IsSorted :
      (le : A → A → Bool) (n : ℕ) (xs : List A) → IsSorted le xs → IsSorted le (take n xs)
  take-IsSorted le zero xs s = tt
  take-IsSorted le (suc n) [] s = tt
  take-IsSorted le (suc n) (x ∷ xs) (h, s) = (
    All-of_Memᴰ _ (take n xs) (λ a m. Memᴰ-All _ xs h (Memᴰ-take a n xs m)),
    take-IsSorted le n xs s,
  )

  -- What `take` leaves out of a sorted list stands after all that it keeps, of which there are `n`.
  take_left_out :
      (le : A → A → Bool) (n : ℕ) (xs : List A) (a : A)
      → IsSorted le xs
      → Memᴰ a xs
      → Memᴰ a (take n xs) ⊎ ((length (take n xs) ≡ n) × All (λ x. le x a ≡ true) (take n xs))
  take_left_out le zero xs a s m = inr (refl, tt)
  take_left_out le (suc n) [] a s m = absurd (Memᴰ.not-nil m)
  take_left_out le (suc n) (x ∷ xs) a (h, s) (Memᴰ.head e) = inl (Memᴰ.head e)
  take_left_out le (suc n) (x ∷ xs) a (h, s) (Memᴰ.tail m) =
      ⊎_elim (λ k. inl (Memᴰ.tail k)) (λ (l, k). inr (ap suc l, (Memᴰ-All _ xs h m, k)))
        (take_left_out le n xs a s m)

module _ (texts : Texts) (pages : List SearchEntry) (q : String) where
  abbrev scored : SearchEntry → SearchEntry × ℕ
  scored entry = (entry, score texts entry q)

  abbrev positive : List (SearchEntry × ℕ)
  positive = filter (λ item. ltb 0 item.1) (map scored pages)

  sorted : IsSorted (better texts) (sort (better texts) positive)
  sorted =
      sort-IsSorted {0, 0} (better texts) (λ e. Unit) (λ a b h. ground arith)
        (λ a b c _ h k. ground arith) positive (All-of_Memᴰ (λ e. Unit) positive (λ e m. tt))

  -- The results of a query number at most 12 and are in the order of their scores, the best first. A page
  -- whose score is positive is among them, or they are 12 and it is no better than any of them.
  pub ranked_lem :
      (length (ranked texts pages q) ≤ 12)
      × IsSorted (better texts) (ranked texts pages q)
      × ((entry : SearchEntry)
          → Memᴰ entry pages
          → 0 < score texts entry q
          → Memᴰ (scored entry) (ranked texts pages q)
            ⊎ ((length (ranked texts pages q) ≡ 12)
                × All (λ item. better texts item (scored entry) ≡ true) (ranked texts pages q)))
  unfolding ranked
  ranked_lem = (
    length-take-le 12 (sort (better texts) positive),
    take-IsSorted (better texts) 12 (sort (better texts) positive) sorted,
    λ entry m above.
        take_left_out (better texts) 12 (sort (better texts) positive) (scored entry) sorted (
          (Memᴰ-sort (better texts) (scored entry) positive).1 (
            (Memᴰ-filter (λ item. ltb 0 item.1) (scored entry) (map scored pages)).1
              (Memᴰ.map scored m, ground arith))),
  )

-- ===== src/Debug/Causes.antt =====
-- How the summary counts the causes of the edges.
use kprobe.Base.{
  ℕ, suc, ◌+◌, ◌≤◌, ◌≡◌, refl, sym, ap, ◌∙◌, subst, ◌⊎◌, inl, inr, String, true, false, some, List,
  [], ◌∷◌, Memᴰ, arith, leb→le, ¬→false, ◌==◌, string_key, lookup, put, lookup-put, keys, Distinct,
  Distinct-keys-put, lookup-Memᴰ, Bool-cases, Option-cases, if◌then◌else◌,
}
use Prim.{tt}
use mathlib.Core.List.Memᴰ
use kprobe.Debug.{DebugEdge, causes, count_causes, more_often, or_zero, top_entry}
use kprobe.Debug.Order.{first_sorted}

often_total : (a b : String × ℕ) → more_often a b ≡ false → more_often b a ≡ true
often_total a b h = ground arith

often_trans :
    (a b c : String × ℕ) → more_often a b ≡ true → more_often b c ≡ true → more_often a c ≡ true
often_trans a b c h k = ground arith

-- How often a cause is in a list.
abbrev pub occurrences : String → List String → ℕ
occurrences c [] = 0
occurrences c (d ∷ ds) = let rest = occurrences c ds in if d == c then suc rest else rest

count_causes_lem :
    (c : String) (m : List (String × ℕ)) (cs : List String)
    → or_zero (lookup c (count_causes m cs)) ≡ or_zero (lookup c m) + occurrences c cs
unfolding count_causes lookup
count_causes_lem c m [] = omega arith
count_causes_lem c m (d ∷ ds) =
    count_causes_lem c (put d (suc (or_zero (lookup d m))) m) ds
    ∙ ap (λ o. or_zero o + occurrences c ds) (lookup-put d c (suc (or_zero (lookup d m))) m)
    ∙ step
  where
    step :
        or_zero (if d == c then some (suc (or_zero (lookup d m))) else lookup c m)
          + occurrences c ds
        ≡ or_zero (lookup c m) + occurrences c (d ∷ ds)
    step = elim (Bool-cases (d == c)) [
      | inl same ↦
          let e : d ≡ c = (string_key.same_iff d c).0 same in
          rw (occurrences, same)
            (subst
              (λ x.
                suc (or_zero (lookup d m)) + occurrences c ds
                ≡ or_zero (lookup x m) + suc (occurrences c ds))
              e (omega arith))
      | inr other ↦ rw (occurrences, other) refl
    ]

lookup-of_Memᴰ :
    (c : String) (n : ℕ) (m : List (String × ℕ))
    → Distinct (keys m)
    → Memᴰ (c, n) m
    → lookup c m ≡ some n
unfolding lookup
lookup-of_Memᴰ c n [] d q = absurd (Memᴰ.not-nil q)
lookup-of_Memᴰ c n ((b, w) ∷ m) (f, d) (Memᴰ.head e) =
    rw ((string_key.same_iff b c).1 (sym (ap (λ x. x.0) e))) (ap (λ x. some x.1) (sym e))
lookup-of_Memᴰ c n ((b, w) ∷ m) (f, d) (Memᴰ.tail q) =
    rw (¬→false (λ h. f (subst (λ x. Memᴰ x (keys m)) (sym ((string_key.same_iff b c).0 h)) named)))
      (lookup-of_Memᴰ c n m d q)
  where
    named : Memᴰ c (keys m)
    named = Memᴰ.map (λ x. x.0) q

Distinct-count_causes :
    (m : List (String × ℕ)) (cs : List String)
    → Distinct (keys m)
    → Distinct (keys (count_causes m cs))
unfolding count_causes
Distinct-count_causes m [] d = d
Distinct-count_causes m (c ∷ cs) d =
    Distinct-count_causes (put c (suc (or_zero (lookup c m))) m) cs
      (Distinct-keys-put c (suc (or_zero (lookup c m))) m d)

-- The count that a summary gives of its top cause is the number of edges with that cause, and no
-- cause is that of more edges. An empty cause counts as none.
pub top_entry_max :
    (edges : List DebugEdge) (c : String) (n : ℕ)
    → top_entry edges ≡ some (c, n)
    → (occurrences c (causes edges) ≡ n) × ((d : String) → occurrences d (causes edges) ≤ n)
unfolding top_entry count_causes lookup
top_entry_max edges c n h = (counted c ∙ ap or_zero own, λ d. at_most d)
  where
    tally : List (String × ℕ)
    tally = count_causes [] (causes edges)

    top :
        Memᴰ (c, n) tally
        × ((b : String × ℕ) → Memᴰ b tally → (b ≡ (c, n)) ⊎ (more_often (c, n) b ≡ true))
    top = first_sorted more_often often_total often_trans (c, n) tally h

    own : lookup c tally ≡ some n
    own = lookup-of_Memᴰ c n tally (Distinct-count_causes [] (causes edges) tt) top.0

    none_yet :
        (d : String)
        → or_zero (lookup d []) + occurrences d (causes edges) ≡ occurrences d (causes edges)
    none_yet d = omega arith

    counted : (d : String) → occurrences d (causes edges) ≡ or_zero (lookup d tally)
    counted d = sym (count_causes_lem d [] (causes edges) ∙ none_yet d)

    most : (d : String) (k : ℕ) → lookup d tally ≡ some k → k ≤ n
    most d k found = elim (top.1 (d, k) (lookup-Memᴰ d k tally found)) [
      | inl same ↦ subst (λ x. k ≤ x.1) same (omega arith)
      | inr above ↦ leb→le _ _ above
    ]

    at_most : (d : String) → occurrences d (causes edges) ≤ n
    at_most d = elim (Option-cases (lookup d tally)) [
      | inl absent ↦ omega (arith, counted d ∙ ap or_zero absent)
      | inr (k, found) ↦ omega (arith, counted d ∙ ap or_zero found, most d k found)
    ]

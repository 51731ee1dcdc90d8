-- ===== src/MockData/Tests.antt =====
-- Made-up events on fixed draws, which are fair.
use kprobe.Base.{ℕ, zero, suc, ◌≡◌, ◌∙◌, ap, sym, refl, String, false, [], ◌∷◌, arith, length}
use Prim.Native.String
use Prim.Native.String.{count}
use text.Mathlib.TextLemmas.{length-append}
use kprobe.Json.{Num, pos}
use kprobe.MockData.{Random, TimeOfDay, Source, generate_all}
use kprobe.MockData.Laws.{IsFair}

-- A number as so many strokes.
abbrev strokes : ℕ → String
strokes zero = ""
strokes (suc n) = String.◌++◌ "|" (strokes n)

abbrev print_num : Num → String
print_num (pos n) = strokes n
print_num _ = "NaN"

-- Every draw is the least one.
abbrev least : Random
least = record {
  below = λ i n. 0;
  above = λ i a. false;
  numerals = record { read = λ s. pos 0; print = print_num; fixed = λ a b d. "0.0" };
  hex = λ n. "0";
}

count-strokes : (n : ℕ) → count (strokes n) ≡ n
count-strokes zero = refl
count-strokes (suc n) =
    let one : count "|" ≡ 1 = refl in
    omega (arith, length-append "|" (strokes n), count-strokes n, one)

least-IsFair : IsFair least
least-IsFair = record {
  draws = λ i n h. h;
  prints = λ a b h. sym (count-strokes a) ∙ ap count h ∙ count-strokes b;
}

abbrev noon : TimeOfDay
noon = record { hours = 12; minutes = 0; seconds = 0; millis = 0 }

abbrev fresh : Source
fresh = record { id_counter = 0; base_ns = 1_000; drawn = 0 }

makes_two : length (generate_all least (noon ∷ noon ∷ []) fresh) ≡ 2
unfolding generate_all
makes_two = refl

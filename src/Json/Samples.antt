-- ===== src/Json/Samples.antt =====
-- A way to read and print numbers that tests can run: every text reads as 0, every number prints
-- as 7.
use kprobe.Json.{pos, Numerals}

abbrev pub plain : Numerals
plain = record { read = λ s. pos 0; print = λ n. "7"; fixed = λ a b d. "0.0" }

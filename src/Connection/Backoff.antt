-- ===== src/Connection/Backoff.antt =====
-- The delays between attempts to reconnect.
use Prim.Native.Nat.{min, ◌^◌}
use native.Mathlib.Nat.{pow-suc}
use kprobe.Base.{ℕ, zero, suc, ◌*◌, ◌≡◌, refl, ap, ◌+◌, true, false, some, List, [], ◌∷◌, arith}
use kprobe.Json.{Codec}
use kprobe.Connection.{
  Connection, Action, timer_fired, opened, closed, initial_backoff, max_backoff, step, run,
}

-- `k` attempts in a row whose socket cannot be created.
abbrev pub failures : ℕ → List Action
failures zero = []
failures (suc k) = timer_fired false ∷ failures k

abbrev capped : ℕ → ℕ
capped k = min (initial_backoff * 2 ^ k) max_backoff

module _ (codec : Codec) where
  failure_doubles :
      (c : Connection) (j : ℕ)
      → c.mounted ≡ true
      → c.backoff ≡ capped j
      → let c' = step codec (timer_fired false) c in
        (c'.mounted ≡ true) × (c'.timer ≡ some (capped j)) × (c'.backoff ≡ capped (suc j))
  unfolding step
  failure_doubles c j m b = rw m (refl, ap some b, rw b (omega (arith, pow-suc 2 j)))

  failures-timer :
      (k j : ℕ) (c : Connection)
      → c.mounted ≡ true
      → c.backoff ≡ capped (suc j)
      → c.timer ≡ some (capped j)
      → (run codec (failures k) c).timer ≡ some (capped (j + k))
  unfolding run
  failures-timer zero j c m b t = let e : j + 0 ≡ j = omega arith in rw e t
  failures-timer (suc k) j c m b t =
      let (m', t', b') = failure_doubles c (suc j) m b in
      let e : j + suc k ≡ suc j + k = omega arith in
      rw e (failures-timer k (suc j) (step codec (timer_fired false) c) m' b' t')

  -- After a mounted provider's open connection is lost, and k attempts in a row cannot even create a socket,
  -- the wait before the next attempt is the smaller of 1000 * 2^k and 30000 milliseconds.
  pub wait_doubles :
      (k : ℕ) (c : Connection)
      → c.mounted ≡ true
      → (run codec (opened ∷ closed ∷ failures k) c).timer
        ≡ some (min (initial_backoff * 2 ^ k) max_backoff)
  unfolding run
  wait_doubles k c m =
      let lost = step codec closed (step codec opened c) in
      let (m', b', t') = after_loss in
      let e : 0 + k ≡ k = omega arith in rw e at (failures-timer k 0 lost m' b' t')
    where
      after_loss :
          let lost = step codec closed (step codec opened c) in
          (lost.mounted ≡ true) × (lost.backoff ≡ capped 1) × (lost.timer ≡ some (capped 0))
      after_loss = unfold step in rw m (refl, refl, refl)

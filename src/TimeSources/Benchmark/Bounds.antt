-- ===== src/TimeSources/Benchmark/Bounds.antt =====
-- Benchmark::overhead against the time that has passed.
use timing_proxy.Base.{
  ℕ, zero, suc, ◌+◌, ◌-◌, ◌*◌, ◌/◌, ◌%◌, ◌^◌, ◌≤◌, ◌<◌, ◌≡◌, refl, arith, ◌∷◌, ok, Outcome, subst,
}
use native.Mathlib.Nat.{div-mul-le_self}
use timing_proxy.Os.Calls.{Reply, Trace, System}
use timing_proxy.TimeSources.{TimeSource}
use timing_proxy.TimeSources.Readings.{
  clock_call, clock_value, read_time-reads, last_reading, last_reading-clock, IsMonotone,
}
use timing_proxy.TimeSources.Benchmark.{Benchmark, count_round, measure, overhead}

-- The calls `v` are the calls `w` and so many pairs of readings of the clock, with the sum of the times
-- between the two readings of each pair.
pub data Spent (source : TimeSource) (w : Trace) : ℕ → ℕ → Trace → Type 0 where
  none_yet : Spent source w 0 0 w
  one_more :
      {rounds total : ℕ} {v : Trace} (before later : Reply)
      → Spent source w rounds total v
      → clock_value source before ≤ clock_value source later
      → Spent source w
          (suc rounds)
          (total + (clock_value source later - clock_value source before))
          ((clock_call source, later) ∷ (clock_call source, before) ∷ v)

-- A run that returns the sum of the times between its readings, when it has made so many pairs.
abbrev Measured : TimeSource → Trace → ℕ → Outcome ℕ × Trace → Type 0
Measured source w rounds run =
    (total : ℕ) × (v : Trace) × (run ≡ (ok total, v))
    × Spent source w rounds total v
    × (total + last_reading source w ≤ last_reading source v)

module _ (system : System) (source : TimeSource) (monotone : IsMonotone system source) where
  measure-Measured :
      (rounds i result : ℕ) (w v : Trace)
      → i + rounds < 2 ^ 31
      → Spent source w i result v
      → last_reading source v < 2 ^ 64
      → result + last_reading source w ≤ last_reading source v
      → Measured source w (i + rounds) (measure system source rounds i result v)
  unfolding measure
  measure-Measured zero i result w v few spent fits le =
      (result, v, refl, subst (λ (n : ℕ). Spent source w n result v) (omega arith) spent, le)
  measure-Measured (suc rounds) i result w v few spent fits le =
      let first = system v (clock_call source) in
      let v₁ : Trace = (clock_call source, first) ∷ v in
      let second = system v₁ (clock_call source) in
      let v₂ : Trace = (clock_call source, second) ∷ v₁ in
      let before = clock_value source first in
      let later = clock_value source second in
      let (le₁, bound₁) = monotone v fits in
      let at₁ : last_reading source v₁ ≡ before = last_reading-clock source first v in
      let fits₁ : last_reading source v₁ < 2 ^ 64 = omega arith in
      let (le₂, bound₂) = monotone v₁ fits₁ in
      let at₂ : last_reading source v₂ ≡ later = last_reading-clock source second v₁ in
      let time : (2 ^ 64 + later - before) % 2 ^ 64 ≡ later - before = omega arith in
      let sum : (result + (later - before)) % 2 ^ 64 ≡ result + (later - before) = omega arith in
      let counts : count_round i ≡ ok tt = ground arith in
      let here : suc i + rounds ≡ i + suc rounds = omega arith in
      rw (read_time-reads system source v, read_time-reads system source v₁, time, counts, sum)
        (subst
          (λ (n : ℕ).
            Measured source w n
              (measure system source rounds (suc i) (result + (later - before)) v₂))
          here
          (measure-Measured rounds (suc i) (result + (later - before)) w v₂ (omega arith)
            (one_more first second spent (omega arith)) (omega arith) (omega arith)))

  -- With a clock of 64 bits that does not go back, the last reading before in 64 bits, and at least one
  -- and less than 2 ^ 31 rounds, Benchmark::overhead ends: it reads the clock twice in each round and
  -- gives the sum of the times between the two readings, divided by the rounds. Taken as often as there
  -- were rounds this is at most the time from the last reading before to its last reading: neither a
  -- difference nor the sum wraps round.
  pub overhead-Measured :
      (this : Benchmark) (w : Trace)
      → last_reading source w < 2 ^ 64
      → this.source ≡ source
      → 0 < this.iterations
      → this.iterations < 2 ^ 31
      → (total : ℕ) × (v : Trace) × (overhead system this w ≡ (ok (total / this.iterations), v))
        × Spent source w this.iterations total v
        × (total / this.iterations * this.iterations + last_reading source w
            ≤ last_reading source v)
  unfolding overhead
  overhead-Measured this w fits same some few =
      let (total, v, runs, spent, le) =
        measure-Measured this.iterations 0 0 w w (omega arith) none_yet fits (omega arith) in
      (
        total,
        v,
        rw (same, runs) refl,
        subst (λ (n : ℕ). Spent source w n total v) (omega arith) spent,
        omega (arith, div-mul-le_self total this.iterations),
      )

-- ===== src/Programs/Helper.antt =====
-- helper/helper.h, as far as the programs use it.
use timing_proxy.Base.{
  ℕ, zero, suc, ◌+◌, ◌≡◌, refl, ap, ◌∙◌, arith, true, false, ltb, Outcome, ok, out_of_fuel,
  if◌then◌else◌,
}

-- The `for` with its counter: nothing is done in it, and no clock is asked.
unfoldable pub count_up : ℕ → ℕ → ℕ → Outcome (Unit {0})
count_up zero nanoseconds i = out_of_fuel
count_up (suc fuel) nanoseconds i =
    let rest = count_up fuel nanoseconds (suc i) in if ltb i nanoseconds then rest else ok tt

unfoldable pub active_sleep : ℕ → Outcome (Unit {0})
unfolding count_up
active_sleep nanoseconds = count_up (suc nanoseconds) nanoseconds 0

count_up-from : (left i : ℕ) → count_up (suc left) (i + left) i ≡ ok tt
unfolding count_up
count_up-from zero i = let done : ltb i (i + 0) ≡ false = ground arith in rw done refl
count_up-from (suc left) i =
    let more : ltb i (i + suc left) ≡ true = ground arith in
    rw more
      (ap (λ (n : ℕ). count_up (suc left) n (suc i)) (omega arith) ∙ count_up-from left (suc i))

-- The loop of active_sleep ends, after as many rounds as it is given nanoseconds.
pub active_sleep-ok : (nanoseconds : ℕ) → active_sleep nanoseconds ≡ ok tt
unfolding active_sleep
active_sleep-ok nanoseconds =
    ap (λ (n : ℕ). count_up (suc nanoseconds) n 0) (omega arith) ∙ count_up-from nanoseconds 0

-- ===== src/Base/Runs.antt =====
-- Runs that keep to the memory they own and end: partial-correctness triples with those two
-- promises. An exception or std::terminate is a way to end.
use Prim.Native.Nat.{ℕ, ◌≤◌}
use mathlib.Core.Path.{◌≡◌, refl}
use mathlib.Core.Bool.{Bool, true, false}
use mathlib.Core.Option.{Option, none, some}
use native.Mathlib.Omega.{arith}
use timing_proxy.Base.Tests.{ltb, if◌then◌else◌}
use timing_proxy.Base.Outcomes.{
  Outcome, ok, throws, terminate, ◌>>=◌, Exception, throw_if, terminate_if, or_throw,
}

pub data Safe {ℓ κ} {A : Type ℓ} (P : A → Type κ) : Outcome A → Type (ℓ ⊔ κ) where
  returns : {a : A} → P a → Safe P (ok a)
  raises : {e : Exception} → Safe P (throws e)
  stops : Safe P terminate

module _ {ℓ κ} {A : Type ℓ} {P : A → Type κ} where
  pub Safe-bind {ℓ' κ'} :
      {B : Type ℓ'} {Q : B → Type κ'} {r : Outcome A} {f : A → Outcome B}
      → Safe P r
      → ((a : A) → P a → Safe Q (f a))
      → Safe Q (r >>= f)
  Safe-bind (returns p) next = next _ p
  Safe-bind raises next = raises
  Safe-bind stops next = stops

  pub Safe-mono {κ'} :
      {Q : A → Type κ'} {r : Outcome A} → Safe P r → ((a : A) → P a → Q a) → Safe Q r
  Safe-mono (returns p) weaken = returns (weaken _ p)
  Safe-mono raises weaken = raises
  Safe-mono stops weaken = stops

  -- The run itself is known in the rest.
  pub Safe-self : {r : Outcome A} → Safe P r → Safe (λ a. (r ≡ ok a) × P a) r
  Safe-self (returns p) = returns (refl, p)
  Safe-self raises = raises
  Safe-self stops = stops

pub Safe-throw_if : (b : Bool) (e : Exception) → Safe (λ _. b ≡ false) (throw_if b e)
Safe-throw_if true e = raises
Safe-throw_if false e = returns refl

pub Safe-terminate_if : (b : Bool) → Safe (λ _. b ≡ false) (terminate_if b)
Safe-terminate_if true = stops
Safe-terminate_if false = returns refl

pub Safe-or_throw {ℓ} :
    {A : Type ℓ} (o : Option A) (e : Exception) → Safe (λ a. o ≡ some a) (or_throw o e)
Safe-or_throw none e = raises
Safe-or_throw (some a) e = returns refl

-- `if (size < n) throw …;`
pub Safe-throw_below : (size n : ℕ) (e : Exception) → Safe (λ _. n ≤ size) (throw_if (ltb size n) e)
Safe-throw_below size n e = Safe-mono (Safe-throw_if (ltb size n) e) (λ _ h. ground arith)

pub Safe-terminate_below : (size n : ℕ) → Safe (λ _. n ≤ size) (terminate_if (ltb size n))
Safe-terminate_below size n = Safe-mono (Safe-terminate_if (ltb size n)) (λ _ h. ground arith)

pub Safe-if {ℓ κ} :
    {A : Type ℓ} {P : A → Type κ} (b : Bool) {r s : Outcome A}
    → (b ≡ true → Safe P r)
    → (b ≡ false → Safe P s)
    → Safe P (if b then r else s)
Safe-if true yes_case no_case = yes_case refl
Safe-if false yes_case no_case = no_case refl

-- ===== src/Base/Outcomes.antt =====
-- How a C++ call ends: with a value, by an exception, in std::terminate or outside the language.

use Prim.Native.String.{String}
use mathlib.Core.Path.{◌≡◌, refl}
use mathlib.Core.Bool.{Bool, true, false}
use mathlib.Core.Option.{Option, none, some}

-- The standard exceptions that the sources raise, with the text they are built from.
pub data Exception : Type 0 where
  invalid_argument : String → Exception
  out_of_range : String → Exception
  runtime_error : String → Exception

-- `terminate` is a `throw;` with no exception in flight, which calls std::terminate.
-- `fault` is a read outside the memory that the caller owns.
-- `out_of_fuel` says that a loop needs more rounds than it was given.
pub data Outcome {ℓ} (A : Type ℓ) : Type ℓ where
  ok : A → Outcome A
  throws : Exception → Outcome A
  terminate : Outcome A
  fault : Outcome A
  out_of_fuel : Outcome A

infixl 5 ◌>>=◌ ◌>>◌
abbrev pub ◌>>=◌ {ℓ κ} :
    {Value : Type ℓ} {Next : Type κ} → Outcome Value → (Value → Outcome Next) → Outcome Next
terminate >>= rest = terminate
fault >>= rest = fault
out_of_fuel >>= rest = out_of_fuel
throws what >>= rest = throws what
ok value >>= rest = rest value

abbrev pub ◌>>◌ {κ} : {Next : Type κ} → Outcome (Unit {0}) → Outcome Next → Outcome Next
first >> rest = first >>= λ _. rest

-- `if (b) throw e;`
abbrev pub throw_if : Bool → Exception → Outcome (Unit {0})
throw_if true e = throws e
throw_if false e = ok tt

-- `if (b) throw;`
abbrev pub terminate_if : Bool → Outcome (Unit {0})
terminate_if true = terminate
terminate_if false = ok tt

abbrev pub or_fault {ℓ} : {A : Type ℓ} → Option A → Outcome A
or_fault none = fault
or_fault (some a) = ok a

abbrev pub or_throw {ℓ} : {A : Type ℓ} → Option A → Exception → Outcome A
or_throw none e = throws e
or_throw (some a) e = ok a

-- A chain that returned has returned at its first step.
pub >>=-returned {ℓ κ} :
    {Value : Type ℓ} {Next : Type κ} (first : Outcome Value) (rest : Value → Outcome Next)
    {result : Next}
    → (first >>= rest) ≡ ok result
    → (value : Value) × (first ≡ ok value) × (rest value ≡ ok result)
>>=-returned (ok value) rest h = (value, refl, h)
>>=-returned (throws what) rest h = cc
>>=-returned terminate rest h = cc
>>=-returned fault rest h = cc
>>=-returned out_of_fuel rest h = cc

pub ok-injective {ℓ} : {A : Type ℓ} {a b : A} → ok a ≡ ok b → a ≡ b
ok-injective e = cc

-- ===== src/Os/Triples.antt =====
-- Triples for code that makes system calls: from calls that satisfy `P`, the code returns a value and
-- calls that satisfy `Q`, or ends otherwise with calls that satisfy `E`.
use timing_proxy.Base.{
  ◌≡◌, refl, ap, ◌⊎◌, inl, inr, Option, none, some, false, Outcome, ok, throws, terminate, fault,
  out_of_fuel, runtime_error, invalid_argument, out_of_range,
}
use timing_proxy.Base
use timing_proxy.Os.Calls.{Trace}
use timing_proxy.Os.Io.{Io, is_ok, catch_runtime}

pub data Ends {ℓ} {A : Type ℓ} (Q : A → Trace → Type 0) (E : Trace → Type 0)
    : Outcome A × Trace → Type ℓ where
  returned : {a : A} {v : Trace} → Q a v → Ends Q E (ok a, v)
  ended : {r : Outcome A} {v : Trace} → is_ok r ≡ false → E v → Ends Q E (r, v)

abbrev pub Triple {ℓ} :
    {A : Type ℓ} → (Trace → Type 0) → Io A → (A → Trace → Type 0) → (Trace → Type 0) → Type ℓ
Triple P code Q E = (w : Trace) → P w → Ends Q E (code w)

abbrev pub carry {ℓ κ} :
    {A : Type ℓ} {B : Type κ} → (A → Outcome B × Trace) → Trace → Outcome A → Outcome B × Trace
carry next v (ok a) = next a
carry next v (throws e) = (throws e, v)
carry next v terminate = (terminate, v)
carry next v fault = (fault, v)
carry next v out_of_fuel = (out_of_fuel, v)

-- What never returns after any first part, or after a first part that does not return.
pub carry-not_ok {ℓ κ} :
    {A : Type ℓ} {B : Type κ} (next : A → Outcome B × Trace) (v : Trace) (r : Outcome A)
    → ((a : A) → is_ok (next a).0 ≡ false)
    → is_ok (carry next v r).0 ≡ false
carry-not_ok next v (ok a) never = never a
carry-not_ok next v (throws e) never = refl
carry-not_ok next v terminate never = refl
carry-not_ok next v fault never = refl
carry-not_ok next v out_of_fuel never = refl

pub carry-stopped {ℓ κ} :
    {A : Type ℓ} {B : Type κ} (next : A → Outcome B × Trace) (v : Trace) (r : Outcome A)
    → is_ok r ≡ false
    → is_ok (carry next v r).0 ≡ false
carry-stopped next v (ok a) nil = cc
carry-stopped next v (throws e) nil = refl
carry-stopped next v terminate nil = refl
carry-stopped next v fault nil = refl
carry-stopped next v out_of_fuel nil = refl

pub Ends-anyway {ℓ} : {A : Type ℓ} (run : Outcome A × Trace) → Ends (λ _ _. Unit) (λ _. Unit) run
Ends-anyway (ok a, v) = returned tt
Ends-anyway (throws e, v) = ended refl tt
Ends-anyway (terminate, v) = ended refl tt
Ends-anyway (fault, v) = ended refl tt
Ends-anyway (out_of_fuel, v) = ended refl tt

module _ {ℓ} {A : Type ℓ} {Q : A → Trace → Type 0} {E : Trace → Type 0} where
  -- To go on after code whose result is known by its triple: `rw` by the equation.
  pub Ends-cases :
      {run : Outcome A × Trace}
      → Ends Q E run
      → ((a : A) × (v : Trace) × (run ≡ (ok a, v)) × Q a v)
        ⊎ ((r : Outcome A) × (v : Trace) × (run ≡ (r, v)) × (is_ok r ≡ false) × E v)
  Ends-cases (returned q) = inl (_, _, refl, q)
  Ends-cases (ended nil d) = inr (_, _, refl, nil, d)

  pub Ends-ok : {a : A} {v : Trace} → Ends Q E (ok a, v) → Q a v
  Ends-ok (returned q) = q
  Ends-ok (ended nil d) = cc

  pub Ends-to :
      {Q' : A → Trace → Type 0} {run : Outcome A × Trace}
      → Ends Q E run
      → ((a : A) (w : Trace) → Q a w → Q' a w)
      → Ends Q' E run
  Ends-to (returned q) weaken = returned (weaken _ _ q)
  Ends-to (ended nil d) weaken = ended nil d

  -- Nothing follows code that does not return.
  pub Ends-after {κ} :
      {B : Type κ} (next : B → Outcome A × Trace) (r : Outcome B) (v : Trace)
      → is_ok r ≡ false
      → E v
      → Ends Q E (carry next v r)
  Ends-after next (ok a) v nil d = cc
  Ends-after next (throws e) v nil d = ended refl d
  Ends-after next terminate v nil d = ended refl d
  Ends-after next fault v nil d = ended refl d
  Ends-after next out_of_fuel v nil d = ended refl d

module _ {ℓ κ} {A : Type ℓ} {B : Type κ} {Q : A → Trace → Type 0} {E : Trace → Type 0} where
  -- A result that no call is made for.
  pub Ends-end :
      (next : B → Outcome A × Trace) (r : Outcome B) (v : Trace)
      → E v
      → ((b : B) → Ends Q E (next b))
      → Ends Q E (carry next v r)
  Ends-end next (ok b) v d goes_on = goes_on b
  Ends-end next (throws e) v d goes_on = ended refl d
  Ends-end next terminate v d goes_on = ended refl d
  Ends-end next fault v d goes_on = ended refl d
  Ends-end next out_of_fuel v d goes_on = ended refl d

  -- Outcomes that are chained between two calls.
  pub Ends-chain :
      (next : B → Outcome A) (r : Outcome B) (w : Trace)
      → E w
      → ((b : B) → Ends Q E (next b, w))
      → Ends Q E (Base.◌>>=◌ r next, w)
  Ends-chain next (ok b) w d goes_on = goes_on b
  Ends-chain next (throws e) w d goes_on = ended refl d
  Ends-chain next terminate w d goes_on = ended refl d
  Ends-chain next fault w d goes_on = ended refl d
  Ends-chain next out_of_fuel w d goes_on = ended refl d

module _ {ℓ} {A : Type ℓ} {E : Trace → Type 0} {Q : Option A → Trace → Type 0} where
  Ends-caught :
      (r : Outcome A) (v : Trace)
      → is_ok r ≡ false
      → E v
      → Q none v
      → Ends Q E (catch_runtime (λ _. (r, v)) v)
  Ends-caught (ok a) v nil d q = cc
  Ends-caught (throws (runtime_error what)) v nil d q = returned q
  Ends-caught (throws (invalid_argument what)) v nil d q = ended refl d
  Ends-caught (throws (out_of_range what)) v nil d q = ended refl d
  Ends-caught terminate v nil d q = ended refl d
  Ends-caught fault v nil d q = ended refl d
  Ends-caught out_of_fuel v nil d q = ended refl d

pub Ends-catch {ℓ} :
    {A : Type ℓ} {Q : Option A → Trace → Type 0} {E : Trace → Type 0} (code : Io A) (w : Trace)
    → Ends (λ a. Q (some a)) E (code w)
    → ((v : Trace) → E v → Q none v)
    → Ends Q E (catch_runtime code w)
Ends-catch code w t none_case = elim (Ends-cases t) [
  | inl (a, v, runs, q) ↦ rw runs (returned q)
  | inr (r, v, runs, nil, d) ↦ rw runs (Ends-caught r v nil d (none_case v d))
]

-- A run that ends with this result.
pub with_result :
    {A : Type 0} {r : Outcome A} (run : Outcome A × Trace) → run.0 ≡ r → run ≡ (r, run.1)
with_result run result = ap (λ x. (x, run.1)) result

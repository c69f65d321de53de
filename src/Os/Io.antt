-- ===== src/Os/Io.antt =====
-- Code that makes system calls: how it ends, and the calls that it has made by then. An exception
-- keeps the calls made before it.
use timing_proxy.Base.{
  Bool, true, false, ◌≡◌, refl, ◌∷◌, Outcome, ok, throws, terminate, fault, out_of_fuel, Exception,
  Option, none, some, runtime_error, invalid_argument, out_of_range,
}
use timing_proxy.Os.Calls.{Call, Reply, Trace, System}

abbrev pub Io {ℓ} : Type ℓ → Type ℓ
Io A = Trace → Outcome A × Trace

abbrev pub after {ℓ κ} :
    {A : Type ℓ} {B : Type κ} → (A → Io B) → Trace → Outcome A → Outcome B × Trace
after next w (ok a) = next a w
after next w (throws e) = (throws e, w)
after next w terminate = (terminate, w)
after next w fault = (fault, w)
after next w out_of_fuel = (out_of_fuel, w)

infixl 5 ◌>>=◌ ◌>>◌
abbrev pub ◌>>=◌ {ℓ κ} : {A : Type ℓ} {B : Type κ} → Io A → (A → Io B) → Io B
◌>>=◌ run next w = after next (run w).1 (run w).0

abbrev pub ◌>>◌ {ℓ κ} : {A : Type ℓ} {B : Type κ} → Io A → Io B → Io B
run >> next = run >>= λ _. next

abbrev pub pure {ℓ} : {A : Type ℓ} → A → Io A
pure a w = (ok a, w)

abbrev pub end {ℓ} : {A : Type ℓ} → Outcome A → Io A
end r w = (r, w)

-- `if (b) throw e;` and `if (b) throw;`
abbrev pub io_throw_if : Bool → Exception → Io (Unit {0})
io_throw_if true e = end (throws e)
io_throw_if false e = pure tt

abbrev pub io_terminate_if : Bool → Io (Unit {0})
io_terminate_if true = end terminate
io_terminate_if false = pure tt

abbrev caught {ℓ} : {A : Type ℓ} → Trace → Outcome A → Outcome (Option A) × Trace
caught w (ok a) = (ok (some a), w)
caught w (throws (runtime_error what)) = (ok none, w)
caught w (throws (invalid_argument what)) = (throws (invalid_argument what), w)
caught w (throws (out_of_range what)) = (throws (out_of_range what), w)
caught w terminate = (terminate, w)
caught w fault = (fault, w)
caught w out_of_fuel = (out_of_fuel, w)

-- `try { … } catch (const std::runtime_error&)`: the value, if there was no such exception.
abbrev pub catch_runtime {ℓ} : {A : Type ℓ} → Io A → Io (Option A)
catch_runtime run w = caught (run w).1 (run w).0

abbrev pub call : System → Call → Io Reply
call system c w = (ok (system w c), (c, system w c) ∷ w)

abbrev pub is_ok {ℓ} : {A : Type ℓ} → Outcome A → Bool
is_ok (ok a) = true
is_ok _ = false

-- Code that cannot return after any first part does not return.
pub after-not_ok {ℓ κ} :
    {A : Type ℓ} {B : Type κ} (run : Outcome A × Trace) (next : A → Io B)
    → ((a : A) (w : Trace) → is_ok (next a w).0 ≡ false)
    → is_ok (after next run.1 run.0).0 ≡ false
after-not_ok (ok a, w) next never = never a w
after-not_ok (throws e, w) next never = refl
after-not_ok (terminate, w) next never = refl
after-not_ok (fault, w) next never = refl
after-not_ok (out_of_fuel, w) next never = refl

-- ===== src/Prelude/Control.antt =====
-- What a call of the library can come to, and how a chain of calls goes on.
use mathlib.Core.Path.{◌≡◌, refl}
use mathlib.Core.Bool.{Bool, true, false}
use mathlib.Core.Logic.{◌≢◌}

-- `thrown` is a C++ exception, `aborted` a failed `assert`, and `undefined` an access outside an
-- object, through a null pointer, or to an object of another type. `exhausted` is no outcome of the
-- program: a loop of the model ran out of fuel.
pub data Outcome {ℓ} (A : Type ℓ) : Type ℓ where
  ok : A → Outcome A
  thrown : Outcome A
  aborted : Outcome A
  undefined : Outcome A
  exhausted : Outcome A

infixl 5 ◌>>=◌ ◌>>◌
abbrev pub ◌>>=◌ {ℓ κ} : {A : Type ℓ} {B : Type κ} → Outcome A → (A → Outcome B) → Outcome B
thrown >>= next = thrown
aborted >>= next = aborted
undefined >>= next = undefined
exhausted >>= next = exhausted
ok value >>= next = next value

abbrev pub ◌>>◌ {ℓ} : {B : Type ℓ} → Outcome (Unit {0}) → Outcome B → Outcome B
m >> k = m >>= λ _. k

-- `assert (b)`.
abbrev pub assert : Bool → Outcome (Unit {0})
assert true = ok tt
assert false = aborted

-- `if (b) report_error (...)`.
abbrev pub throw_if : Bool → Outcome (Unit {0})
throw_if true = thrown
throw_if false = ok tt

-- A chain that succeeds did so at its first call and behind it.
pub >>=-eq-ok {ℓ κ} :
    {A : Type ℓ} {B : Type κ} (call : Outcome A) (next : A → Outcome B) {result : B}
    → (call >>= next) ≡ ok result
    → (value : A) × (call ≡ ok value) × (next value ≡ ok result)
>>=-eq-ok (ok value) next h = (value, refl, h)
>>=-eq-ok thrown next h = cc
>>=-eq-ok aborted next h = cc
>>=-eq-ok undefined next h = cc
>>=-eq-ok exhausted next h = cc

-- A chain is defined if its parts are.
pub bind_defined {ℓ κ} :
    {A : Type ℓ} {B : Type κ} (m : Outcome A) (f : A → Outcome B)
    → m ≢ undefined
    → ((a : A) → m ≡ ok a → f a ≢ undefined)
    → (m >>= f) ≢ undefined
bind_defined (ok a) f h k = k a refl
bind_defined thrown f h k = λ e. cc
bind_defined aborted f h k = λ e. cc
bind_defined undefined f h k = absurd (h refl)
bind_defined exhausted f h k = λ e. cc

pub ok_injective {ℓ} : {A : Type ℓ} {a b : A} → ok a ≡ ok b → a ≡ b
ok_injective e = cc

-- ===== src/Prelude/Results.antt =====
-- What a call of a C function comes to. `abort` is a failed nn_assert, errno_assert or
-- errnum_assert, and a call of nn_fsm_bad_action, nn_fsm_bad_source or nn_fsm_bad_state.
-- `undefined` is an access that C leaves undefined.
-- `out_of_fuel` is a loop that has used up the rounds that the model gives it.
use mathlib.Core.Bool.{Bool, true, false}
use mathlib.Core.Path.{◌≡◌, refl}

-- The errno constants that the modelled code returns, negated there.
pub data Errno : Type 0 where
  eagain ebadf einval enomem enoprotoopt enotsup etimedout eintr econnreset eaddrinuse : Errno

-- An `int` result that is 0 on success and `-E...` on failure.
pub data Rc : Type 0 where
  success : Rc
  failure : Errno → Rc

pub data Outcome {ℓ} (A : Type ℓ) : Type ℓ where
  returned : A → Outcome A
  abort : Outcome A
  undefined : Outcome A
  out_of_fuel : Outcome A

infixl 5 ◌>>=◌ ◌>>◌
abbrev pub ◌>>=◌ {ℓ κ} : {A : Type ℓ} {B : Type κ} → Outcome A → (A → Outcome B) → Outcome B
returned a >>= f = f a
abort >>= f = abort
undefined >>= f = undefined
out_of_fuel >>= f = out_of_fuel

abbrev pub ◌>>◌ {ℓ} : {B : Type ℓ} → Outcome (Unit {0}) → Outcome B → Outcome B
m >> k = m >>= λ _. k

-- nn_assert.
abbrev pub assert : Bool → Outcome (Unit {0})
assert true = returned tt
assert false = abort

-- A chain that returns has returned at each step.
pub >>=-returned {ℓ κ} :
    {A : Type ℓ} {B : Type κ} (m : Outcome A) (f : A → Outcome B) {b : B}
    → (m >>= f) ≡ returned b
    → (a : A) × (m ≡ returned a) × (f a ≡ returned b)
>>=-returned (returned a) f e = (a, refl, e)
>>=-returned abort f e = cc
>>=-returned undefined f e = cc
>>=-returned out_of_fuel f e = cc

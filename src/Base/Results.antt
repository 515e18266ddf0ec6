-- ===== src/Base/Results.antt =====
-- C++ calls that may throw. `err` holds what() of the exception, and `fault` stands for undefined
-- behaviour, which no handler catches.
use Prim.Native.Nat.{ℕ}
use mathlib.Core.Path.{◌≡◌, refl, ap}
use mathlib.Core.List.{List}
use mathlib.Core.Bool.{Bool, true, false}

pub data Result {ℓ} (A : Type ℓ) : Type ℓ where
  ok : A → Result A
  err : List ℕ → Result A
  fault : Result A

-- `if (bad) throw e;`
abbrev pub throw_if : Bool → List ℕ → Result (Unit {0})
throw_if false what = ok tt
throw_if true what = err what

-- What follows a call runs only if the call returns.
infixl 5 ◌>>=◌ ◌>>◌
abbrev pub ◌>>=◌ {κ ℓ} : {B : Type κ} {A : Type ℓ} → Result B → (B → Result A) → Result A
fault >>= next = fault
err what >>= next = err what
ok value >>= next = next value

abbrev pub ◌>>◌ {κ} : {A : Type κ} → Result (Unit {0}) → Result A → Result A
first >> next = first >>= λ _. next

-- Two calls that return a value together both returned one.
pub >>=-eq-ok {κ ℓ} :
    {B : Type κ} {A : Type ℓ} (first : Result B) (next : B → Result A) {value : A}
    → (first >>= next) ≡ ok value
    → (b : B) × (first ≡ ok b) × (next b ≡ ok value)
>>=-eq-ok fault next e = cc
>>=-eq-ok (err what) next e = cc
>>=-eq-ok (ok b) next e = (b, refl, e)

abbrev or_else {ℓ} : {A : Type ℓ} → A → Result A → A
or_else default (ok value) = value
or_else default (err what) = default
or_else default fault = default

pub ok-injective {ℓ} : {A : Type ℓ} {x y : A} → ok x ≡ ok y → x ≡ y
ok-injective {x = x} e = ap (or_else x) e

-- What follows a test that did not throw.
pub >>-ok :
    {A : Type 0} (bad : Bool) (what : List ℕ) (next : Result A) {value : A}
    → (throw_if bad what >> next) ≡ ok value
    → (bad ≡ false) × (next ≡ ok value)
>>-ok true what next h = cc
>>-ok false what next h = (refl, h)

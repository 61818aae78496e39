-- ===== src/Common/Outcome.antt =====
-- Rust's `Result`, with `?` as bind.
use mathlib.Core.Path.{◌≡◌, refl}
use mathlib.Core.Logic.{◌⊎◌, inl, inr}
use mathlib.Core.Bool.{Bool, true, false}

pub data Result {ℓ κ} (E : Type ℓ) (A : Type κ) : Type (ℓ ⊔ κ) where
  err : E → Result E A
  ok : A → Result E A

pub Result-cases {ℓ κ} :
    {E : Type ℓ} {A : Type κ} (outcome : Result E A)
    → ((value : A) × (outcome ≡ ok value)) ⊎ ((error : E) × (outcome ≡ err error))
Result-cases (err error) = inr (error, refl)
Result-cases (ok value) = inl (value, refl)

-- `if test { return Err(error); }`
abbrev pub fail_if {ℓ} : {E : Type ℓ} → Bool → E → Result E (Unit {0})
fail_if false error = ok tt
fail_if true error = err error

-- `outcome?` before `rest`
infixl 5 ◌>>=◌
abbrev pub ◌>>=◌ {ℓ κ μ} :
    {E : Type ℓ} {A : Type κ} {B : Type μ} → Result E A → (A → Result E B) → Result E B
err error >>= rest = err error
ok value >>= rest = rest value

-- What a chain that succeeded went through.
pub >>=-eq-ok {ℓ κ μ} :
    {E : Type ℓ} {A : Type κ} {B : Type μ} (first : Result E A) (rest : A → Result E B) {answer : B}
    → (first >>= rest) ≡ ok answer
    → (value : A) × (first ≡ ok value) × (rest value ≡ ok answer)
>>=-eq-ok (err error) rest succeeded = cc
>>=-eq-ok (ok value) rest succeeded = (value, refl, succeeded)

infixl 5 ◌>>◌
abbrev pub ◌>>◌ {ℓ κ} : {E : Type ℓ} {B : Type κ} → Result E (Unit {0}) → Result E B → Result E B
checks >> rest = checks >>= λ _. rest

pub fail_if-eq-ok {ℓ} :
    {E : Type ℓ} (test : Bool) (error : E) {u : Unit {0}} → fail_if test error ≡ ok u → test ≡ false
fail_if-eq-ok false error passed = refl
fail_if-eq-ok true error passed = cc

-- A guard that let the rest go on did not fire.
pub fail_if-then {ℓ κ} :
    {E : Type ℓ} {B : Type κ} (test : Bool) (error : E) (rest : Result E B) {answer : B}
    → (fail_if test error >> rest) ≡ ok answer
    → (test ≡ false) × (rest ≡ ok answer)
fail_if-then false error rest passed = (refl, passed)
fail_if-then true error rest passed = cc

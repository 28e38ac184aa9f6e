-- ===== src/Base/Results.antt =====
-- Results of code that throws. An exception is its C++ class; the message texts are left out.
use mathlib.Core.Path.{◌≡◌, refl, subst}
use mathlib.Core.Logic.{◌⊎◌, inl, inr}

pub data Exception : Type 0 where
  length_error runtime_error logic_error invalid_argument out_of_range : Exception
  -- No class: an exception that leaves a `noexcept` function calls `std::terminate`.
  terminated : Exception

pub data Result {ℓ} (A : Type ℓ) : Type ℓ where
  ok : A → Result A
  throw : Exception → Result A

infixl 5 ◌>>=◌
abbrev pub ◌>>=◌ {ℓ κ} : {A : Type ℓ} → {B : Type κ} → Result A → (A → Result B) → Result B
ok value >>= rest = rest value
throw exception >>= rest = throw exception

module _ {ℓ κ} {A : Type ℓ} {B : Type κ} where
  -- A chain that succeeds has a first step that succeeds.
  pub >>=-eq-ok :
      (first : Result A) (rest : A → Result B) {value : B}
      → ◌≡◌ {A = Result B} (first >>= rest) (ok value)
      → (mid : A) × (first ≡ ok mid) × (rest mid ≡ ok value)
  >>=-eq-ok (ok mid) rest = λ e. (mid, refl, e)
  >>=-eq-ok (throw exception) rest = λ e. cc

-- What holds of a result's value holds of the value that it is known to be.
pub subst_ok {ℓ κ} : {A : Type ℓ} (P : A → Type κ) {a b : A} → Result.ok a ≡ Result.ok b → P a → P b
subst_ok P e h = subst P (cc) h

-- To split on a result and keep the equation.
pub Result-cases {ℓ} :
    {A : Type ℓ} (r : Result A) → ((a : A) × (r ≡ ok a)) ⊎ ((e : Exception) × (r ≡ throw e))
Result-cases (ok a) = inl (a, refl)
Result-cases (throw e) = inr (e, refl)

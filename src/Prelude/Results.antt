-- ===== src/Prelude/Results.antt =====
-- A call that returns a value or raises. Exceptions are told apart by their class; the text of a
-- message is not modelled.
use mathlib.Core.Bool.{Bool, true, false}
use mathlib.Core.Logic.{◌⊎◌, inl, inr}
use mathlib.Core.Path.{◌≡◌, refl}

pub data Exception : Type 0 where
  value_error key_error eof_error runtime_error assertion_error file_not_found os_error : Exception
  zero_division type_error index_error struct_error not_implemented attribute_error : Exception

pub data Result {ℓ} (A : Type ℓ) : Type ℓ where
  ok : A → Result A
  err : Exception → Result A

-- `if not b: raise e`
abbrev pub require : Bool → Exception → Result (Unit {0})
require true e = ok tt
require false e = err e

module _ {ℓ κ} {A : Type ℓ} {B : Type κ} where
  infixl 5 ◌>>=◌
  abbrev pub ◌>>=◌ : (call : Result A) (next : A → Result B) → Result B
  err raised >>= next = err raised
  ok value >>= next = next value

module _ {ℓ} {B : Type ℓ} where
  infixl 5 ◌>>◌
  abbrev pub ◌>>◌ : (call : Result (Unit {0})) (next : Result B) → Result B
  call >> next = call >>= λ _. next

-- A chain that succeeded: its first call did, and the rest did with what that answered.
module _ {ℓ κ} {A : Type ℓ} {B : Type κ} {result : B} where
  pub >>=-eq-ok :
      (call : Result A) (next : A → Result B)
      → (call >>= next) ≡ ok result
      → (value : A) × (call ≡ ok value) × (next value ≡ ok result)
  >>=-eq-ok (err raised) next h = cc
  >>=-eq-ok (ok value) next h = (value, refl, h)

  pub >>=-elim {μ} :
      {C : Type μ} (call : Result A) (next : A → Result B)
      → (call >>= next) ≡ ok result
      → ((value : A) → call ≡ ok value → next value ≡ ok result → C)
      → C
  >>=-elim (err raised) next h use_parts = absurd (cc)
  >>=-elim (ok value) next h use_parts = use_parts value refl h

pub ok-injective {ℓ} : {A : Type ℓ} {a b : A} → ok a ≡ ok b → a ≡ b
ok-injective h = cc

pub Result-cases {ℓ} :
    {A : Type ℓ} (r : Result A) → ((e : Exception) × (r ≡ err e)) ⊎ ((a : A) × (r ≡ ok a))
Result-cases (ok a) = inr (a, refl)
Result-cases (err e) = inl (e, refl)

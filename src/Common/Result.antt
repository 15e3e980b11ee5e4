-- ===== src/Common/Result.antt =====
-- A call that may raise an exception.
use mathlib.Core.Path.{◌≡◌, refl}
use mathlib.Core.Logic.{◌⊎◌, inl, inr}
use mathlib.Core.Option.{Option, none, some}

pub data Exception : Type 0 where
  value_error type_error key_error attribute_error integrity_error other_error : Exception

pub data Result {ℓ} (A : Type ℓ) : Type ℓ where
  raised : Exception → Result A
  ok : A → Result A

abbrev pub or_raise {ℓ} : {A : Type ℓ} → Exception → Option A → Result A
or_raise e none = raised e
or_raise e (some a) = ok a

pub Result-cases {ℓ} :
    {A : Type ℓ} (m : Result A) → ((a : A) × (m ≡ ok a)) ⊎ ((e : Exception) × (m ≡ raised e))
Result-cases (ok a) = inl (a, refl)
Result-cases (raised e) = inr (e, refl)

module _ {ℓ κ} {A : Type ℓ} {B : Type κ} where
  infixl 5 ◌>>=◌ ◌>>◌
  -- An exception skips what comes after the call.
  abbrev pub ◌>>=◌ : Result A → (A → Result B) → Result B
  raised e >>= next = raised e
  ok a >>= next = next a

  abbrev pub ◌>>◌ : Result A → Result B → Result B
  raised e >> next = raised e
  ok a >> next = next

  -- The parts of a chain that returned.
  pub >>=-eq-ok :
      (call : Result A) (next : A → Result B) {b : B}
      → (call >>= next) ≡ ok b
      → (a : A) × (call ≡ ok a) × (next a ≡ ok b)
  >>=-eq-ok (raised e) next returned = cc
  >>=-eq-ok (ok a) next returned = (a, refl, returned)

-- A chain that ends in a plain value returns where its first call does.
pub total_map {ℓ κ} :
    {A : Type ℓ} {B : Type κ} (m : Result A) (g : A → B)
    → ((a : A) × (m ≡ ok a))
    → (b : B) × ((m >>= λ a. ok (g a)) ≡ ok b)
total_map m g (a, e) = (g a, rw e refl)

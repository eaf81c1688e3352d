-- ===== src/Prelude/Results.antt =====
-- The exceptions that the modelled code raises, and results that may be one.
use mathlib.Core.Bool.{Bool}
use universal_execution_syst.Prelude.Tests.{if◌then◌else◌}
use mathlib.Core.Logic.{◌⊎◌, inl, inr}
use mathlib.Core.Path.{◌≡◌, refl}

-- `StateStoreError` stands for a raise of that class itself; the next three are its subclasses.
pub data Error : Type 0 where
  value_error forgotten_lane_error state_store_error : Error
  state_unavailable state_version_conflict lease_collision : Error

pub data Result {ℓ} (A : Type ℓ) : Type ℓ where
  ok : A → Result A
  raise : Error → Result A

module _ {ℓ κ} {A : Type ℓ} {B : Type κ} where
  infixl 10 ◌>>=◌
  abbrev pub ◌>>=◌ : Result A → (A → Result B) → Result B
  raise e >>= next = raise e
  ok a >>= next = next a

  pub >>=-eq-ok :
      (r : Result A) (next : A → Result B) {b : B}
      → r >>= next ≡ ok b
      → (a : A) × (r ≡ ok a) × (next a ≡ ok b)
  >>=-eq-ok (raise e) next returned = cc
  >>=-eq-ok (ok a) next returned = (a, refl, returned)

  infixl 10 ◌>>◌
  abbrev pub ◌>>◌ : Result A → Result B → Result B
  ◌>>◌ r s = r >>= λ _. s

-- `if not b: raise e`.
abbrev pub guard : Bool → Error → Result (Unit {0})
guard b e = if b then ok tt else raise e

pub Result-cases {ℓ} :
    {A : Type ℓ} (m : Result A) → ((a : A) × (m ≡ ok a)) ⊎ ((e : Error) × (m ≡ raise e))
Result-cases (ok a) = inl (a, refl)
Result-cases (raise e) = inr (e, refl)

pub ok_injective {ℓ} : {A : Type ℓ} {a b : A} → ok a ≡ ok b → a ≡ b
ok_injective e = cc

-- ===== src/Common/Outcomes.antt =====
-- The outcome of a C function that may fail, that may leave the defined behaviour of C, or whose
-- loop is modelled on fuel.
use mathlib.Core.Bool.{Bool, true, false}
use mathlib.Core.Path.{◌≡◌, refl}

pub data Outcome {ℓ} (A : Type ℓ) : Type ℓ where
  failed undefined out_of_fuel : Outcome A
  ok : A → Outcome A

module _ {ℓ κ} {A : Type ℓ} {B : Type κ} where
  infixl 5 ◌>>=◌
  abbrev pub ◌>>=◌ : Outcome A → (A → Outcome B) → Outcome B
  failed >>= next = failed
  undefined >>= next = undefined
  out_of_fuel >>= next = out_of_fuel
  ok value >>= next = next value

  -- Both steps of a sequence that succeeds.
  pub >>=-eq-ok :
      (first : Outcome A) (next : A → Outcome B) {result : B}
      → (first >>= next) ≡ ok result
      → (value : A) × (first ≡ ok value) × (next value ≡ ok result)
  >>=-eq-ok (ok value) next e = (value, refl, e)
  >>=-eq-ok failed next e = cc
  >>=-eq-ok undefined next e = cc
  >>=-eq-ok out_of_fuel next e = cc

-- A test on whose failure the code jumps to an error path.
abbrev pub guard : Bool → Outcome (Unit {0})
guard passed = elim passed [ true ↦ ok tt | false ↦ failed ]

infixl 5 ◌>>◌
abbrev pub ◌>>◌ {ℓ} : {B : Type ℓ} → Outcome (Unit {0}) → Outcome B → Outcome B
first >> second = first >>= λ done. second

pub ok_inj {ℓ} : {A : Type ℓ} {a b : A} → ok a ≡ ok b → a ≡ b
ok_inj e = cc

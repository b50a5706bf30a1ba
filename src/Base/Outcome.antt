-- ===== src/Base/Outcome.antt =====
-- What a piece of C does: it returns, or it accesses memory outside of every object that it may
-- touch (`fault`, undefined behaviour).
use mathlib.Core.Path.{◌≡◌, refl}
use mathlib.Core.Bool.{Bool, true, false}

pub data Result {ℓ} (A : Type ℓ) : Type ℓ where
  ok : A → Result A
  fault : Result A

infixl 5 ◌>>◌
-- A piece of code that goes on with the value of another, and what is known when both return.
module _ {ℓ κ} {A : Type ℓ} {B : Type κ} where
  infixl 5 ◌>>=◌
  abbrev pub ◌>>=◌ : Result A → (A → Result B) → Result B
  fault >>= next = fault
  ok value >>= next = next value

  pub bind_returned :
      (first : Result A) (next : A → Result B) {b : B}
      → (first >>= next) ≡ ok b
      → (value : A) × (first ≡ ok value) × (next value ≡ ok b)
  bind_returned fault next both = cc
  bind_returned (ok value) next both = (value, refl, both)

-- An access that is defined only where the test passes.
abbrev pub in_bounds : Bool → Result (Unit {0})
in_bounds test = elim test [ false ↦ fault | true ↦ ok tt ]

abbrev pub ◌>>◌ {κ} : {B : Type κ} → Result (Unit {0}) → Result B → Result B
test >> after = test >>= λ u. after

-- The code returns, and what it returns satisfies `P`.
abbrev pub Returns {ℓ} : {A : Type ℓ} → Result A → (A → Type 0) → Type 0
Returns (ok a) P = P a
Returns fault P = ⊥

pub ok-inj {ℓ} : {A : Type ℓ} (a b : A) → ok a ≡ ok b → a ≡ b
ok-inj a b h = cc

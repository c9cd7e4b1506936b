-- ===== src/Base/Faults.antt =====
-- What a C function that may run into undefined behaviour does.
-- `fault`: a read or a write outside an object, a copy of a negative count, a failed assertion.
-- `spent`: the fuel of the model ran out (the theorems exclude it).

pub data Outcome {ℓ} (A : Type ℓ) : Type ℓ where
  ok : A → Outcome A
  fault : Outcome A
  spent : Outcome A

infixl 5 ◌>>=◌
abbrev pub ◌>>=◌ {ℓ κ} : {A : Type ℓ} {B : Type κ} → Outcome A → (A → Outcome B) → Outcome B
ok a >>= f = f a
fault >>= f = fault
spent >>= f = spent

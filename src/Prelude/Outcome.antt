-- ===== src/Prelude/Outcome.antt =====
-- What a run of C code comes to: a value, the end of the program by `exit`, or behaviour that C
-- leaves undefined (a read or write outside an object, a null pointer).
use mathlib.Core.Option.{Option, none, some}
use mathlib.Core.Path.{◌≡◌, refl}
use mathlib.Core.Logic.{◌⊎◌, inl, inr}

pub data Run {ℓ} (A : Type ℓ) : Type ℓ where
  ok : A → Run A
  exit : Run A
  fault : Run A

-- The next call, if the one before returned.
infixl 5 ◌>>=◌
abbrev pub ◌>>=◌ {ℓ κ} : {A : Type ℓ} {B : Type κ} → Run A → (A → Run B) → Run B
exit >>= next = exit
fault >>= next = fault
ok a >>= next = next a

-- The value behind a pointer.
abbrev pub deref {ℓ} : {A : Type ℓ} → Option A → Run A
deref none = fault
deref (some a) = ok a

-- To split on a computed pointer and keep the equation.
pub Option-cases {ℓ} : {A : Type ℓ} (o : Option A) → (o ≡ none) ⊎ ((a : A) × (o ≡ some a))
Option-cases none = inl refl
Option-cases (some a) = inr (a, refl)

pub ok-injective {ℓ} : {A : Type ℓ} {a b : A} → ok a ≡ ok b → a ≡ b
ok-injective e = cc

-- A run that returned did so step by step.
pub ok->>= {ℓ κ} :
    {A : Type ℓ} {B : Type κ} (run : Run A) (rest : A → Run B) (b : B)
    → run >>= rest ≡ ok b
    → (a : A) × (run ≡ ok a) × (rest a ≡ ok b)
ok->>= exit rest b e = absurd cc
ok->>= fault rest b e = absurd cc
ok->>= (ok a) rest b e = (a, refl, e)

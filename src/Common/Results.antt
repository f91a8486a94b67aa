-- ===== src/Common/Results.antt =====
-- Rust's `Result<A, E>` with the `?` operator as a bind.

use mathlib.Core.Path.{◌≡◌, refl}

pub data Result {ℓ κ} (E : Type ℓ) (A : Type κ) : Type (ℓ ⊔ κ) where
  ok : A → Result E A
  err : E → Result E A

infixl 5 ◌>>=◌ ◌>>◌
abbrev pub ◌>>=◌ {e a b} :
    {E : Type e} {Old : Type a} {New : Type b} → Result E Old → (Old → Result E New) → Result E New
err problem >>= next = err problem
ok value >>= next = next value

abbrev pub ◌>>◌ {e b} :
    {E : Type e} {New : Type b} → Result E (Unit {0}) → Result E New → Result E New
check >> rest = check >>= (λ _. rest)

-- A bind that succeeds has its parts succeed.
pub >>=-eq-ok {e a b} :
    {E : Type e} {Old : Type a} {New : Type b} {y : New} (m : Result E Old)
    (next : Old → Result E New)
    → (m >>= next) ≡ ok y
    → (x : Old) × (m ≡ ok x) × (next x ≡ ok y)
>>=-eq-ok (err problem) next done = absurd cc
>>=-eq-ok (ok x) next done = (x, refl, done)

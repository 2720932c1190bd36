-- ===== src/Prelude/Result.antt =====
-- How a call of a C function ends: it returns, an `assert` fails, its behaviour is undefined (an
-- access out of bounds, a signed overflow), or the fuel of a loop runs out.
use mathlib.Core.Path.{◌≡◌, refl, ap}
use mathlib.Core.Option.{Option, none, some}
use native.Mathlib.Omega.{arith}

pub data Outcome {ℓ} (A : Type ℓ) : Type ℓ where
  done : A → Outcome A
  aborted : Outcome A
  undefined : Outcome A
  out_of_fuel : Outcome A

infixl 5 ◌>>=◌ ◌>>◌
abbrev pub ◌>>=◌ {ℓ κ} : {A : Type ℓ} {B : Type κ} → Outcome A → (A → Outcome B) → Outcome B
done a >>= f = f a
aborted >>= f = aborted
undefined >>= f = undefined
out_of_fuel >>= f = out_of_fuel

abbrev pub ◌>>◌ {ℓ κ} : {A : Type ℓ} {B : Type κ} → Outcome A → Outcome B → Outcome B
m >> k = m >>= λ _. k

module _ {A : Type 0} where
  pub done-injective : (a b : A) → done a ≡ done b → a ≡ b
  done-injective a b e = ap (λ (o : Outcome A). elim o [ done x ↦ x | _ ↦ a ]) e

  pub undefined≢done : (a : A) → undefined ≡ done a → ⊥
  undefined≢done a e = ground arith

  pub none≢some : (a : A) (o : Option A) → o ≡ none → o ≡ some a → ⊥
  none≢some a none e f = ground arith
  none≢some a (some b) e f = ground arith

-- The first call of two that have returned has returned.
pub bind-done :
    {A B : Type 0} {b : B} (o : Outcome A) (f : A → Outcome B)
    → (o >>= f) ≡ done b
    → (a : A) × (o ≡ done a) × (f a ≡ done b)
bind-done (done a) f h = (a, refl, h)
bind-done aborted f h = absurd (ground arith)
bind-done undefined f h = absurd (ground arith)
bind-done out_of_fuel f h = absurd (ground arith)

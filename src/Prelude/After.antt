-- ===== src/Prelude/After.antt =====
-- What holds of the result of a C function, where it returns.
use mathlib.Core.Path.{◌≡◌, refl, ap, subst}
use mathlib.Core.Bool.{Bool, true, false}
use mathlib.Core.List.{List}
use Prim.Native.Nat.{ℕ, ◌+◌, ◌≤◌}
use tcp_lib_with_command_par.Prelude.Lists.{length}
use tcp_lib_with_command_par.Prelude.Tests.{if◌then◌else◌, leb, leb→le, Bool-cases}
use mathlib.Core.Logic.{inl, inr}
use tcp_lib_with_command_par.Prelude.Result.{Outcome, done, aborted, undefined, out_of_fuel, ◌>>=◌}
use tcp_lib_with_command_par.Prelude.Memory.{memcpy_in, length-splice}

abbrev pub After : {A : Type 0} → (A → Type 0) → Outcome A → Type 0
After P (done a) = P a
After P aborted = Unit
After P undefined = Unit
After P out_of_fuel = Unit

module _ {A : Type 0} where
  pub After-done : (P : A → Type 0) (out : Outcome A) (a : A) → After P out → out ≡ done a → P a
  After-done P out a h e = subst (After P) e h

  pub After-any : (out : Outcome A) → After (λ a. Unit) out
  After-any (done a) = tt
  After-any aborted = tt
  After-any undefined = tt
  After-any out_of_fuel = tt

  pub After-if :
      (P : A → Type 0) (b : Bool) (x y : Outcome A)
      → After P x
      → After P y
      → After P (if b then x else y)
  After-if P true x y h k = h
  After-if P false x y h k = k

  pub After-bind :
      {B : Type 0} (P : A → Type 0) (R : B → Type 0) (out : Outcome A) (f : A → Outcome B)
      → After P out
      → ((a : A) → P a → After R (f a))
      → After R (out >>= f)
  After-bind P R (done a) f h k = k a h
  After-bind P R aborted f h k = tt
  After-bind P R undefined f h k = tt
  After-bind P R out_of_fuel f h k = tt

pub memcpy_in-After :
    (mem : List ℕ) (at : ℕ) (src : List ℕ)
    → After
        (λ mem'. (length mem' ≡ length mem) × (at + length src ≤ length mem))
        (memcpy_in mem at src)
unfolding memcpy_in
memcpy_in-After mem at src = elim (Bool-cases (leb (at + length src) (length mem))) [
  | inl e ↦
      let fits = leb→le (at + length src) (length mem) e in
      rw e (length-splice mem at src fits, fits)
  | inr e ↦ rw e tt
]

pub After-map :
    {A : Type 0} (P R : A → Type 0) (out : Outcome A)
    → ((a : A) → P a → R a)
    → After P out
    → After R out
After-map P R (done a) f h = f a h
After-map P R aborted f h = tt
After-map P R undefined f h = tt
After-map P R out_of_fuel f h = tt

-- Two results that are taken for the same one.
pub bind-alike :
    {A B C : Type 0} (out : Outcome A) (f g : A → B) (k : B → Outcome C)
    → ((a : A) → k (f a) ≡ k (g a))
    → ((out >>= λ a. done (f a)) >>= k) ≡ ((out >>= λ a. done (g a)) >>= k)
bind-alike (done a) f g k h = h a
bind-alike aborted f g k h = refl
bind-alike undefined f g k h = refl
bind-alike out_of_fuel f g k h = refl

-- A call whose result is known.
pub bind-step :
    {A B : Type 0} (out : Outcome A) (a : A) (f : A → Outcome B) → out ≡ done a → (out >>= f) ≡ f a
bind-step out a f e = ap (λ o. o >>= f) e

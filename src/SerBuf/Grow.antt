-- ===== src/SerBuf/Grow.antt =====
-- The doubling loop of serialize.c: when it ends, and where.
use native.Mathlib.Nat.{pow-suc}
use tcp_lib_with_command_par.Prelude.{
  ℕ, zero, suc, ◌+◌, ◌*◌, ◌^◌, ◌≤◌, ◌<◌, ◌≡◌, ◌≢◌, refl, Bool, true, false, inl, inr, Outcome, done,
  undefined, out_of_fuel, Bool-cases, arith, ◌∙◌, ap, dec_lt,
}
use tcp_lib_with_command_par.SerBuf.{grow, grow_fuel, int_limit, short_signed, short_unsigned}

module _ (short : ℕ → Bool) (fuel size : ℕ) where
  grow-stop : short size ≡ false → grow short (suc fuel) size ≡ done size
  unfolding grow
  grow-stop h = rw (h, grow)

  grow-step :
      short size ≡ true
      → size * 2 < int_limit
      → grow short (suc fuel) size ≡ grow short fuel (size * 2)
  unfolding grow
  grow-step h lt = rw (h, grow) (ground arith)

  grow-overflow : short size ≡ true → int_limit ≤ size * 2 → grow short (suc fuel) size ≡ undefined
  unfolding grow
  grow-overflow h le = rw (h, grow) (ground arith)

doubled : (size fuel : ℕ) → int_limit ≤ size * 2 ^ suc fuel → int_limit ≤ size * 2 * 2 ^ fuel
doubled size fuel h = omega (arith, pow-suc 2 fuel, ap (λ (t : ℕ). size * t) (pow-suc 2 fuel))

-- A loop that starts at a size of at least 1 never runs out of fuel: `2 ^ fuel` is past the range.
grow-enough :
    (short : ℕ → Bool) (fuel size : ℕ)
    → size < int_limit
    → int_limit ≤ size * 2 ^ fuel
    → grow short (suc fuel) size ≢ out_of_fuel
grow-enough short zero size lo hi = absurd (omega arith)
grow-enough short (suc fuel) size lo hi = elim (Bool-cases (short size)) [
  | inr stop ↦ rw (grow-stop short (suc fuel) size stop) (λ e. cc)
  | inl more ↦ elim (dec_lt (size * 2) int_limit) [
    | yes lt ↦
        rw (grow-step short (suc fuel) size more lt)
          (grow-enough short fuel (size * 2) lt (doubled size fuel hi))
    | no ge ↦ rw (grow-overflow short (suc fuel) size more (omega arith)) (λ e. cc)
  ]
]

-- From size 0 the loop never ends, if 0 is too short.
pub grow-zero : (short : ℕ → Bool) (fuel : ℕ) → short 0 ≡ true → grow short fuel 0 ≡ out_of_fuel
unfolding grow
grow-zero short zero h = refl
grow-zero short (suc fuel) h = rw (h, grow) (grow-zero short fuel h)

-- The loop returns a size that is long enough, in range, and no shorter than that it began with.
pub record Grows (start goal : ℕ) (out : Outcome ℕ) : Type 0 where
  pub size : ℕ
  pub returns : out ≡ done size
  pub enough : goal ≤ size
  pub grown : start ≤ size
  pub in_range : size < int_limit

-- The test of the loop says of each size that it meets whether it is below the goal.
pub record Tests (short : ℕ → Bool) (low goal : ℕ) : Type 0 where
  pub sound : (s : ℕ) → low ≤ s → short s ≡ true → s < goal
  pub complete : (s : ℕ) → low ≤ s → short s ≡ false → goal ≤ s

module _ {short : ℕ → Bool} {low goal : ℕ} (t : Tests short low goal)
    (fits : goal * 2 ≤ int_limit) where
  grow-Grows_from :
      (fuel size : ℕ)
      → low ≤ size
      → size < int_limit
      → int_limit ≤ size * 2 ^ fuel
      → Grows size goal (grow short (suc fuel) size)
  grow-Grows_from zero size h lo hi = absurd (omega arith)
  grow-Grows_from (suc fuel) size h lo hi = elim (Bool-cases (short size)) [
    | inl more ↦
        let below : size < goal = t.sound size h more in
        let rest : Grows (size * 2) goal (grow short (suc fuel) (size * 2)) =
          grow-Grows_from fuel (size * 2) (omega arith) (omega arith) (doubled size fuel hi) in
        record {
          size = rest.size;
          returns = grow-step short (suc fuel) size more (omega arith) ∙ rest.returns;
          enough = rest.enough;
          grown = omega (arith, rest.grown);
          in_range = rest.in_range;
        }
    | inr stop ↦ record {
      size = size;
      returns = grow-stop short (suc fuel) size stop;
      enough = t.complete size h stop;
      grown = omega arith;
      in_range = lo;
    }
  ]

  pub grow-Grows :
      (size : ℕ)
      → 0 < size
      → low ≤ size
      → size < int_limit
      → Grows size goal (grow short grow_fuel size)
  grow-Grows size pos h lo = grow-Grows_from 31 size h lo (omega arith)

pub short_signed-Tests : (next n : ℕ) → Tests (short_signed next n) next (next + n)
unfolding short_signed
short_signed-Tests next n = record {
  sound = λ s h e. ground arith;
  complete = λ s h e. ground arith;
}

-- As long as `next` is in the buffer, the unsigned comparison is the signed one.
pub short_unsigned-Tests : (next n : ℕ) → Tests (short_unsigned next n) next (next + n)
unfolding short_unsigned
short_unsigned-Tests next n = record {
  sound = λ s h e. ground arith;
  complete = λ s h e. ground arith;
}

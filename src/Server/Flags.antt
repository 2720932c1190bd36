-- ===== src/Server/Flags.antt =====
-- The bits of `state_flags` (tcp_server_controller.cpp): every value below 16 is run.
use tcp_lib_with_command_par.Prelude.{
  ℕ, zero, suc, ◌^◌, ◌<◌, ◌≡◌, refl, Bool, true, false, not, ◌&&◌, ◌||◌, arith, ltb, ◌==◌,
}
use tcp_lib_with_command_par.Server.{set_bit, unset_bit, is_bit_set}

-- A test of every number below a bound.
unfoldable all_below : ℕ → (ℕ → Bool) → Bool
all_below zero test = true
all_below (suc n) test = test n && all_below n test

all_below-holds :
    (n : ℕ) (test : ℕ → Bool) (k : ℕ) → all_below n test ≡ true → k < n → test k ≡ true
unfolding all_below
all_below-holds zero test k h less = absurd (omega arith)
all_below-holds (suc n) test k h less = ground (arith, all_below-holds n test k)

abbrev same : Bool → Bool → Bool
same true b = b
same false b = not b

same-≡ : (a b : Bool) → same a b ≡ true → a ≡ b
same-≡ true b h = ground arith
same-≡ false b h = ground arith

-- Bit `i` is set, and bit `j` is what it was.
abbrev sets : ℕ → ℕ → ℕ → Bool
sets f i j =
    ltb (set_bit f (2 ^ i)) 16
    && (same (is_bit_set (set_bit f (2 ^ i)) (2 ^ j)) (i == j || is_bit_set f (2 ^ j)))

abbrev unsets : ℕ → ℕ → ℕ → Bool
unsets f i j =
    ltb (unset_bit f (2 ^ i)) 16
    && same (is_bit_set (unset_bit f (2 ^ i)) (2 ^ j)) (not (i == j) && is_bit_set f (2 ^ j))

abbrev returns : ℕ → ℕ → Bool
returns f i = is_bit_set f (2 ^ i) || unset_bit (set_bit f (2 ^ i)) (2 ^ i) == f

sets_table : all_below 16 (λ f. all_below 4 (λ i. all_below 4 (λ j. sets f i j))) ≡ true
unfolding all_below set_bit is_bit_set
sets_table = refl

unsets_table : all_below 16 (λ f. all_below 4 (λ i. all_below 4 (λ j. unsets f i j))) ≡ true
unfolding all_below unset_bit is_bit_set
unsets_table = refl

returns_table : all_below 16 (λ f. all_below 4 (λ i. returns f i)) ≡ true
unfolding all_below set_bit unset_bit is_bit_set
returns_table = refl

module _ (f i j : ℕ) (f_low : f < 16) (i_low : i < 4) (j_low : j < 4) where
  sets_at : sets f i j ≡ true
  sets_at =
      all_below-holds 4 (λ j. sets f i j) j
        (all_below-holds 4 (λ i. all_below 4 (λ j. sets f i j)) i
          (all_below-holds 16 (λ f. all_below 4 (λ i. all_below 4 (λ j. sets f i j))) f sets_table
            f_low)
          i_low)
        j_low

  unsets_at : unsets f i j ≡ true
  unsets_at =
      all_below-holds 4 (λ j. unsets f i j) j
        (all_below-holds 4 (λ i. all_below 4 (λ j. unsets f i j)) i
          (all_below-holds 16 (λ f. all_below 4 (λ i. all_below 4 (λ j. unsets f i j))) f
            unsets_table f_low)
          i_low)
        j_low

  pub set_bit-lt : set_bit f (2 ^ i) < 16
  set_bit-lt = ground (arith, sets_at)

  pub unset_bit-lt : unset_bit f (2 ^ i) < 16
  unset_bit-lt = ground (arith, unsets_at)

  pub is_bit_set-set_bit : is_bit_set (set_bit f (2 ^ i)) (2 ^ j) ≡ (i == j || is_bit_set f (2 ^ j))
  is_bit_set-set_bit =
      same-≡ (is_bit_set (set_bit f (2 ^ i)) (2 ^ j)) (i == j || is_bit_set f (2 ^ j))
        (ground (arith, sets_at))

  pub is_bit_set-unset_bit :
      is_bit_set (unset_bit f (2 ^ i)) (2 ^ j) ≡ (not (i == j) && is_bit_set f (2 ^ j))
  is_bit_set-unset_bit =
      same-≡ (is_bit_set (unset_bit f (2 ^ i)) (2 ^ j)) (not (i == j) && is_bit_set f (2 ^ j))
        (ground (arith, unsets_at))

pub unset_bit-set_bit :
    (f i : ℕ)
    → f < 16
    → i < 4
    → is_bit_set f (2 ^ i) ≡ false
    → unset_bit (set_bit f (2 ^ i)) (2 ^ i) ≡ f
unset_bit-set_bit f i f_low i_low clear =
    let t : returns f i ≡ true =
      all_below-holds 4 (λ i. returns f i) i
        (all_below-holds 16 (λ f. all_below 4 (λ i. returns f i)) f returns_table f_low) i_low in
    ground (arith, t)

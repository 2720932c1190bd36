-- ===== src/Prelude/Blocks.antt =====
-- Copies into and out of a block that is given as the parts before, at and behind the position.
use Prim.Native.Nat.{ℕ, ◌+◌, ◌≤◌}
use mathlib.Core.Path.{◌≡◌, refl, sym, ap, ◌∙◌}
use mathlib.Core.List.{List, ◌++◌, append_assoc}
use native.Mathlib.Omega.{arith}
use tcp_lib_with_command_par.Prelude.Lists.{
  length, take, drop, length-append, length-take, take-append-drop,
}
use tcp_lib_with_command_par.Prelude.Result.{done}
use tcp_lib_with_command_par.Prelude.Memory.{
  splice, memcpy_in, memcpy_out, memcpy_in-done, memcpy_out-done, take-append_self, drop-append,
}

pub splice-middle :
    (a x c src : List ℕ)
    → length src ≡ length x
    → splice (a ++ (x ++ c)) (length a) src ≡ a ++ (src ++ c)
unfolding splice
splice-middle a x c src h =
    ap (λ l. l ++ (src ++ drop (length a + length src) (a ++ (x ++ c))))
      (take-append_self a (x ++ c) (length a) refl)
    ∙ ap (λ l. a ++ (src ++ l))
        (ap (drop (length a + length src)) (sym (append_assoc a x c))
          ∙ drop-append (a ++ x) c (length a + length src) (omega (arith, length-append a x)))

module _ (mem a x c : List ℕ) (at : ℕ) (whole : mem ≡ a ++ (x ++ c)) (here : at ≡ length a) where
  inside : at + length x ≤ length mem
  inside = omega (arith, ap length whole, length-append a (x ++ c), length-append x c)

  pub memcpy_in-middle :
      (src : List ℕ) → length src ≡ length x → memcpy_in mem at src ≡ done (a ++ (src ++ c))
  memcpy_in-middle src h =
      memcpy_in-done mem at src (omega (arith, inside))
      ∙ ap (λ n. done (splice mem n src)) here
      ∙ ap (λ l. done (splice l (length a) src)) whole
      ∙ ap done (splice-middle a x c src h)

  pub memcpy_out-middle : (n : ℕ) → n ≡ length x → memcpy_out mem at n ≡ done x
  memcpy_out-middle n h =
      memcpy_out-done mem at n (omega (arith, inside))
      ∙ ap (λ l. done (take n (drop at l))) whole
      ∙ ap (λ l. done (take n l)) (drop-append a (x ++ c) at here)
      ∙ ap done (take-append_self x c n h)

-- A list in two parts, the first of a given length.
pub record Split (n : ℕ) (l : List ℕ) : Type 0 where
  pub first : List ℕ
  pub second : List ℕ
  pub whole : l ≡ first ++ second
  pub sized : length first ≡ n

pub blocks_at : (n : ℕ) (l : List ℕ) → n ≤ length l → Split n l
blocks_at n l h = record {
  first = take n l;
  second = drop n l;
  whole = sym (take-append-drop n l);
  sized = omega (arith, length-take n l);
}

-- ===== src/Prelude/Memory.antt =====
-- A block of memory is the list of its bytes. `memset`, `memcpy` and `realloc` on such blocks.
use Prim.Native.Nat.{ℕ, zero, suc, ◌+◌, ◌-◌, ◌≤◌}
use mathlib.Core.Path.{◌≡◌, refl, ap, ◌∙◌}
use mathlib.Core.List.{List, [], ◌∷◌, ◌++◌, append_assoc}
use native.Mathlib.Omega.{arith}
use native.Mathlib.Nat.{zero-add, suc-add}
use tcp_lib_with_command_par.Prelude.Lists.{
  length, take, drop, length-append, length-take, length-drop,
}
use tcp_lib_with_command_par.Prelude.Tests.{leb, if◌then◌else◌}
use tcp_lib_with_command_par.Prelude.Result.{Outcome, done, undefined}

-- The bytes that `memcpy(mem + at, src, length src)` leaves in `mem`, where they fit.
unfoldable pub splice : List ℕ → ℕ → List ℕ → List ℕ
splice mem at src = take at mem ++ (src ++ drop (at + length src) mem)

-- `memcpy(mem + at, src, length src)`; a write out of the block is undefined.
unfoldable pub memcpy_in : List ℕ → ℕ → List ℕ → Outcome (List ℕ)
memcpy_in mem at src =
    if leb (at + length src) (length mem) then done (splice mem at src) else undefined

-- `memcpy(dst, mem + at, n)`; a read out of the block is undefined.
unfoldable pub memcpy_out : List ℕ → ℕ → ℕ → Outcome (List ℕ)
memcpy_out mem at n = if leb (at + n) (length mem) then done (take n (drop at mem)) else undefined

-- Bytes `i, i + 1, ..` of memory that the allocator hands out without clearing it.
unfoldable pub uninit : (ℕ → ℕ) → ℕ → ℕ → List ℕ
uninit junk i zero = []
uninit junk i (suc n) = junk i ∷ uninit junk (i + 1) n

-- `realloc(mem, size)`, with `junk` for the contents of the memory that it adds.
unfoldable pub realloc : (ℕ → ℕ) → List ℕ → ℕ → List ℕ
unfolding uninit
realloc junk mem size = take size mem ++ uninit junk (length mem) (size - length mem)

pub length-splice :
    (mem : List ℕ) (at : ℕ) (src : List ℕ)
    → at + length src ≤ length mem
    → length (splice mem at src) ≡ length mem
unfolding splice
length-splice mem at src h = omega (
  arith,
  length-append (take at mem) (src ++ drop (at + length src) mem),
  length-append src (drop (at + length src) mem),
  length-take at mem,
  length-drop (at + length src) mem,
)

pub length-uninit : (junk : ℕ → ℕ) (i n : ℕ) → length (uninit junk i n) ≡ n
unfolding uninit
length-uninit junk i zero = refl
length-uninit junk i (suc n) = ap suc (length-uninit junk (i + 1) n)

pub length-realloc :
    (junk : ℕ → ℕ) (mem : List ℕ) (size : ℕ) → length (realloc junk mem size) ≡ size
unfolding realloc
length-realloc junk mem size = omega (
  arith,
  length-append (take size mem) (uninit junk (length mem) (size - length mem)),
  length-take size mem,
  length-uninit junk (length mem) (size - length mem),
)

module _ {ℓ} {A : Type ℓ} where
  pub take-append : (xs ys : List A) (n : ℕ) → n ≤ length xs → take n (xs ++ ys) ≡ take n xs
  take-append xs ys zero h = refl
  take-append [] ys (suc n) h = elim h [ ]
  take-append (x ∷ xs) ys (suc n) h = ap (λ l. x ∷ l) (take-append xs ys n (omega arith))

  pub take-take : (n m : ℕ) (xs : List A) → n ≤ m → take n (take m xs) ≡ take n xs
  take-take zero m xs h = refl
  take-take (suc n) zero xs h = elim h [ ]
  take-take (suc n) (suc m) [] h = refl
  take-take (suc n) (suc m) (x ∷ xs) h = ap (λ l. x ∷ l) (take-take n m xs (omega arith))

  pub drop-append : (xs ys : List A) (n : ℕ) → n ≡ length xs → drop n (xs ++ ys) ≡ ys
  drop-append [] ys zero h = refl
  drop-append [] ys (suc n) h = absurd (omega arith)
  drop-append (x ∷ xs) ys zero h = absurd (omega arith)
  drop-append (x ∷ xs) ys (suc n) h = drop-append xs ys n (omega arith)

  pub take-append_self : (xs ys : List A) (n : ℕ) → n ≡ length xs → take n (xs ++ ys) ≡ xs
  take-append_self [] ys zero h = refl
  take-append_self [] ys (suc n) h = absurd (omega arith)
  take-append_self (x ∷ xs) ys zero h = absurd (omega arith)
  take-append_self (x ∷ xs) ys (suc n) h = ap (λ l. x ∷ l) (take-append_self xs ys n (omega arith))

  pub take-all : (n : ℕ) (xs : List A) → length xs ≤ n → take n xs ≡ xs
  take-all zero [] h = refl
  take-all zero (x ∷ xs) h = elim h [ ]
  take-all (suc n) [] h = refl
  take-all (suc n) (x ∷ xs) h = ap (λ l. x ∷ l) (take-all n xs (omega arith))

-- What `memcpy` leaves up to the end of its write: the bytes before it, then those written.
pub take-splice :
    (mem : List ℕ) (at : ℕ) (src : List ℕ)
    → at ≤ length mem
    → take (at + length src) (splice mem at src) ≡ take at mem ++ src
unfolding splice
take-splice mem at src h = rw (← append_assoc (take at mem) src (drop (at + length src) mem)) (
    take-append_self (take at mem ++ src) (drop (at + length src) mem) (at + length src)
      (omega (arith, length-append (take at mem) src, length-take at mem)))

-- `realloc` keeps what the smaller of the two blocks holds.
pub take-realloc :
    (junk : ℕ → ℕ) (mem : List ℕ) (size n : ℕ)
    → n ≤ length mem
    → n ≤ size
    → take n (realloc junk mem size) ≡ take n mem
unfolding realloc
take-realloc junk mem size n h k =
    take-append (take size mem) (uninit junk (length mem) (size - length mem)) n
      (omega (arith, length-take size mem))
    ∙ take-take n size mem k

pub memcpy_in-done :
    (mem : List ℕ) (at : ℕ) (src : List ℕ)
    → at + length src ≤ length mem
    → memcpy_in mem at src ≡ done (splice mem at src)
unfolding memcpy_in
memcpy_in-done mem at src h = ground arith

pub memcpy_out-done :
    (mem : List ℕ) (at n : ℕ)
    → at + n ≤ length mem
    → memcpy_out mem at n ≡ done (take n (drop at mem))
unfolding memcpy_out
memcpy_out-done mem at n h = ground arith

module _ {ℓ} {A : Type ℓ} where
  take-nil : (n : ℕ) → take {A = A} n [] ≡ []
  take-nil zero = refl
  take-nil (suc n) = refl

  pub drop-take : (n m : ℕ) (xs : List A) → drop n (take (n + m) xs) ≡ take m (drop n xs)
  drop-take zero m xs = rw (zero-add m) refl
  drop-take (suc n) zero [] = ap (drop (suc n)) (take-nil (suc n + 0))
  drop-take (suc n) (suc m) [] = rw (suc-add n (suc m)) refl
  drop-take (suc n) m (x ∷ xs) = rw (suc-add n m) (drop-take n m xs)

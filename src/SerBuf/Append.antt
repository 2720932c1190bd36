-- ===== src/SerBuf/Append.antt =====
-- What the `serialize_*` functions do to a valid buffer.
use tcp_lib_with_command_par.Prelude.{
  ℕ, ◌+◌, ◌*◌, ◌≤◌, ◌<◌, ◌≡◌, refl, Bool, true, false, inl, inr, Outcome, done, Bool-cases, arith,
  ◌∙◌, ap, List, ◌++◌, length, take, length-replicate,
}
use tcp_lib_with_command_par.Prelude.Memory.{
  splice, realloc, length-splice, length-realloc, take-splice, take-realloc, memcpy_in-done,
}
use tcp_lib_with_command_par.SerBuf.{
  SerBuff, int_limit, grow, grow_fuel, serialize_bytes, serialize_word32, serialize_word8,
  serialize_word64, serialize_string, le_bytes, init_serialized_buffer,
  init_serialized_buffer_of_defined_size,
}
use tcp_lib_with_command_par.SerBuf.Grow.{
  Grows, Tests, grow-Grows, short_signed-Tests, short_unsigned-Tests,
}

pub record IsValid (buf : SerBuff) : Type 0 where
  pub block : length buf.b ≡ buf.size
  pub nonempty : 0 < buf.size
  pub in_range : buf.size < int_limit
  pub fits : buf.next ≤ buf.size
  pub marked : buf.checkpoint ≤ buf.size

-- The bytes that have been written.
abbrev pub contents : SerBuff → List ℕ
contents buf = take buf.next buf.b

pub init-IsValid : IsValid init_serialized_buffer
unfolding init_serialized_buffer
init-IsValid = omega arith

pub init_of_defined_size-IsValid :
    (size : ℕ) → 0 < size → size < int_limit → IsValid (init_serialized_buffer_of_defined_size size)
unfolding init_serialized_buffer_of_defined_size
init_of_defined_size-IsValid size h k = omega (arith, length-replicate {0} {A = ℕ} size 0)

-- The call returns a valid buffer that holds the old bytes and then the new, with its checkpoint
-- where it was.
pub record Appends (buf : SerBuff) (bytes : List ℕ) (out : Outcome SerBuff) : Type 0 where
  pub after : SerBuff
  pub returns : out ≡ done after
  pub valid : IsValid after
  pub appended : contents after ≡ contents buf ++ bytes
  pub advanced : after.next ≡ buf.next + length bytes
  pub unmoved : after.checkpoint ≡ buf.checkpoint
  pub grown : buf.size ≤ after.size

module _ (junk : ℕ → ℕ) (short : ℕ → Bool) (buf : SerBuff) (bytes : List ℕ) (v : IsValid buf) where
  -- with the size that the loop arrives at
  in_place :
      short buf.size ≡ false
      → buf.next + length bytes ≤ buf.size
      → Appends buf bytes (serialize_bytes junk short buf bytes)
  unfolding serialize_bytes
  in_place stop room = record {
    after = record buf { b = splice buf.b buf.next bytes; next = buf.next + length bytes };
    returns = rw (stop, memcpy_in-done buf.b buf.next bytes (omega (arith, v.block)));
    valid = omega (arith, length-splice buf.b buf.next bytes);
    appended = take-splice buf.b buf.next bytes (omega arith);
    advanced = refl;
    unmoved = refl;
    grown = omega arith;
  }

  resized :
      short buf.size ≡ true
      → Grows buf.size (buf.next + length bytes) (grow short grow_fuel buf.size)
      → Appends buf bytes (serialize_bytes junk short buf bytes)
  unfolding serialize_bytes
  resized more g =
      let mem : List ℕ = realloc junk buf.b g.size in
      let full : length mem ≡ g.size = length-realloc junk buf.b g.size in
      record {
        after = record buf {
          b = splice mem buf.next bytes;
          size = g.size;
          next = buf.next + length bytes;
        };
        returns =
            rw (more, g.returns, memcpy_in-done mem buf.next bytes (omega (arith, full, g.enough)));
        valid = omega (arith, length-splice mem buf.next bytes);
        appended =
            take-splice mem buf.next bytes (omega arith)
            ∙ ap (λ l. l ++ bytes)
                (take-realloc junk buf.b g.size buf.next (omega arith) (omega arith));
        advanced = refl;
        unmoved = refl;
        grown = g.grown;
      }

  pub serialize_bytes-Appends :
      Tests short buf.next (buf.next + length bytes)
      → (buf.next + length bytes) * 2 ≤ int_limit
      → Appends buf bytes (serialize_bytes junk short buf bytes)
  serialize_bytes-Appends t fits = elim (Bool-cases (short buf.size)) [
    | inl more ↦ resized more (grow-Grows t fits buf.size v.nonempty v.fits v.in_range)
    | inr stop ↦ in_place stop (t.complete buf.size v.fits stop)
  ]

-- `serialize_string` on a valid buffer with at most 2 ^ 30 bytes after the call returns (no
-- assertion, no undefined behaviour, and the loop ends) with the bytes appended to those held.
pub serialize_string-Appends :
    (junk : ℕ → ℕ) (buf : SerBuff) (bytes : List ℕ)
    → IsValid buf
    → (buf.next + length bytes) * 2 ≤ int_limit
    → Appends buf bytes (serialize_string junk buf bytes)
unfolding serialize_string
serialize_string-Appends junk buf bytes v fits =
    serialize_bytes-Appends junk _ buf bytes v (short_signed-Tests buf.next (length bytes)) fits

-- `serialize_int` and its twins likewise append the four bytes of the word.
pub serialize_word32-Appends :
    (junk : ℕ → ℕ) (buf : SerBuff) (w : ℕ)
    → IsValid buf
    → (buf.next + 4) * 2 ≤ int_limit
    → Appends buf (le_bytes 4 w) (serialize_word32 junk buf w)
unfolding serialize_word32 le_bytes
serialize_word32-Appends junk buf w v fits =
    serialize_bytes-Appends junk _ buf (le_bytes 4 w) v (short_unsigned-Tests buf.next 4) fits

pub serialize_word8-Appends :
    (junk : ℕ → ℕ) (buf : SerBuff) (w : ℕ)
    → IsValid buf
    → (buf.next + 1) * 2 ≤ int_limit
    → Appends buf (le_bytes 1 w) (serialize_word8 junk buf w)
unfolding serialize_word8 le_bytes
serialize_word8-Appends junk buf w v fits =
    serialize_bytes-Appends junk _ buf (le_bytes 1 w) v (short_unsigned-Tests buf.next 1) fits

pub serialize_word64-Appends :
    (junk : ℕ → ℕ) (buf : SerBuff) (w : ℕ)
    → IsValid buf
    → (buf.next + 8) * 2 ≤ int_limit
    → Appends buf (le_bytes 8 w) (serialize_word64 junk buf w)
unfolding serialize_word64 le_bytes
serialize_word64-Appends junk buf w v fits =
    serialize_bytes-Appends junk _ buf (le_bytes 8 w) v (short_unsigned-Tests buf.next 8) fits

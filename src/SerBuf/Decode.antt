-- ===== src/SerBuf/Decode.antt =====
-- Reading back what was written.
use native.Mathlib.Nat.{pow-suc}
use tcp_lib_with_command_par.Prelude.{
  false, ℕ, zero, suc, ◌+◌, ◌*◌, ◌/◌, ◌^◌, ◌≤◌, ◌<◌, ◌≡◌, Outcome, done, sym, arith, ◌∙◌, ap, List,
  [], ◌∷◌, length, take, drop, length-take, ltb,
}
use tcp_lib_with_command_par.Prelude.Memory.{drop-take, drop-append, memcpy_out-done}
use tcp_lib_with_command_par.SerBuf.{
  SerBuff, int_limit, serialize_word32, serialize_string, le_bytes, de_serialize_string,
  deserialize_primitive,
}
use tcp_lib_with_command_par.SerBuf.Append.{
  IsValid, contents, Appends, serialize_word32-Appends, serialize_string-Appends,
}

-- The number that little-endian bytes stand for.
abbrev pub of_le_bytes : List ℕ → ℕ
of_le_bytes [] = 0
of_le_bytes (x ∷ xs) = x + 256 * of_le_bytes xs

of_le_bytes-le_bytes : (n w : ℕ) → w < 256 ^ n → of_le_bytes (le_bytes n w) ≡ w
unfolding le_bytes
of_le_bytes-le_bytes zero w h = omega arith
of_le_bytes-le_bytes (suc n) w h =
    omega (arith, of_le_bytes-le_bytes n (w / 256) (omega (arith, pow-suc 256 n)))

-- A buffer that is read from where another began to write.
abbrev pub rewound_to : SerBuff → SerBuff → SerBuff
rewound_to buf after = record after { next = buf.next }

module _ {buf : SerBuff} {bytes : List ℕ} {out : Outcome SerBuff} (v : IsValid buf)
    (a : Appends buf bytes out) where
  pub written : take (length bytes) (drop buf.next a.after.b) ≡ bytes
  written =
      sym (drop-take buf.next (length bytes) a.after.b)
      ∙ ap (λ n. drop buf.next (take n a.after.b)) (sym a.advanced)
      ∙ ap (drop buf.next) a.appended
      ∙ drop-append (contents buf) bytes buf.next
          (omega (arith, length-take buf.next buf.b, v.fits, v.block))

-- Reading as many bytes as were written, from where the write began, gives those bytes and leaves
-- the buffer as the write left it.
pub de_serialize_string-Appends :
    {buf : SerBuff} (bytes : List ℕ) {out : Outcome SerBuff}
    → IsValid buf
    → (a : Appends buf bytes out) → 0 < length bytes
    → de_serialize_string (rewound_to buf a.after) (length bytes) ≡ done (bytes, a.after)
unfolding de_serialize_string
de_serialize_string-Appends [] v a h = elim h [ ]
de_serialize_string-Appends {buf} (x ∷ xs) v a h =
    rw (not_short, memcpy_out-done a.after.b buf.next (suc (length xs)) room, written v a)
      (λ i. done (x ∷ xs, record a.after { next = sym a.advanced i }))
  where
    room : buf.next + suc (length xs) ≤ length a.after.b
    room = omega (arith, a.advanced, a.valid.fits, a.valid.block)

    not_short : ltb a.after.size (buf.next + suc (length xs)) ≡ false
    not_short = ground (arith, a.advanced, a.valid.fits)

-- For a non-empty string and a valid buffer that holds at most 2 ^ 30 bytes after the write, what
-- `serialize_string` wrote is what `de_serialize_string` reads from where it was written.
pub de_serialize_string-serialize_string :
    (junk : ℕ → ℕ) (buf : SerBuff) (bytes : List ℕ)
    → IsValid buf
    → (buf.next + length bytes) * 2 ≤ int_limit
    → 0 < length bytes
    → (after : SerBuff) × (serialize_string junk buf bytes ≡ done after)
      × (de_serialize_string (rewound_to buf after) (length bytes) ≡ done (bytes, after))
de_serialize_string-serialize_string junk buf bytes v fits h =
    let a = serialize_string-Appends junk buf bytes v fits in
    (a.after, a.returns, de_serialize_string-Appends bytes v a h)

-- On a valid buffer that holds at most 2 ^ 30 bytes after the write, the macro `deserialize_primitive`
-- reads back the four bytes of the number below 2 ^ 32 that `serialize_int` and its twins wrote.
pub deserialize_primitive-serialize_word32 :
    (junk : ℕ → ℕ) (buf : SerBuff) (w : ℕ)
    → IsValid buf
    → (buf.next + 4) * 2 ≤ int_limit
    → w < 2 ^ 32
    → (after : SerBuff) × (bytes : List ℕ) × (serialize_word32 junk buf w ≡ done after)
      × (deserialize_primitive (rewound_to buf after) 4 ≡ done (bytes, after))
      × (of_le_bytes bytes ≡ w)
unfolding deserialize_primitive le_bytes
deserialize_primitive-serialize_word32 junk buf w v fits h =
    let a = serialize_word32-Appends junk buf w v fits in
    (
      a.after,
      le_bytes 4 w,
      a.returns,
      rw
          (
            memcpy_out-done a.after.b buf.next 4
                (omega (arith, a.advanced, a.valid.fits, a.valid.block)),
            written v a,
          )
          (λ i. done (le_bytes 4 w, record a.after { next = sym a.advanced i })),
      of_le_bytes-le_bytes 4 w h,
    )

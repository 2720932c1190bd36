-- ===== src/SerBuf/Tests.antt =====
-- The theorems on serialize.c at concrete buffers.
use tcp_lib_with_command_par.Prelude.{List, ℕ, ◌≡◌, refl, [], ◌∷◌, done, out_of_fuel, arith}
use tcp_lib_with_command_par.SerBuf.{
  SerBuff, grow, short_signed, short_unsigned, serialize_string, de_serialize_string,
  truncate_serialize_buffer, mark_checkpoint_serialize_buffer, restore_checkpoint_serialize_buffer,
  serialize_bytes, serialize_word32, deserialize_primitive,
}
use tcp_lib_with_command_par.Prelude.Memory.{memcpy_in, splice, realloc, uninit}
use tcp_lib_with_command_par.SerBuf.Append.{IsValid, Appends, contents, serialize_string-Appends}
use tcp_lib_with_command_par.SerBuf.Cursor.{restore-serialize_string-mark, truncate_empty_diverges}
use tcp_lib_with_command_par.SerBuf.Decode.{
  of_le_bytes, deserialize_primitive-serialize_word32, rewound_to,
  de_serialize_string-serialize_string,
}

abbrev junk : ℕ → ℕ
junk i = 7

-- Two bytes in a block of three.
abbrev small : SerBuff
small = record { b = 1 ∷ 2 ∷ 0 ∷ []; size = 3; next = 2; checkpoint = 1 }

abbrev empty : SerBuff
empty = record { b = 0 ∷ 0 ∷ []; size = 2; next = 0; checkpoint = 0 }

small-IsValid : IsValid small
small-IsValid = omega arith

empty-IsValid : IsValid empty
empty-IsValid = omega arith

serialize_string_runs :
    serialize_string junk small (8 ∷ 9 ∷ [])
    ≡ done (record { b = 1 ∷ 2 ∷ 8 ∷ 9 ∷ 7 ∷ 7 ∷ []; size = 6; next = 4; checkpoint = 1 })
unfolding serialize_string serialize_bytes short_signed grow memcpy_in splice realloc uninit
serialize_string_runs = refl

serialize_string-Appends_example :
    Appends small (8 ∷ 9 ∷ []) (serialize_string junk small (8 ∷ 9 ∷ []))
serialize_string-Appends_example =
    serialize_string-Appends junk small (8 ∷ 9 ∷ []) small-IsValid (omega arith)

de_serialize_string-serialize_string_example :
    (after : SerBuff) × (serialize_string junk small (8 ∷ 9 ∷ []) ≡ done after)
    × (de_serialize_string (rewound_to small after) 2 ≡ done (8 ∷ 9 ∷ [], after))
de_serialize_string-serialize_string_example =
    de_serialize_string-serialize_string junk small (8 ∷ 9 ∷ []) small-IsValid (omega arith)
      (omega arith)

deserialize_primitive-serialize_word32_example :
    (after : SerBuff) × (bytes : List ℕ) × (serialize_word32 junk small 300 ≡ done after)
    × (deserialize_primitive (rewound_to small after) 4 ≡ done (bytes, after))
    × (of_le_bytes bytes ≡ 300)
deserialize_primitive-serialize_word32_example =
    deserialize_primitive-serialize_word32 junk small 300 small-IsValid (omega arith) (omega arith)

restore-serialize_string-mark_example :
    (after : SerBuff) × (serialize_string junk (mark_checkpoint_serialize_buffer small) (8 ∷ 9 ∷ [])
      ≡ done after)
    × (contents (restore_checkpoint_serialize_buffer after) ≡ contents small)
    × IsValid (restore_checkpoint_serialize_buffer after)
restore-serialize_string-mark_example =
    restore-serialize_string-mark junk small (8 ∷ 9 ∷ []) small-IsValid (omega arith)

truncate_empty_diverges_example :
    (after : SerBuff) × (truncate_serialize_buffer empty ≡ done after)
    × (grow (short_signed after.next 4) 1000 after.size ≡ out_of_fuel)
    × (grow (short_unsigned after.next 4) 1000 after.size ≡ out_of_fuel)
truncate_empty_diverges_example =
    truncate_empty_diverges junk empty 4 1000 empty-IsValid refl (omega arith)

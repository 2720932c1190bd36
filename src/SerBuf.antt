-- ===== src/SerBuf.antt =====
-- CommandParser/serialize.c and serialize.h: a growing buffer of bytes with a write position `next`
-- and a checkpoint. The `int` fields are natural numbers: no function of the file makes one
-- negative but `serialize_buffer_skip`, which is undefined here where it would. Every buffer that
-- is passed is not NULL, `calloc` and `realloc` succeed, and `junk` stands for what the memory that
-- `realloc` adds holds. The machine is little-endian.
pub mod Grow
pub mod Append
pub mod Cursor
pub mod Decode
mod Tests
use tcp_lib_with_command_par.Prelude.{
  ℕ, zero, suc, ◌+◌, ◌-◌, ◌*◌, ◌/◌, ◌%◌, ◌^◌, ℤ, pos, negsuc, Bool, true, false, ◌&&◌, List, [],
  ◌∷◌, Outcome, done, aborted, undefined, out_of_fuel, ◌>>=◌, ltb, leb, ◌==◌, if◌then◌else◌, length,
  replicate,
}
use tcp_lib_with_command_par.Prelude.Memory.{memcpy_in, memcpy_out, realloc}

-- `ser_buff_t`
pub record SerBuff : Type 0 where
  pub b : List ℕ
  pub size : ℕ
  pub next : ℕ
  pub checkpoint : ℕ

abbrev pub int_limit : ℕ
int_limit = 2 ^ 31

abbrev pub default_size : ℕ
default_size = 512

unfoldable pub init_serialized_buffer : SerBuff
init_serialized_buffer = record {
  b = replicate default_size 0;
  size = default_size;
  next = 0;
  checkpoint = 0;
}

unfoldable pub init_serialized_buffer_of_defined_size : ℕ → SerBuff
init_serialized_buffer_of_defined_size size = record {
  b = replicate size 0;
  size = size;
  next = 0;
  checkpoint = 0;
}

unfoldable pub is_serialized_buffer_empty : SerBuff → Bool
is_serialized_buffer_empty buf = buf.next == 0

unfoldable pub get_serialize_buffer_size : SerBuff → ℕ
get_serialize_buffer_size buf = buf.next

unfoldable pub get_serialize_buffer_checkpoint_offset : SerBuff → ℕ
get_serialize_buffer_checkpoint_offset buf = buf.checkpoint

unfoldable pub restore_checkpoint_serialize_buffer : SerBuff → SerBuff
restore_checkpoint_serialize_buffer buf = record buf { next = buf.checkpoint }

unfoldable pub mark_checkpoint_serialize_buffer : SerBuff → SerBuff
mark_checkpoint_serialize_buffer buf = record buf { checkpoint = buf.next }

unfoldable pub reset_serialize_buffer : SerBuff → SerBuff
reset_serialize_buffer buf = record buf { next = 0; checkpoint = 0 }

-- `available_size < nbytes` with both sides `int`.
unfoldable pub short_signed : ℕ → ℕ → ℕ → Bool
short_signed next nbytes size = ltb size (next + nbytes)

-- `available_size < sizeof(type)`: the comparison is unsigned, so a negative `available_size`
-- counts as huge.
unfoldable pub short_unsigned : ℕ → ℕ → ℕ → Bool
short_unsigned next nbytes size = leb next size && ltb (size - next) nbytes

-- `while (short) size = size * 2;` An `int` that overflows is undefined.
unfoldable pub grow : (ℕ → Bool) → ℕ → ℕ → Outcome ℕ
grow short zero size = out_of_fuel
grow short (suc fuel) size = elim (short size) [
  | true ↦ if leb int_limit (size * 2) then undefined else grow short fuel (size * 2)
  | false ↦ done size
]

-- A size of at least 1 leaves the range of `int` within 31 doublings.
abbrev pub grow_fuel : ℕ
grow_fuel = 32

-- The body that the `serialize_*` functions share, with the test of their loop.
unfoldable pub serialize_bytes : (ℕ → ℕ) → (ℕ → Bool) → SerBuff → List ℕ → Outcome SerBuff
serialize_bytes junk short buf bytes =
    if short buf.size
    then (do
      size ← grow short grow_fuel buf.size
      mem ← memcpy_in (realloc junk buf.b size) buf.next bytes
      done (record buf { b = mem; size = size; next = buf.next + length bytes }))
    else (do
      mem ← memcpy_in buf.b buf.next bytes
      done (record buf { b = mem; next = buf.next + length bytes }))

-- The `n` bytes of a machine word, the lowest first.
unfoldable pub le_bytes : ℕ → ℕ → List ℕ
le_bytes zero w = []
le_bytes (suc n) w = w % 256 ∷ le_bytes n (w / 256)

-- `serialize_int`, `_int32`, `_uint32` and `_float` write the four bytes of their argument, which
-- is given by its bit pattern.
unfoldable pub serialize_word32 : (ℕ → ℕ) → SerBuff → ℕ → Outcome SerBuff
serialize_word32 junk buf w = serialize_bytes junk (short_unsigned buf.next 4) buf (le_bytes 4 w)

-- `serialize_int8` and `_uint8`
unfoldable pub serialize_word8 : (ℕ → ℕ) → SerBuff → ℕ → Outcome SerBuff
serialize_word8 junk buf w = serialize_bytes junk (short_unsigned buf.next 1) buf (le_bytes 1 w)

-- `serialize_double`
unfoldable pub serialize_word64 : (ℕ → ℕ) → SerBuff → ℕ → Outcome SerBuff
serialize_word64 junk buf w = serialize_bytes junk (short_unsigned buf.next 8) buf (le_bytes 8 w)

-- `serialize_string(b, bytes, length bytes)`
unfoldable pub serialize_string : (ℕ → ℕ) → SerBuff → List ℕ → Outcome SerBuff
serialize_string junk buf bytes =
    serialize_bytes junk (short_signed buf.next (length bytes)) buf bytes

unfoldable pub serialize_buffer_skip : (ℕ → ℕ) → SerBuff → ℤ → Outcome SerBuff
serialize_buffer_skip junk buf (negsuc n) =
    if leb (n + 1) buf.next then done (record buf { next = buf.next - (n + 1) }) else undefined
serialize_buffer_skip junk buf (pos n) =
    if leb (buf.next + n) buf.size then done (record buf { next = buf.next + n }) else (do
      size ← grow (short_signed buf.next n) grow_fuel buf.size
      done (record buf { b = realloc junk buf.b size; size = size; next = buf.next + n }))

-- The clone's checkpoint stays 0.
unfoldable pub truncate_serialize_buffer : SerBuff → Outcome SerBuff
truncate_serialize_buffer buf = if buf.next == buf.size then done buf else do
  let clone = init_serialized_buffer_of_defined_size buf.next
  bytes ← memcpy_out buf.b 0 buf.next
  mem ← memcpy_in clone.b 0 bytes
  done (record clone { b = mem; next = clone.size })

-- The bytes that go to `dest`, and the buffer after the read.
unfoldable pub de_serialize_string : SerBuff → ℕ → Outcome (List ℕ × SerBuff)
de_serialize_string buf zero = aborted
de_serialize_string buf (suc n) = if ltb buf.size (buf.next + suc n) then aborted else do
  bytes ← memcpy_out buf.b buf.next (suc n)
  done (bytes, record buf { next = buf.next + suc n })

-- The macro `deserialize_primitive`, at a type of `n` bytes: it makes no test of its own.
unfoldable pub deserialize_primitive : SerBuff → ℕ → Outcome (List ℕ × SerBuff)
deserialize_primitive buf n = do
  bytes ← memcpy_out buf.b buf.next n
  done (bytes, record buf { next = buf.next + n })

-- A refusal prints an error and changes nothing.
unfoldable pub copy_in_serialized_buffer_by_offset : SerBuff → List ℕ → ℕ → Outcome SerBuff
copy_in_serialized_buffer_by_offset buf value offset =
    if ltb buf.size (buf.next + length value)
    then done buf
    else if ltb buf.size offset
    then done buf
    else do mem ← memcpy_in buf.b offset value; done (record buf { b = mem })

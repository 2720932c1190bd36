-- ===== src/Bcb.antt =====
-- byte_circular_buffer.cpp and .hpp: a ring of bytes that are written at `front` and read at `rear`.
-- The fields are `uint16_t`: a sum is reduced where the code stores it.
pub mod Queue
pub mod Pieces
pub mod Write
pub mod Front
pub mod Read
pub mod Round
pub mod Refine
mod Tests
use tcp_lib_with_command_par.Prelude.{
  ℕ, ◌+◌, ◌-◌, ◌%◌, Bool, List, Outcome, done, ◌>>=◌, ltb, leb, ◌==◌, if◌then◌else◌,
}
use tcp_lib_with_command_par.Prelude.Memory.{memcpy_in, memcpy_out, uninit}

-- `byte_circular_buffer`
pub record Bcb : Type 0 where
  pub buffer : List ℕ
  pub buffer_size : ℕ
  pub front : ℕ
  pub rear : ℕ
  pub current_size : ℕ

abbrev pub u16 : ℕ → ℕ
u16 n = n % 65536

-- The constructor; `junk` is what `new unsigned char [size]` holds.
unfoldable pub new_bcb : (ℕ → ℕ) → ℕ → Bcb
new_bcb junk size = record {
  buffer = uninit junk 0 size;
  buffer_size = size;
  front = 0;
  rear = 0;
  current_size = 0;
}

unfoldable pub bcb_is_full : Bcb → Bool
bcb_is_full bcb = bcb.buffer_size == bcb.current_size

-- The difference is not negative in a valid buffer; 65536 is for one that is not.
unfoldable pub bcb_available_size : Bcb → ℕ
bcb_available_size bcb = u16 (bcb.buffer_size + 65536 - bcb.current_size)

unfoldable pub bcb_reset : Bcb → Bcb
bcb_reset bcb = record bcb { current_size = 0; front = 0; rear = 0 }

-- `this->front += data_size; if (this->front == this->buffer_size) this->front = 0;`
abbrev pub advanced : Bcb → ℕ → ℕ → ℕ
advanced bcb at n = if u16 (at + n) == bcb.buffer_size then 0 else u16 (at + n)

-- A write that does not go round: the copy, and the new position and size.
unfoldable pub write_straight : Bcb → List ℕ → ℕ → Outcome (Bcb × ℕ)
write_straight bcb input input_size = do
  bytes ← memcpy_out input 0 input_size
  mem ← memcpy_in bcb.buffer bcb.front bytes
  done (
    record bcb {
      buffer = mem;
      front = advanced bcb bcb.front input_size;
      current_size = u16 (bcb.current_size + input_size);
    },
    input_size,
  )

-- A write that goes round after the `leading_space` bytes at the end.
unfoldable pub write_round : Bcb → List ℕ → ℕ → ℕ → Outcome (Bcb × ℕ)
write_round bcb input input_size leading_space = do
  first ← memcpy_out input 0 leading_space
  mem ← memcpy_in bcb.buffer bcb.front first
  second ← memcpy_out input leading_space (input_size - leading_space)
  mem' ← memcpy_in mem 0 second
  done (
    record bcb {
      buffer = mem';
      front = u16 (input_size - leading_space);
      current_size = u16 (bcb.current_size + input_size);
    },
    input_size,
  )

unfoldable pub bcb_write : Bcb → List ℕ → ℕ → Outcome (Bcb × ℕ)
bcb_write bcb input input_size =
    let leading_space = u16 (bcb.buffer_size + 65536 - bcb.front) in
    if bcb_is_full bcb
    then done (bcb, 0)
    else if ltb (bcb_available_size bcb) input_size
    then done (bcb, 0)
    else if ltb bcb.front bcb.rear
    then write_straight bcb input input_size
    else if leb input_size leading_space
    then write_straight bcb input input_size
    else write_round bcb input input_size leading_space

-- A read that does not go round, into the block `out`.
unfoldable pub read_straight : Bcb → List ℕ → ℕ → Bool → Outcome (Bcb × List ℕ × ℕ)
read_straight bcb out out_size remove_read_bytes = do
  bytes ← memcpy_out bcb.buffer bcb.rear out_size
  out' ← memcpy_in out 0 bytes
  let removed : Bcb = record bcb {
    rear = advanced bcb bcb.rear out_size;
    current_size = u16 (bcb.current_size + 65536 - out_size);
  } in
      done (if remove_read_bytes then removed else bcb, out', out_size)

-- A read that goes round: both copies go to the start of `out`.
unfoldable pub read_round : Bcb → List ℕ → ℕ → Bool → ℕ → Outcome (Bcb × List ℕ × ℕ)
read_round bcb out out_size remove_read_bytes leading_space = do
  first ← memcpy_out bcb.buffer bcb.rear leading_space
  out' ← memcpy_in out 0 first
  second ← memcpy_out bcb.buffer 0 (out_size - leading_space)
  out'' ← memcpy_in out' 0 second
  let removed : Bcb = record bcb {
    rear = u16 (out_size - leading_space);
    current_size = u16 (bcb.current_size + 65536 - out_size);
  } in
      done (if remove_read_bytes then removed else bcb, out'', out_size)

unfoldable pub bcb_read : Bcb → List ℕ → ℕ → Bool → Outcome (Bcb × List ℕ × ℕ)
bcb_read bcb out out_size remove_read_bytes =
    let leading_space = u16 (bcb.buffer_size + 65536 - bcb.rear) in
    if ltb bcb.current_size out_size
    then done (bcb, out, 0)
    else if ltb bcb.rear bcb.front
    then read_straight bcb out out_size remove_read_bytes
    else if leb out_size leading_space
    then read_straight bcb out out_size remove_read_bytes
    else read_round bcb out out_size remove_read_bytes leading_space

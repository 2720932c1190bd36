-- ===== src/Demarcar.antt =====
-- tcp_msg_demarcar.cpp and its two subclasses, tcp_msg_fixed_size_demarcar.cpp and
-- tcp_msg_variable_size_demarcar.cpp: what cuts the bytes that a client sends into messages.
pub mod Sizes
pub mod Fixed
pub mod Stream
pub mod Variable
mod Tests
use tcp_lib_with_command_par.Prelude.{
  ℕ, zero, suc, ◌+◌, ◌-◌, ◌*◌, ◌/◌, Bool, true, List, [], ◌∷◌, Outcome, done, aborted, undefined,
  out_of_fuel, ◌>>=◌, ltb, ◌==◌, if◌then◌else◌, get_or,
}
use tcp_lib_with_command_par.Prelude.Memory.{uninit}
use tcp_lib_with_command_par.Bcb.{Bcb, u16, new_bcb, bcb_write, bcb_read}

-- DEFAULT_CBC_SIZE and MAX_CLIENT_BUFFER_SIZE
abbrev pub default_cbc_size : ℕ
default_cbc_size = 10240

abbrev pub max_client_buffer_size : ℕ
max_client_buffer_size = 1024

-- The subclass, with the field `msg_fixed_size`.
pub data Framing : Type 0 where
  fixed_size : ℕ → Framing
  variable_size : Framing

pub record Demarcar : Type 0 where
  pub framing : Framing
  pub bcb : Bcb
  pub buffer : List ℕ

-- A call of `client_msg_recvd`: the block that it is given and the number of bytes.
pub record Delivery : Type 0 where
  pub block : List ℕ
  pub size : ℕ

unfoldable pub new_demarcar : (ℕ → ℕ) → Framing → Demarcar
new_demarcar junk framing = record {
  framing = framing;
  bcb = new_bcb junk default_cbc_size;
  buffer = uninit junk 0 max_client_buffer_size;
}

-- The virtual function: `current_size / msg_fixed_size > 0`, a division by zero for messages of
-- size 0.
unfoldable pub ready_by : Framing → Bcb → Outcome Bool
ready_by (fixed_size m) bcb = if m == 0 then undefined else done (ltb 0 (bcb.current_size / m))
ready_by variable_size bcb = done true

unfoldable pub is_buffer_ready_to_flush : Demarcar → Outcome Bool
is_buffer_ready_to_flush d = ready_by d.framing d.bcb

-- The loop of the fixed size, with fuel.
unfoldable pub fixed_loop : ℕ → ℕ → Demarcar → Outcome (Demarcar × List Delivery)
fixed_loop zero m d = out_of_fuel
fixed_loop (suc fuel) m d = do
  r ← bcb_read d.bcb d.buffer m true
  let read : Demarcar = record d { bcb = r.0; buffer = r.1 } in
      let on : Outcome (Demarcar × List Delivery) = (do
        rest ← fixed_loop fuel m read
        done (rest.0, record { block = r.1; size = r.2 } ∷ rest.1)) in
      if r.2 == 0 then done (read, []) else on

-- The two bytes of `bytes_to_read` as a number.
abbrev pub short_value : List ℕ → ℕ
short_value cell = get_or cell 0 0 + 256 * get_or cell 1 0

-- The loop of the variable size, with fuel; `cell` is the memory of `bytes_to_read`.
unfoldable pub variable_loop : ℕ → List ℕ → Demarcar → Outcome (Demarcar × List Delivery)
variable_loop zero cell d = out_of_fuel
variable_loop (suc fuel) cell d = do
  r ← bcb_read d.bcb cell 2 true
  let read : Demarcar = record d { bcb = r.0 } in
      let on : Outcome (Demarcar × List Delivery) = (do
        rest ← variable_loop fuel r.1 read
        done (
          rest.0,
          record { block = d.buffer; size = u16 (short_value r.1 + 65536 - 2) } ∷ rest.1,
        )) in
      if r.2 == 0 then done (read, []) else on

-- The virtual function behind its test. The fuel is one more than the bytes that are held.
unfoldable pub message_loop : Framing → Demarcar → Outcome (Demarcar × List Delivery)
message_loop (fixed_size m) d = fixed_loop (suc d.bcb.current_size) m d
message_loop variable_size d = variable_loop (suc d.bcb.current_size) (0 ∷ 0 ∷ []) d

unfoldable pub process_client_msg : Demarcar → Outcome (Demarcar × List Delivery)
process_client_msg d = do
  ready ← is_buffer_ready_to_flush d
  if ready then message_loop d.framing d else done (d, [])

unfoldable pub process_msg : Demarcar → List ℕ → ℕ → Outcome (Demarcar × List Delivery)
process_msg d msg_recvd msg_size = do
  r ← bcb_write d.bcb msg_recvd msg_size
  if r.1 == 0 then aborted else (do
    ready ← is_buffer_ready_to_flush (record d { bcb = r.0 })
    if ready
        then process_client_msg (record d { bcb = r.0 })
        else done (record d { bcb = r.0 }, []))

-- ===== src/App/Reading.antt =====
-- What the handlers of src/main.cpp read from a buffer of TLV records (CommandParser/cmdtlv.h).
use tcp_lib_with_command_par.Prelude.{
  ℕ, zero, suc, ◌+◌, ◌-◌, ◌%◌, ℤ, pos, negsuc, Bool, Option, none, some, List, [], ◌∷◌, ◌++◌,
  Outcome, done, aborted, undefined, ◌>>=◌, if◌then◌else◌, take, drop, length,
}
use tcp_lib_with_command_par.Prelude.CString.{c_str, codes, strncmp_eq}
use tcp_lib_with_command_par.SerBuf.{SerBuff}
use tcp_lib_with_command_par.Tlv.{tlv_unit, tlv_units, leaf_id_size}
use tcp_lib_with_command_par.App.Atoi.{atoi_int}

-- The variables of the handler that the loop over the records sets; a text is a block of memory, and
-- NULL is `none`.
pub record Args : Type 0 where
  pub server_name : Option (List ℕ)
  pub ip_addr : List ℕ
  pub port_no : ℕ
  pub remote_ip_addr : Option (List ℕ)
  pub remote_port : ℕ

abbrev pub default_port_no : ℕ
default_port_no = 40000

abbrev pub default_ip_addr : List ℕ
default_ip_addr = codes "127.0.0.1" ++ 0 ∷ []

abbrev pub no_args : Args
no_args = record {
  server_name = none;
  ip_addr = default_ip_addr;
  port_no = default_port_no;
  remote_ip_addr = none;
  remote_port = 0;
}

-- The string at a pointer; one at NULL, or without an end, is undefined.
unfoldable pub text : Option (List ℕ) → Outcome (List ℕ)
text none = undefined
text (some block) = elim (c_str block) [ none ↦ undefined | some s ↦ done s ]

-- The conversion of an `int` to `uint16_t`.
abbrev pub to_u16 : ℤ → ℕ
to_u16 (pos n) = n % 65536
to_u16 (negsuc n) = 65535 - n % 65536

unfoldable pub leaf_id_of : List ℕ → List ℕ
leaf_id_of unit = take leaf_id_size (drop 4 unit)

unfoldable pub value_of : List ℕ → List ℕ
value_of unit = drop leaf_id_size (drop 4 unit)

-- The code in the last of `n` units; without a unit, the bytes before the buffer are read.
unfoldable pub code_in_last : SerBuff → ℕ → Outcome ℤ
code_in_last ser_buff zero = undefined
code_in_last ser_buff (suc last) = do
  unit ← tlv_unit ser_buff last
  s ← text (some (value_of unit))
  atoi_int s

-- EXTRACT_CMD_CODE
unfoldable pub extract_cmd_code : SerBuff → Outcome ℤ
extract_cmd_code ser_buff = code_in_last ser_buff (tlv_units ser_buff)

-- `strncmp(tlv->leaf_id, id, strlen(id)) == 0`
unfoldable pub is_leaf : List ℕ → List ℕ → Bool
is_leaf leaf_id id = strncmp_eq leaf_id id (length id)

-- The body of the loop over the records, on the two fields that it reads.
unfoldable pub read_arg : Args → List ℕ → List ℕ → Outcome Args
read_arg args leaf_id value =
    let port : Outcome ℕ = (do s ← text (some value); n ← atoi_int s; done (to_u16 n)) in
    if is_leaf leaf_id (codes "tcp-server-name")
    then done (record args { server_name = some value })
    else if is_leaf leaf_id (codes "tcp-server-addr")
    then done (record args { ip_addr = value })
    else if is_leaf leaf_id (codes "tcp-server-port")
    then (do n ← port; done (record args { port_no = n }))
    else if is_leaf leaf_id (codes "remote-addr")
    then done (record args { remote_ip_addr = some value })
    else if is_leaf leaf_id (codes "remote-port")
    then (do n ← port; done (record args { remote_port = n }))
    else aborted

-- TLV_LOOP_BEGIN, with `n` records left.
unfoldable pub read_args : SerBuff → ℕ → ℕ → Args → Outcome Args
read_args ser_buff i zero args = done args
read_args ser_buff i (suc n) args = do
  unit ← tlv_unit ser_buff i
  args' ← read_arg args (leaf_id_of unit) (value_of unit)
  read_args ser_buff (i + 1) n args'

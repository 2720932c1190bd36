-- ===== src/App/Given.antt =====
-- The handler of src/main.cpp on the records of a command, by the leaves that they are the values of.
use tcp_lib_with_command_par.Prelude.{
  bind-done, ℕ, ◌<◌, ◌≡◌, refl, ap, ◌∙◌, pos, Option, none, some, List, [], ◌∷◌, ◌++◌, done, ◌>>=◌,
}
use Prim.Native.String.{String}
use native.Mathlib.Nat.{mod-eq_of_lt}
use tcp_lib_with_command_par.Prelude.CString.{codes, strncmp_eq}
use tcp_lib_with_command_par.SerBuf.{SerBuff}
use tcp_lib_with_command_par.Cli.{OpMode}
use tcp_lib_with_command_par.Tlv.{Tlv}
use tcp_lib_with_command_par.Tlv.Units.{Collected}
use tcp_lib_with_command_par.App.{Net, App, run_command, config_tcp_server_handler}
use tcp_lib_with_command_par.App.Reading.{Args, no_args, is_leaf, read_arg, text, to_u16}
use tcp_lib_with_command_par.App.Atoi.{atoi_int}
use tcp_lib_with_command_par.App.Records.{args_of, code_of, config_tcp_server_handler-records}

-- What a record gives: the value of one of the leaves of the commands.
pub data Given : Type 0 where
  name_given addr_given remote_addr_given : List ℕ → Given
  port_given remote_port_given : ℕ → Given

-- The identifier of the leaf, with its NUL.
abbrev pub Named : Tlv → String → Type 0
Named t id = (rest : List ℕ) × (t.leaf_id ≡ codes id ++ 0 ∷ rest)

-- The value reads as a number of 16 bits.
abbrev pub IsPort : Tlv → ℕ → Type 0
IsPort t n = (code_of t ≡ done (pos n)) × (n < 65536)

abbrev pub Gives : Tlv → Given → Type 0
Gives t (name_given v) = Named t "tcp-server-name" × (t.value ≡ v)
Gives t (addr_given v) = Named t "tcp-server-addr" × (t.value ≡ v)
Gives t (port_given n) = Named t "tcp-server-port" × IsPort t n
Gives t (remote_addr_given v) = Named t "remote-addr" × (t.value ≡ v)
Gives t (remote_port_given n) = Named t "remote-port" × IsPort t n

abbrev pub AllGive : List Tlv → List Given → Type 0
AllGive [] [] = Unit
AllGive [] (g ∷ gs) = ⊥
AllGive (t ∷ ts) [] = ⊥
AllGive (t ∷ ts) (g ∷ gs) = Gives t g × AllGive ts gs

-- The last of what is given that is of some kind, or else the default.
abbrev pub latest {ℓ} : {A : Type ℓ} → (Given → Option A) → A → List Given → A
latest kind default [] = default
latest kind default (g ∷ gs) = latest kind (elim (kind g) [ none ↦ default | some a ↦ a ]) gs

abbrev pub name_in : Given → Option (Option (List ℕ))
name_in (name_given v) = some (some v)
name_in _ = none

abbrev pub addr_in : Given → Option (List ℕ)
addr_in (addr_given v) = some v
addr_in _ = none

abbrev pub port_in : Given → Option ℕ
port_in (port_given n) = some n
port_in _ = none

abbrev pub remote_addr_in : Given → Option (Option (List ℕ))
remote_addr_in (remote_addr_given v) = some (some v)
remote_addr_in _ = none

abbrev pub remote_port_in : Given → Option ℕ
remote_port_in (remote_port_given n) = some n
remote_port_in _ = none

abbrev args_after : Args → List Given → Args
args_after args gs = record {
  server_name = latest name_in args.server_name gs;
  ip_addr = latest addr_in args.ip_addr gs;
  port_no = latest port_in args.port_no gs;
  remote_ip_addr = latest remote_addr_in args.remote_ip_addr gs;
  remote_port = latest remote_port_in args.remote_port gs;
}

-- The arguments of a command: no name, 127.0.0.1, port 40000, no remote address and remote port 0,
-- unless something else is given.
abbrev pub args_from : List Given → Args
args_from gs = record {
  server_name = latest name_in none gs;
  ip_addr = latest addr_in (codes "127.0.0.1" ++ 0 ∷ []) gs;
  port_no = latest port_in 40000 gs;
  remote_ip_addr = latest remote_addr_in none gs;
  remote_port = latest remote_port_in 0 gs;
}

read_port :
    (t : Tlv) (n : ℕ)
    → code_of t ≡ done (pos n)
    → n < 65536
    → (do s ← text (some t.value); k ← atoi_int s; done (to_u16 k)) ≡ done n
read_port t n reads low =
    let (s, e, h) = bind-done (text (some t.value)) atoi_int reads in
    rw (e, h) (ap done (mod-eq_of_lt low))

read_arg-Gives :
    (args : Args) (t : Tlv) (g : Given)
    → Gives t g
    → read_arg args t.leaf_id t.value ≡ done (args_after args (g ∷ []))
unfolding read_arg is_leaf strncmp_eq
read_arg-Gives args t (name_given v) ((rest, e), same) = rw (e, same) refl
read_arg-Gives args t (addr_given v) ((rest, e), same) = rw (e, same) refl
read_arg-Gives args t (remote_addr_given v) ((rest, e), same) = rw (e, same) refl
read_arg-Gives args t (port_given n) ((rest, e), (reads, low)) =
    rw (e, read_port t n reads low) refl
read_arg-Gives args t (remote_port_given n) ((rest, e), (reads, low)) =
    rw (e, read_port t n reads low) refl

args_of-AllGive :
    (ts : List Tlv) (gs : List Given) (args : Args)
    → AllGive ts gs
    → args_of ts args ≡ done (args_after args gs)
args_of-AllGive [] [] args h = refl
args_of-AllGive [] (g ∷ gs) args h = elim h [ ]
args_of-AllGive (t ∷ ts) [] args h = elim h [ ]
args_of-AllGive (t ∷ ts) (g ∷ gs) args h =
    rw (read_arg-Gives args t g h.0) (args_of-AllGive ts gs (args_after args (g ∷ [])) h.1)

-- On a buffer that holds records, of which the last has a command code that is not negative and each
-- other one gives the value of a leaf (a port below 65536), the handler runs that command with the
-- last value given for each argument, and with the default of one that is not given.
pub config_tcp_server_handler-args_from :
    (net : Net) (fresh : ℕ) (app : App) (buf : SerBuff) (ts : List Tlv) (t : Tlv) (mode : OpMode)
    (gs : List Given) (code : ℕ)
    → Collected buf (ts ++ t ∷ [])
    → AllGive ts gs
    → code_of t ≡ done (pos code)
    → config_tcp_server_handler net fresh app buf mode
      ≡ run_command net fresh app code (args_from gs) mode
config_tcp_server_handler-args_from net fresh app buf ts t mode gs code c given reads =
    config_tcp_server_handler-records net fresh app buf ts t mode c
    ∙ rw (reads, args_of-AllGive ts gs no_args given) refl

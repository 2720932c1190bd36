-- ===== src/App/Tests.antt =====
-- The application on concrete servers and buffers, and the theorems on them.
use tcp_lib_with_command_par.Prelude.{
  ℕ, ◌≡◌, refl, pos, negsuc, none, some, List, [], ◌∷◌, ◌++◌, done, arith, ◌==◌, if◌then◌else◌,
  replicate,
}
use tcp_lib_with_command_par.Prelude.CString.{codes, c_str, str_eq, isspace}
use tcp_lib_with_command_par.Prelude.Memory.{splice}
use tcp_lib_with_command_par.SerBuf.{SerBuff, le_bytes}
use tcp_lib_with_command_par.CmdTree.{Leaf, int, string}
use tcp_lib_with_command_par.Cli.{config_enable}
use tcp_lib_with_command_par.StringUtil.{digits_value}
use tcp_lib_with_command_par.Tlv.{tlv_bytes, tlv_of_leaf, prepare_tlv_from_leaf, put_value_in_tlv}
use tcp_lib_with_command_par.Tlv.Units.{Collected, tlv_of_leaf-IsTlv}
use tcp_lib_with_command_par.Server.{Clients, Controller}
use tcp_lib_with_command_par.Server.Reach.{started}
use tcp_lib_with_command_par.App.{
  Net, App, tcp_server_lookup, run_command, config_tcp_server_handler, tcp_server_create,
}
use tcp_lib_with_command_par.App.Reading.{Args, no_args, text}
use tcp_lib_with_command_par.App.Atoi.{atoi_int}
use tcp_lib_with_command_par.App.Registry.{Creates, run_command-Creates}
use tcp_lib_with_command_par.App.Records.{code_of}
use tcp_lib_with_command_par.App.Given.{
  Given, name_given, AllGive, args_from, config_tcp_server_handler-args_from,
}

atoi_int_runs : atoi_int (codes " -42x") ≡ done (negsuc 41)
unfolding atoi_int isspace digits_value
atoi_int_runs = refl

-- One address is known, and the numbers are in the order of the network.
abbrev net : Net
net = record { inet_pton = λ s. some 2130706433; htonl = λ n. n }

abbrev nobody : Clients
nobody p = none

abbrev first : Controller
first = started 2130706433 40000 (codes "a")

-- The server `a`, which runs.
abbrev one_server : App
one_server = record {
  servers = 3 ∷ [];
  objects = λ p. if p == 3 then some first else none;
  clients = nobody;
}

abbrev name_args : List ℕ → Args
name_args name = record no_args { server_name = some (name ++ 0 ∷ []) }

run_command-Creates_example :
    Creates net 4 one_server
      (name_args (codes "b"))
      (codes "b")
      (codes "127.0.0.1")
      (run_command net 4 one_server tcp_server_create (name_args (codes "b")) config_enable)
unfolding text c_str tcp_server_lookup str_eq
run_command-Creates_example =
    run_command-Creates net 4 one_server (name_args (codes "b")) config_enable (codes "b")
      (codes "127.0.0.1") ((first, refl), tt) refl refl refl refl

abbrev name_leaf : Leaf
name_leaf = record {
  leaf_type = string;
  value_holder = codes "b";
  user_validation_cb_fn = none;
  leaf_id = codes "tcp-server-name";
}

abbrev code_leaf : Leaf
code_leaf = record name_leaf {
  leaf_type = int;
  value_holder = codes "1";
  leaf_id = codes "CMDCODE";
}

-- The buffer of `config tcp-server b`.
abbrev create_b : SerBuff
create_b = record {
  b = tlv_bytes (tlv_of_leaf name_leaf) ++ tlv_bytes (tlv_of_leaf code_leaf);
  size = 200;
  next = 200;
  checkpoint = 0;
}

create_b-Collected : Collected create_b ((tlv_of_leaf name_leaf ∷ []) ++ tlv_of_leaf code_leaf ∷ [])
unfolding tlv_bytes le_bytes tlv_of_leaf prepare_tlv_from_leaf put_value_in_tlv splice
create_b-Collected = record {
  valid = record {
    block = refl;
    nonempty = omega arith;
    in_range = omega arith;
    fits = omega arith;
    marked = omega arith;
  };
  all = (tlv_of_leaf-IsTlv name_leaf, (tlv_of_leaf-IsTlv code_leaf, tt));
  held = refl;
}

abbrev given : List Given
given = name_given (tlv_of_leaf name_leaf).value ∷ []

create_b-AllGive : AllGive (tlv_of_leaf name_leaf ∷ []) given
unfolding tlv_of_leaf prepare_tlv_from_leaf put_value_in_tlv splice
create_b-AllGive = (((replicate 16 0, refl), refl), tt)

create_b-code : code_of (tlv_of_leaf code_leaf) ≡ done (pos 1)
unfolding tlv_of_leaf prepare_tlv_from_leaf put_value_in_tlv splice text c_str atoi_int isspace
    digits_value
create_b-code = refl

config_tcp_server_handler-args_from_example :
    config_tcp_server_handler net 4 one_server create_b config_enable
    ≡ run_command net 4 one_server 1 (args_from given) config_enable
config_tcp_server_handler-args_from_example =
    config_tcp_server_handler-args_from net 4 one_server create_b (tlv_of_leaf name_leaf ∷ [])
      (tlv_of_leaf code_leaf) config_enable given 1 create_b-Collected create_b-AllGive
      create_b-code

-- ===== src/Examples/Nodes.antt =====
-- CommandParser/main2.c, main3.c and main4.c: the commands on nodes. The statics of the blocks are
-- numbers after those of the library, handlers and validations are applications 1 and 2.
use tcp_lib_with_command_par.Prelude.{
  ℕ, zero, suc, ◌+◌, ◌-◌, ℤ, pos, negsuc, Option, none, some, List, ◌==◌, if◌then◌else◌, Outcome,
  done, ◌>>=◌,
}
use tcp_lib_with_command_par.Prelude.CString.{codes}
use tcp_lib_with_command_par.SerBuf.{SerBuff}
use tcp_lib_with_command_par.CmdTree.{
  Store, Callback, application, UserValidation, application_validation, string, ipv4, leaf_named,
  set_param_cmd_code, show, config,
}
use tcp_lib_with_command_par.CmdTree.Negation.{support_cmd_negation}
use tcp_lib_with_command_par.CmdTree.Boot.{named, add, add_coded}
use tcp_lib_with_command_par.Tlv.{tlv_unit, tlv_units}
use tcp_lib_with_command_par.App.Reading.{extract_cmd_code, is_leaf, leaf_id_of, value_of, text}

abbrev pub node : ℕ
node = 50

abbrev pub node_name : ℕ
node_name = 51

abbrev pub loopback : ℕ
loopback = 52

abbrev pub loopback_address : ℕ
loopback_address = 53

abbrev pub config_node : ℕ
config_node = 54

abbrev pub config_node_name : ℕ
config_node_name = 55

abbrev pub config_loopback : ℕ
config_loopback = 56

abbrev pub config_loopback_address : ℕ
config_loopback_address = 57

abbrev pub cmdode_show_node : ℕ
cmdode_show_node = 1

abbrev pub cmdode_show_node_loopback : ℕ
cmdode_show_node_loopback = 2

abbrev pub cmdode_config_node_loopback : ℕ
cmdode_config_node_loopback = 3

abbrev pub node_callback : Callback
node_callback = application 1

abbrev pub node_loopback_callback : Callback
node_loopback_callback = application 2

abbrev pub name_validation : Option UserValidation
name_validation = some (application_validation 1)

abbrev pub address_validation : Option UserValidation
address_validation = some (application_validation 2)

-- main2.c. The second code is given to the name of the node.
unfoldable pub main2_commands : ℕ → ℕ → ℤ → Store → Outcome Store
main2_commands fuel no_at choice s0 = do
  s1 ← add show node (named "node") none "Help : node" s0
  s2 ←
      add_coded node node_name (leaf_named string (codes "node-name") name_validation) node_callback
        "Help : Node name" cmdode_show_node s1
  s3 ← add node_name loopback (named "loopback") none "Help : loopback" s2
  s4 ←
      add loopback loopback_address (leaf_named ipv4 (codes "lo-address") address_validation)
        (some node_loopback_callback) "Help : Node's loopback address" s3
  s5 ← set_param_cmd_code s4 node_name cmdode_show_node_loopback
  support_cmd_negation fuel s5 config no_at choice

-- The commands below `show` in main3.c and main4.c, given the handler of `show node <node-name>`.
unfoldable pub show_node_commands : Callback → Store → Outcome Store
show_node_commands callback s0 = do
  s1 ← add show node (named "node") none "Help : node" s0
  s2 ←
      add_coded node node_name (leaf_named string (codes "node_name") name_validation) callback
        "Help : Node name" cmdode_show_node s1
  s3 ← add node_name loopback (named "loopback") none "Help : node" s2
  add_coded loopback loopback_address (leaf_named ipv4 (codes "lo_address") address_validation)
      node_loopback_callback "Help : Node's loopback address" cmdode_show_node_loopback s3

unfoldable pub main3_commands : ℕ → ℕ → ℤ → Store → Outcome Store
main3_commands fuel no_at choice s0 = do
  s1 ← show_node_commands node_loopback_callback s0
  support_cmd_negation fuel s1 config no_at choice

-- The commands below `config` in main4.c.
unfoldable pub config_node_commands : Store → Outcome Store
config_node_commands s0 = do
  s1 ← add config config_node (named "node") none "Help : node" s0
  s2 ←
      add config_node config_node_name (leaf_named string (codes "node_name") name_validation) none
        "Help : Node name" s1
  s3 ← add config_node_name config_loopback (named "loopback") none "Help : node" s2
  add_coded config_loopback config_loopback_address
      (leaf_named ipv4 (codes "lo_address") address_validation) node_loopback_callback
      "Help : Node's loopback address" cmdode_config_node_loopback s3

unfoldable pub main4_commands : ℕ → ℕ → ℤ → Store → Outcome Store
main4_commands fuel no_at choice s0 = do
  s1 ← show_node_commands node_callback s0
  s2 ← config_node_commands s1
  support_cmd_negation fuel s2 config no_at choice

-- The variables of the handler.
pub record NodeArgs : Type 0 where
  pub name : Option (List ℕ)
  pub lo_address : Option (List ℕ)

unfoldable pub read_node_arg : NodeArgs → List ℕ → List ℕ → NodeArgs
read_node_arg args leaf_id value =
    if is_leaf leaf_id (codes "node_name")
    then record args { name = some value }
    else if is_leaf leaf_id (codes "lo_address")
    then record args { lo_address = some value }
    else args

-- TLV_LOOP_BEGIN, with `n` records left.
unfoldable pub read_node_args : SerBuff → ℕ → ℕ → NodeArgs → Outcome NodeArgs
read_node_args tlv_buf i zero args = done args
read_node_args tlv_buf i (suc n) args = do
  unit ← tlv_unit tlv_buf i
  read_node_args tlv_buf (i + 1) n (read_node_arg args (leaf_id_of unit) (value_of unit))

abbrev pub shown_args : NodeArgs → Outcome (Option (List ℕ × List ℕ))
shown_args args = do
  name ← text args.name
  lo_address ← text args.lo_address
  done (some (name, lo_address))

-- The handler of main4.c: the name and the address that it shows, if any.
unfoldable pub node_loopback_callback_handler : SerBuff → Outcome (Option (List ℕ × List ℕ))
node_loopback_callback_handler tlv_buf = do
  cmd_code ← extract_cmd_code tlv_buf
  args ←
      read_node_args tlv_buf 0 (tlv_units tlv_buf - 1) (record { name = none; lo_address = none })
  elim cmd_code [
    | negsuc n ↦ done none
    | pos code ↦
        if code == cmdode_show_node_loopback
        then shown_args args
        else if code == cmdode_config_node_loopback
        then shown_args args
        else done none
  ]

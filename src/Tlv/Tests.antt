-- ===== src/Tlv/Tests.antt =====
-- The theorems on TLV buffers at concrete records.
use mathlib.Core.List.{reverse}
use tcp_lib_with_command_par.Prelude.{
  ℕ, ◌≡◌, refl, true, false, none, [], ◌∷◌, arith, replicate, some, map, negsuc, ◌==◌,
  if◌then◌else◌,
}
use tcp_lib_with_command_par.SerBuf.{SerBuff, le_bytes}
use tcp_lib_with_command_par.CmdTree.{Store, Leaf, int, cmd, leaf, root}
use tcp_lib_with_command_par.Tlv.{
  build_cmd_tree_leaves_data, tlv_bytes, tlv_of_leaf, parser_match_leaf_id, prepare_tlv_from_leaf,
  put_value_in_tlv,
}
use tcp_lib_with_command_par.Prelude.CString.{codes, strncmp_eq}
use tcp_lib_with_command_par.Prelude.Memory.{splice}
use tcp_lib_with_command_par.Tlv.Branch.{Climbs}
use tcp_lib_with_command_par.Tlv.Leaves.{build_cmd_tree_leaves_data-Climbs}
use tcp_lib_with_command_par.Tlv.Reverse.{Arranged}
use tcp_lib_with_command_par.Tlv.Units.{Collected, tlv_of_leaf-IsTlv}

abbrev junk : ℕ → ℕ
junk i = 7

abbrev vlan : Leaf
vlan = record {
  leaf_type = int;
  value_holder = codes "10";
  user_validation_cb_fn = none;
  leaf_id = codes "vlan";
}

abbrev unused : SerBuff
unused = record { b = replicate 40 0; size = 40; next = 0; checkpoint = 0 }

-- A block that one record fills.
abbrev filled : SerBuff
filled = record { b = tlv_bytes (tlv_of_leaf vlan); size = 100; next = 100; checkpoint = 0 }

unused-Collected : Collected unused []
unused-Collected = record {
  valid = record {
    block = refl;
    nonempty = omega arith;
    in_range = omega arith;
    fits = omega arith;
    marked = omega arith;
  };
  all = tt;
  held = refl;
}

filled-Collected : Collected filled (tlv_of_leaf vlan ∷ [])
unfolding tlv_bytes le_bytes tlv_of_leaf prepare_tlv_from_leaf put_value_in_tlv splice
filled-Collected = record {
  valid = record {
    block = refl;
    nonempty = omega arith;
    in_range = omega arith;
    fits = omega arith;
    marked = omega arith;
  };
  all = (tlv_of_leaf-IsTlv vlan, tt);
  held = refl;
}

parser_match_leaf_id_runs : parser_match_leaf_id (codes "vlan") (codes "vlan") ≡ true
unfolding parser_match_leaf_id strncmp_eq
parser_match_leaf_id_runs = refl

abbrev port : Leaf
port = record vlan { leaf_id = codes "port" }

-- The root, the leaf `vlan` below it, and the leaf `port` below that.
abbrev branch : Store
branch p = record {
  kind = if p == 5 then leaf vlan else if p == 6 then leaf port else cmd (codes "root");
  callback = none;
  ishidden = false;
  help = [];
  options = replicate 16 none;
  parent = if p == 5 then some root else if p == 6 then some 5 else none;
  disp_callback = none;
  cmdcode = negsuc 0;
}

branch-Climbs : Climbs branch root 6 2 (port ∷ vlan ∷ [])
branch-Climbs = (
  5,
  vlan ∷ [],
  omega arith,
  refl,
  tt,
  (root, [], omega arith, refl, tt, (refl, refl), refl),
  refl,
)

build_cmd_tree_leaves_data-Climbs_example :
    Arranged
      (reverse (map tlv_of_leaf (port ∷ vlan ∷ [])))
      (build_cmd_tree_leaves_data 4 junk branch filled root 6)
build_cmd_tree_leaves_data-Climbs_example =
    build_cmd_tree_leaves_data-Climbs junk branch filled root 6 2 4 (port ∷ vlan ∷ [])
      filled-Collected.valid branch-Climbs (omega arith) (omega arith)

-- ===== src/Cli/Tests.antt =====
-- The theorems on the console name at concrete trees.
use tcp_lib_with_command_par.Prelude.{
  listed, if◌then◌else◌, ◌==◌, ℕ, ◌-◌, ◌≡◌, refl, false, true, none, some, [], ◌∷◌, ◌++◌, done,
  arith, replicate, negsuc, set,
}
use tcp_lib_with_command_par.Prelude.CString.{codes, c_str, isspace}
use tcp_lib_with_command_par.Prelude.Memory.{splice, memcpy_in}
use tcp_lib_with_command_par.StringUtil.{
  Tokens, blank, tokenizer, get_token, string_space_trim, strtok_all, strtok_from, strtok,
  skip_delim, span_token, tokenizer_loop, store_token, untokenize,
}
use tcp_lib_with_command_par.CmdTree.{Store, cmd, root, Leaf, leaf, int}
use tcp_lib_with_command_par.Tlv.{blank_tlv}
use tcp_lib_with_command_par.Cli.{goto_top_of_cmd_tree, Cli}
use tcp_lib_with_command_par.Cli.Top.{emptied_param, goto_top_of_cmd_tree-Chain}
use tcp_lib_with_command_par.SerBuf.Append.{contents}

-- A chain of commands below the root.
abbrev chain : Store
chain p = record {
  kind = cmd (codes "m");
  callback = none;
  ishidden = false;
  help = [];
  options = replicate 16 none;
  parent = some (p - 1);
  disp_callback = none;
  cmdcode = negsuc 0;
}

abbrev table : Tokens
table = replicate 16 blank

abbrev shell : Cli
shell = record {
  store = chain;
  cursor = root;
  tlv_buff = record { b = replicate 8 0; size = 8; next = 0; checkpoint = 0 };
  console_name = codes "dev>";
  tokens = table;
  command_code_tlv = blank_tlv;
  cmd_recording_enabled = true;
  cons_input_buffer = [];
}

abbrev read_table : Tokens
read_table = set table 0 (codes "dev" ++ replicate 61 0)

abbrev vlan : Leaf
vlan = record {
  leaf_type = int;
  value_holder = codes "10";
  user_validation_cb_fn = none;
  leaf_id = codes "vlan";
}

-- The same chain with a leaf at the second level.
abbrev valued : Store
valued p = record (chain p) { kind = if p == 2 then leaf vlan else cmd (codes "m") }

abbrev in_mode : Cli
in_mode = record shell { store = valued; cursor = 2 }

shell-read : tokenizer table (codes "dev>") 62 ≡ done (read_table, 1)
unfolding tokenizer string_space_trim isspace strtok_all strtok_from strtok skip_delim span_token
    tokenizer_loop store_token untokenize memcpy_in splice
shell-read = refl

goto_top_of_cmd_tree-Chain_example :
    (after : Cli) × (goto_top_of_cmd_tree 5 in_mode 2 ≡ done after)
    × (after.cursor ≡ root)
    × (contents after.tlv_buff ≡ [])
    × (after.console_name ≡ codes "dev>")
    × ((i : ℕ)
        → after.store i ≡ (if listed i (2 ∷ 1 ∷ []) then emptied_param (valued i) else valued i))
unfolding get_token c_str
goto_top_of_cmd_tree-Chain_example =
    goto_top_of_cmd_tree-Chain in_mode 2 (1 ∷ []) 5 0 read_table (codes "dev") (omega arith)
      (tt, refl, omega arith, (tt, refl)) (omega arith) shell-read refl

-- The record of the leaf is in the TLV buffer.
abbrev in_leaf : Cli
in_leaf = record in_mode {
  tlv_buff = record { b = replicate 128 1; size = 128; next = 100; checkpoint = 100 };
}

-- ===== src/Cli/Handlers.antt =====
-- CommandParser/clistd.c: the validation of leaf values and the handlers that act on the cursor, the
-- console name and the TLV buffer.
use tcp_lib_with_command_par.Prelude.{
  ℕ, zero, suc, ◌+◌, ℤ, Bool, true, false, ◌||◌, Option, none, some, List, [], ◌∷◌, ◌++◌, Outcome,
  done, undefined, out_of_fuel, ◌>>=◌, ◌==◌, if◌then◌else◌, length, drop,
}
use tcp_lib_with_command_par.Prelude.CString.{codes, strncmp_eq}
use tcp_lib_with_command_par.Prelude.Memory.{splice}
use tcp_lib_with_command_par.SerBuf.{mark_checkpoint_serialize_buffer}
use tcp_lib_with_command_par.StringUtil.{
  Tokens, tokenize, untokenize, re_init_tokens, max_cmd_tree_depth,
}
use tcp_lib_with_command_par.CmdTree.{
  Store, Callback, LeafType, int, string, ipv4, float, ipv6, boolean, invalid, leaf_max, Kind, cmd,
  leaf, no_cmd, UserValidation, enable_disable_validation_handler, grep_pattern_validation,
  application_validation, root, show_brief_extension, children_start_index,
}
use tcp_lib_with_command_par.Tlv.{Tlv, blank_tlv, collect_tlv, put_value_in_tlv, leaf_code}
use tcp_lib_with_command_par.Cli.{
  Cli, OpMode, set_cmd_tree_cursor, build_mode_console_name, go_one_level_up_cmd_tree,
  goto_top_of_cmd_tree,
}

-- What the handlers are given from outside: memory that is not cleared, the depth of the tree, the
-- callbacks of parameters, and the functions of the application.
pub record Env : Type 0 where
  pub junk : ℕ → ℕ
  pub fuel : ℕ
  pub invoke : Callback → ℕ → OpMode → Cli → Outcome Cli
  pub display : ℕ → ℕ → Cli → Outcome Cli
  pub validate : ℕ → List ℕ → Bool
  pub choices : ℕ → ℤ
  pub discarded : ℕ → Option (List ℕ)

unfoldable pub boolean_validation_handler : List ℕ → Bool
boolean_validation_handler value =
    strncmp_eq value (codes "true") 4 || strncmp_eq value (codes "false") 5

-- `leaf_handler_array[type](leaf, value) == VALIDATION_SUCCESS`; two of the types have no handler.
unfoldable pub leaf_validation : LeafType → List ℕ → Outcome Bool
leaf_validation int value = done true
leaf_validation string value = done true
leaf_validation ipv4 value = done true
leaf_validation ipv6 value = done true
leaf_validation float value = done true
leaf_validation boolean value = done (boolean_validation_handler value)
leaf_validation invalid value = undefined
leaf_validation leaf_max value = undefined

unfoldable pub grep_pattern_loop : List ℕ → Bool
grep_pattern_loop [] = true
grep_pattern_loop (c ∷ s) = if c == 32 then false else grep_pattern_loop s

-- `INVOKE_LEAF_USER_VALIDATION_CALLBACK(param, value) == VALIDATION_SUCCESS`
unfoldable pub user_validation : Env → Option UserValidation → List ℕ → Bool
user_validation env none value = true
user_validation env (some enable_disable_validation_handler) value =
    strncmp_eq value (codes "enable") 6 || strncmp_eq value (codes "disable") 7
user_validation env (some grep_pattern_validation) value = grep_pattern_loop value
user_validation env (some (application_validation f)) value = env.validate f value

-- `INVOKE_APPLICATION_CALLBACK_HANDLER(param, tlv_buff, enable_or_disable)`
unfoldable pub call_handler : Env → Cli → ℕ → OpMode → Outcome Cli
call_handler env cli p mode = elim (cli.store p).callback [
  | none ↦ undefined
  | some callback ↦ env.invoke callback p mode cli
]

unfoldable pub has_callback : Store → ℕ → Bool
has_callback store p = elim (store p).callback [ none ↦ false | some callback ↦ true ]

unfoldable pub mode_enter : Env → Cli → ℕ → OpMode → Outcome Cli
mode_enter env cli p mode = if p == root then done cli else (do
  moved ← set_cmd_tree_cursor cli (some p)
  named ← build_mode_console_name moved p
  if has_callback named.store p then call_handler env named p mode else done named)

-- The effect of `display_sub_options_callback` behind its output.
unfoldable pub display_sub_options : Env → Cli → ℕ → Outcome Cli
display_sub_options env cli p = elim (cli.store p).disp_callback [
  | none ↦ done cli
  | some callback ↦ do
    buf ← collect_tlv env.junk cli.tlv_buff blank_tlv
    env.display callback p (record cli { tlv_buff = buf })
]

-- The token of a parameter in the table, at its depth.
unfoldable pub dump_token : Tokens → Kind → ℕ → Outcome Tokens
dump_token tokens (cmd name) index = do
  cleared ← untokenize tokens index
  tokenize cleared name (length name) index
dump_token tokens (leaf l) index = do
  cleared ← untokenize tokens index
  tokenize cleared (codes "<" ++ (l.leaf_id ++ codes ">")) (length l.leaf_id + 2) index
dump_token tokens (no_cmd name) index = done tokens

-- `dump_all_commands` on the slots of a parameter, given what it does to a child.
abbrev dump_options : (Tokens → ℕ → Outcome Tokens) → Tokens → List (Option ℕ) → Outcome Tokens
dump_options dump tokens [] = done tokens
dump_options dump tokens (none ∷ rest) = dump_options dump tokens rest
dump_options dump tokens (some p ∷ rest) = do dumped ← dump tokens p; dump_options dump dumped rest

unfoldable pub dump_all_commands : ℕ → Store → Tokens → ℕ → ℕ → Outcome Tokens
dump_all_commands zero store tokens p index = out_of_fuel
dump_all_commands (suc fuel) store tokens p index =
    let below : Tokens → ℕ → Outcome Tokens = λ t q. dump_all_commands fuel store t q (index + 1) in
    let rest : Outcome Tokens = (do
      stored ← dump_token tokens (store p).kind index
      dump_options below stored (drop children_start_index (store p).options)) in
    elim (store p).kind [ no_cmd name ↦ done tokens | cmd name ↦ rest | leaf l ↦ rest ]

unfoldable pub display_cmd_expansion : Env → Cli → ℕ → Outcome Cli
display_cmd_expansion env cli p = do
  dumped ← dump_all_commands env.fuel cli.store (re_init_tokens cli.tokens max_cmd_tree_depth) p 0
  done (record cli { tokens = dumped })

unfoldable pub exit_cmd : Env → Cli → Outcome Cli
exit_cmd env cli = go_one_level_up_cmd_tree env.junk cli cli.cursor

unfoldable pub end_cmd : Env → Cli → Outcome Cli
end_cmd env cli = goto_top_of_cmd_tree env.fuel cli cli.cursor

unfoldable pub config_mode_enter : Cli → ℕ → Outcome Cli
config_mode_enter cli p = do
  moved ← set_cmd_tree_cursor cli (some p)
  named ← build_mode_console_name moved p
  done (record named { tlv_buff = mark_checkpoint_serialize_buffer named.tlv_buff })

-- `strncpy(tlv.leaf_id, "SHOW_EXTENSIONS", strlen("SHOW_EXTENSION_PARAM"))` copies 15 bytes and
-- five zeros.
unfoldable pub show_extension_tlv : Tlv
show_extension_tlv = record (put_value_in_tlv blank_tlv (codes "SHOW_BRIEF")) {
  leaf_type = leaf_code invalid;
  leaf_id = splice blank_tlv.leaf_id 0 (codes "SHOW_EXTENSIONS");
}

unfoldable pub show_extension_param : Env → Cli → ℕ → Outcome Cli
show_extension_param env cli p =
    if p == show_brief_extension
    then (do
      buf ← collect_tlv env.junk cli.tlv_buff show_extension_tlv
      done (record cli { tlv_buff = buf }))
    else done cli

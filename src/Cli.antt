-- ===== src/Cli.antt =====
-- The state that cmd_hier.c, clistd.c and parser.c share, the cursor in the command tree, and the
-- console name: CommandParser/cmd_hier.c.
pub mod Handlers
pub mod Console
mod Top
mod Up
mod Tests
use tcp_lib_with_command_par.Prelude.{
  ℕ, zero, suc, Bool, negsuc, Option, none, some, List, [], ◌∷◌, ◌++◌, Outcome, done, aborted,
  undefined, out_of_fuel, ◌>>=◌, ltb, ◌==◌, if◌then◌else◌, length,
}
use tcp_lib_with_command_par.Prelude.CString.{codes}
use tcp_lib_with_command_par.SerBuf.{
  SerBuff, reset_serialize_buffer, mark_checkpoint_serialize_buffer, serialize_buffer_skip,
}
use tcp_lib_with_command_par.StringUtil.{
  Tokens, tokenizer, get_token, string_space_trim, max_cmd_tree_depth,
}
use tcp_lib_with_command_par.CmdTree.{
  Store, Kind, LeafType, int, string, ipv4, float, ipv6, boolean, invalid, leaf_max, cmd, leaf,
  no_cmd, write, root,
}
use tcp_lib_with_command_par.Tlv.{Tlv}

-- `op_mode`
pub data OpMode : Type 0 where
  config_disable config_enable operational mode_unknown : OpMode

-- The globals `cmd_tree_cursor`, `tlv_buff`, `console_name`, `tokens`, `command_code_tlv`,
-- `cmd_recording_enabled`, and the parameters.
pub record Cli : Type 0 where
  pub store : Store
  pub cursor : ℕ
  pub tlv_buff : SerBuff
  pub console_name : List ℕ
  pub tokens : Tokens
  pub command_code_tlv : Tlv
  pub cmd_recording_enabled : Bool
  pub cons_input_buffer : List ℕ

unfoldable pub reset_cmd_tree_cursor : Cli → Cli
reset_cmd_tree_cursor cli = record cli {
  cursor = root;
  tlv_buff = reset_serialize_buffer cli.tlv_buff;
}

unfoldable pub set_cmd_tree_cursor : Cli → Option ℕ → Outcome Cli
set_cmd_tree_cursor cli none = aborted
set_cmd_tree_cursor cli (some p) = done (record cli { cursor = p })

unfoldable pub get_str_leaf_type : LeafType → List ℕ
get_str_leaf_type int = codes "INT"
get_str_leaf_type string = codes "STRING"
get_str_leaf_type ipv4 = codes "IPV4"
get_str_leaf_type float = codes "FLOAT"
get_str_leaf_type ipv6 = codes "IPV6"
get_str_leaf_type boolean = codes "BOOLEAN"
get_str_leaf_type leaf_max = codes "LEAF_MAX"
get_str_leaf_type invalid = codes "Unknown"

-- `tokens = tokenizer(console_name, '>', &token_cnt); sprintf(console_name, .., tokens[0])` with
-- what follows the name. Without a token `tokens` is NULL.
unfoldable pub name_console : Cli → List ℕ → Outcome Cli
name_console cli suffix = do
  table ← tokenizer cli.tokens cli.console_name 62
  name ← (if table.1 == 0 then undefined else get_token table.0 0)
  done (record cli { tokens = table.0; console_name = name ++ suffix })

-- What stands behind the device name: the second token, trimmed.
abbrev pub device_suffix : Tokens → ℕ → Outcome (List ℕ)
device_suffix tokens token_cnt =
    if ltb 1 token_cnt
    then (do mode ← get_token tokens 1; done (codes "> " ++ string_space_trim mode))
    else done (codes ">")

unfoldable pub set_device_name : Cli → List ℕ → Outcome Cli
set_device_name cli cons_name = do
  table ←
      (if 0 == length cli.console_name
        then done (cli.tokens, 0)
        else tokenizer cli.tokens cli.console_name 62)
  suffix ← device_suffix table.0 table.1
  done (record cli { tokens = table.0; console_name = cons_name ++ suffix })

-- The string of a row of `cmd_names`. A negation is read as a leaf, through the wrong member of the
-- union.
unfoldable pub console_part : Kind → Outcome (List ℕ)
console_part (cmd name) = done name
console_part (leaf l) = done l.value_holder
console_part (no_cmd name) = undefined

-- The rows of `cmd_names` from a child of the root down to the rows `below`; the assertion fails
-- when no row is left.
unfoldable pub mode_names : ℕ → Store → ℕ → List (List ℕ) → Outcome (List (List ℕ))
mode_names zero store p below = aborted
mode_names (suc rows) store p below = do
  name ← console_part (store p).kind
  elim (store p).parent [
    | none ↦ undefined
    | some q ↦
        let above = mode_names rows store q (name ∷ below) in
        if q == root then done (name ∷ below) else above
  ]

-- The rows with dashes between them.
unfoldable pub dashed : List (List ℕ) → List ℕ
dashed [] = []
dashed (name ∷ []) = name
dashed (name ∷ next ∷ rest) = name ++ (codes "-" ++ dashed (next ∷ rest))

unfoldable pub build_mode_console_name : Cli → ℕ → Outcome Cli
build_mode_console_name cli dst = if dst == root then aborted else (do
  named ← name_console cli (codes "> ")
  names ← mode_names max_cmd_tree_depth cli.store dst []
  done (record named { console_name = named.console_name ++ dashed names }))

-- `memset(value, 0, LEAF_VALUE_HOLDER_SIZE)` at what is not a command.
unfoldable pub clear_value : Store → ℕ → Outcome Store
clear_value store p = elim (store p).kind [
  | cmd name ↦ done store
  | no_cmd name ↦ undefined
  | leaf l ↦
      done (write store p (record (store p) { kind = leaf (record l { value_holder = [] }) }))
]

-- The loop of `goto_top_of_cmd_tree` up to the root.
unfoldable pub clear_values : ℕ → Store → ℕ → Outcome Store
clear_values zero store p = out_of_fuel
clear_values (suc fuel) store p = do
  cleared ← clear_value store p
  elim (store p).parent [
    | none ↦ undefined
    | some q ↦ let above = clear_values fuel cleared q in if q == root then done cleared else above
  ]

unfoldable pub goto_top_of_cmd_tree : ℕ → Cli → ℕ → Outcome Cli
goto_top_of_cmd_tree fuel cli p = if p == root then done cli else (do
  cleared ← clear_values fuel cli.store p
  name_console (reset_cmd_tree_cursor (record cli { store = cleared })) (codes ">"))

-- The part of `go_one_level_up_cmd_tree` for a leaf: its value and its record go.
unfoldable pub leave_leaf : (ℕ → ℕ) → Cli → ℕ → Outcome Cli
leave_leaf junk cli p = elim (cli.store p).kind [
  | cmd name ↦ done cli
  | no_cmd name ↦ done cli
  | leaf l ↦ do
    cleared ← clear_value cli.store p
    rewound ← serialize_buffer_skip junk cli.tlv_buff (negsuc 99)
    done (record cli { store = cleared; tlv_buff = mark_checkpoint_serialize_buffer rewound })
]

unfoldable pub go_one_level_up_cmd_tree : (ℕ → ℕ) → Cli → ℕ → Outcome Cli
go_one_level_up_cmd_tree junk cli p = if p == root then done cli else (do
  left ← leave_leaf junk cli p
  up ← set_cmd_tree_cursor left (left.store p).parent
  if up.cursor == root
      then (do
        named ← name_console up (codes ">")
        done (record named { tlv_buff = reset_serialize_buffer named.tlv_buff }))
      else build_mode_console_name up up.cursor)

-- ===== src/Parser.antt =====
-- CommandParser/parser.c: the walk of a line's tokens along the command tree, the dispatch of a
-- command that was recognised. `find_matching_param` is in CmdTree.
pub mod Keeps
pub mod Line
mod Prompt
pub mod Rejection
pub mod Settle
mod RootMode
mod Tests
use tcp_lib_with_command_par.Prelude.{
  ℕ, zero, suc, ◌+◌, ◌-◌, ◌/◌, ◌%◌, ℤ, pos, negsuc, Bool, true, false, ◌||◌, Option, none, some,
  List, [], ◌∷◌, ◌++◌, Outcome, done, aborted, undefined, ◌>>=◌, ◌==◌, ltb, if◌then◌else◌, length,
  replicate,
}
use tcp_lib_with_command_par.Prelude.CString.{codes}
use tcp_lib_with_command_par.SerBuf.{mark_checkpoint_serialize_buffer}
use tcp_lib_with_command_par.StringUtil.{re_init_tokens, max_cmd_tree_depth}
use tcp_lib_with_command_par.CmdTree.{
  Leaf, cmd, leaf, no_cmd, write, root, config, repeat, show_brief_extension, mode_param,
  suboptions_param, cmd_expansion_param, get_current_branch_hook,
}
use tcp_lib_with_command_par.CmdTree.Find.{find_matching_param}
use tcp_lib_with_command_par.Tlv.{
  blank_tlv, collect_tlv, prepare_tlv_from_leaf, put_value_in_tlv, value_size,
}
use tcp_lib_with_command_par.Cli.{
  Cli, OpMode, config_disable, config_enable, operational, mode_unknown, set_cmd_tree_cursor,
  build_mode_console_name,
}
use tcp_lib_with_command_par.Cli.Handlers.{
  Env, leaf_validation, user_validation, call_handler, has_callback, mode_enter,
  display_sub_options, display_cmd_expansion,
}

-- `CMD_PARSE_STATUS`
pub data Status : Type 0 where
  complete error invalid_leaf user_invalid_leaf cmd_not_found incomplete_command : Status
  multiple_matching_commands unknown : Status

-- The locals of `build_tlv_buffer`.
pub record Walk : Type 0 where
  pub cli : Cli
  pub parent : Option ℕ
  pub param : Option ℕ
  pub status : Status
  pub mode : OpMode

-- The collection of a leaf: the value goes to the leaf, if its buffer holds it and the NUL, and the
-- record to the TLV buffer.
unfoldable pub collect_leaf : Env → Cli → ℕ → Leaf → List ℕ → Outcome Cli
collect_leaf env cli p l token =
    if ltb (length token) value_size
    then (do
      buf ←
          collect_tlv env.junk cli.tlv_buff
            (put_value_in_tlv (prepare_tlv_from_leaf l blank_tlv) token)
      done (record cli {
        store =
            write cli.store p
              (record (cli.store p) { kind = leaf (record l { value_holder = token }) });
        tlv_buff = buf;
      }))
    else undefined

-- What becomes of a token at a leaf: its status and, when it is valid, the new state.
unfoldable pub check_leaf : Env → Cli → ℕ → Leaf → List ℕ → Outcome (Cli × Status)
check_leaf env cli p l token = do
  valid ← leaf_validation l.leaf_type token
  if valid
      then (if user_validation env l.user_validation_cb_fn token
          then (do collected ← collect_leaf env cli p l token; done (collected, complete))
          else done (cli, user_invalid_leaf))
      else done (cli, invalid_leaf)

-- The line that `find_matching_param` reads for a token, if it asks, is left in `cons_input_buffer`;
-- at the end of the input `fgets` leaves it as it is.
abbrev pub discard_line : Env → ℕ → Bool → Cli → Cli
discard_line env i asked cli = record cli {
  cons_input_buffer = elim (if asked then env.discarded i else none) [
    | none ↦ cli.cons_input_buffer
    | some line ↦ line
  ];
}

abbrev pub is_complete : Status → Bool
is_complete complete = true
is_complete s = false

-- The loop of `build_tlv_buffer` from token `i` on, at the parameter `p`.
unfoldable pub walk_tokens : Env → ℕ → List (List ℕ) → Cli → Option ℕ → ℕ → OpMode → Outcome Walk
walk_tokens env i [] cli parent p mode =
    done (record { cli = cli; parent = parent; param = some p; status = complete; mode = mode })
walk_tokens env i (token ∷ rest) cli parent p mode = do
  found ← find_matching_param cli.store (cli.store p).options token (env.choices i)
  let read : Cli = discard_line env i found.1 cli in
      elim found.0 [
        | none ↦ done (record {
          cli = read;
          parent = some p;
          param = none;
          status = cmd_not_found;
          mode = mode;
        })
        | some q ↦ elim (cli.store q).kind [
          | cmd name ↦ walk_tokens env (i + 1) rest read (some p) q mode
          | no_cmd name ↦ walk_tokens env (i + 1) rest read (some p) q config_disable
          | leaf l ↦ do
            checked ← check_leaf env read q l token
            let on = walk_tokens env (i + 1) rest checked.0 (some p) q mode in
                if is_complete checked.1
                then on
                else done (record {
                  cli = checked.0;
                  parent = some p;
                  param = some q;
                  status = checked.1;
                  mode = mode;
                })
        ]
      ]

unfoldable pub decimal_digits : ℕ → ℕ → List ℕ → List ℕ
decimal_digits zero n below = below
decimal_digits (suc fuel) n below =
    let digits = (48 + n % 10) ∷ below in
    let above = decimal_digits fuel (n / 10) digits in if ltb n 10 then digits else above

-- `sprintf(value, "%d", code)`; an `int` has at most ten digits.
unfoldable pub decimal : ℤ → List ℕ
decimal (pos n) = decimal_digits 10 n []
decimal (negsuc n) = codes "-" ++ decimal_digits 10 (n + 1) []

-- The command code of a parameter in `command_code_tlv`.
unfoldable pub set_command_code : Cli → ℕ → Cli
set_command_code cli p = record cli {
  command_code_tlv =
      put_value_in_tlv (record cli.command_code_tlv { value = replicate value_size 0 })
        (decimal (cli.store p).cmdcode);
}

unfoldable pub collect_command_code : Env → Cli → Outcome Cli
collect_command_code env cli = do
  buf ← collect_tlv env.junk cli.tlv_buff cli.command_code_tlv
  done (record cli { tlv_buff = buf })

-- The mode for a command below the child `hook` of the root.
unfoldable pub mode_below : ℕ → OpMode → OpMode
mode_below hook mode =
    if hook == config
    then elim mode [ config_disable ↦ config_disable | _ ↦ config_enable ]
    else operational

-- The case of the extension `brief` of `parent`.
unfoldable pub run_show_extension : Env → Cli → ℕ → Outcome (Cli × Status)
run_show_extension env cli parent =
    if has_callback cli.store parent
    then (do
      extended ← call_handler env cli show_brief_extension operational
      coded ← collect_command_code env (set_command_code extended parent)
      handled ← call_handler env coded parent operational
      done (handled, complete))
    else done (cli, incomplete_command)

unfoldable pub run_suboptions : Env → Cli → ℕ → Outcome Cli
run_suboptions env cli parent =
    let coded = set_command_code cli parent in
    do
      displayed ←
          display_sub_options env
            (record coded { tlv_buff = mark_checkpoint_serialize_buffer coded.tlv_buff }) parent
      moved ← set_cmd_tree_cursor displayed (some parent)
      if parent == root then done moved else build_mode_console_name moved parent

unfoldable pub run_mode : Env → Cli → ℕ → OpMode → Outcome Cli
run_mode env cli parent mode = do
  hook ← get_current_branch_hook env.fuel cli.store parent
  let coded = set_command_code cli parent in
      do
        collected ←
            collect_command_code env
              (record coded { tlv_buff = mark_checkpoint_serialize_buffer coded.tlv_buff })
        mode_enter env collected parent (mode_below hook mode)

unfoldable pub run_command : Env → Cli → ℕ → OpMode → Outcome Cli
run_command env cli p mode = do
  hook ← get_current_branch_hook env.fuel cli.store p
  coded ←
      (if hook == repeat || p == config
        then done cli
        else collect_command_code env (set_command_code cli p))
  call_handler env coded p (mode_below hook mode)

abbrev pub completed : Outcome Cli → Outcome (Cli × Status)
completed out = do cli ← out; done (cli, complete)

-- `parent` is NULL before the first token, and most of its uses dereference it.
abbrev with_parent :
    Option ℕ → Outcome (Cli × Status) → (ℕ → Outcome (Cli × Status)) → Outcome (Cli × Status)
with_parent none missing run = missing
with_parent (some p) missing run = run p

-- The case COMPLETE of the switch.
unfoldable pub dispatch : Env → Cli → Option ℕ → ℕ → OpMode → Outcome (Cli × Status)
dispatch env cli parent p mode =
    if p == show_brief_extension
    then with_parent parent undefined (λ above. run_show_extension env cli above)
    else if p == suboptions_param
    then with_parent parent undefined (λ above. completed (run_suboptions env cli above))
    else if p == mode_param
    then with_parent parent aborted (λ above. completed (run_mode env cli above mode))
    else if p == cmd_expansion_param
    then with_parent parent
        (done (record cli { tokens = re_init_tokens cli.tokens max_cmd_tree_depth }, complete))
        (λ above. completed (display_cmd_expansion env cli above))
    else completed (run_command env cli p mode)

-- What follows the loop.
unfoldable pub finish_walk : Env → Walk → Outcome (Cli × Status)
finish_walk env w = elim w.status [
  | complete ↦ elim w.param [
    | none ↦ undefined
    | some p ↦
        if has_callback w.cli.store p
        then dispatch env w.cli w.parent p w.mode
        else done (w.cli, incomplete_command)
  ]
  | _ ↦ done (w.cli, w.status)
]

unfoldable pub build_tlv_buffer : Env → Cli → List (List ℕ) → Outcome (Cli × Status)
build_tlv_buffer env cli tokens = do
  w ← walk_tokens env 0 tokens cli none cli.cursor mode_unknown
  finish_walk env w

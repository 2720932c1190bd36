-- ===== src/Parser/Prompt.antt =====
-- The loop of CommandParser/parser.c that reads lines from the terminal, and the handlers of
-- CommandParser/clistd.c that process a line again.
use tcp_lib_with_command_par.Prelude.{
  ℕ, zero, suc, ◌+◌, ◌-◌, ℤ, pos, negsuc, Bool, true, false, not, ◌&&◌, Option, none, some, List,
  [], ◌∷◌, ◌++◌, Outcome, done, undefined, ◌>>=◌, ◌==◌, ltb, if◌then◌else◌, length, take, drop,
  get_or,
}
use tcp_lib_with_command_par.Prelude.CString.{codes, c_str, strncmp_eq}
use tcp_lib_with_command_par.SerBuf.{SerBuff}
use tcp_lib_with_command_par.CmdTree.{root}
use tcp_lib_with_command_par.Tlv.{tlv_unit, tlv_units, leaf_id_size}
use tcp_lib_with_command_par.Cli.{Cli, OpMode, config_enable, set_device_name}
use tcp_lib_with_command_par.Cli.Handlers.{Env}
use tcp_lib_with_command_par.Parser.{Status, complete}
use tcp_lib_with_command_par.Parser.Line.{Outside, tokenize_line, parse_input_cmd, begins}

-- The state of the loop: the command line, `last_command_input_buffer`, the lines written to the
-- history file, and the `cmd_counter` of `record_command`.
pub record Prompt : Type 0 where
  pub cli : Cli
  pub last_command : List ℕ
  pub history : List (List ℕ)
  pub cmd_counter : ℕ

abbrev pub max_saved_cmds : ℕ
max_saved_cmds = 30

unfoldable pub record_command : Prompt → List ℕ → Prompt
record_command prompt line =
    if prompt.cmd_counter == max_saved_cmds then prompt else record prompt {
      history = prompt.history ++ line ∷ [];
      cmd_counter = prompt.cmd_counter + 1;
    }

-- Whether `parse_input_cmd` sets `*is_repeat_cmd`.
unfoldable pub is_repeat_cmd : Cli → List ℕ → Outcome Bool
is_repeat_cmd cli input = do
  read ← tokenize_line cli input
  elim read.1 [
    | [] ↦ done false
    | first ∷ rest ↦ done (
        not (not (length rest == 0) && begins first "do" 2 && not (cli.cursor == root))
        && strncmp_eq first (codes "repeat") (length first))
  ]

abbrev pub is_complete : Status → Bool
is_complete complete = true
is_complete _ = false

-- What follows `parse_input_cmd` for a line that is no repetition, with what `cons_input_buffer` then
-- holds.
unfoldable pub remember : Prompt → List ℕ → Cli → Status → Prompt
remember prompt input cli status =
    let recorded =
      if is_complete status && cli.cmd_recording_enabled
      then record_command prompt input
      else prompt in
    record recorded {
      cli = record cli { cmd_recording_enabled = true; cons_input_buffer = [] };
      last_command = input;
    }

-- A round of the loop for a string that `fgets` reads; the byte before an empty one is written.
unfoldable pub prompt_line : Env → Outside → Prompt → List ℕ → Outcome Prompt
prompt_line env outside prompt line =
    let input = take (length line - 1) line in
    let typed : Cli = record prompt.cli { cons_input_buffer = input } in
    let cleared : Cli = record prompt.cli { cons_input_buffer = [] } in
    if length line == 0
    then undefined
    else if length line == 1
    then done (record prompt { cli = cleared })
    else (do
      repeats ← is_repeat_cmd typed input
      ran ← parse_input_cmd env outside typed input
      done (
          if repeats
          then record prompt { cli = record ran.0 { cons_input_buffer = [] } }
          else remember prompt ran.0.cons_input_buffer ran.0 ran.1))

-- `command_parser` on the strings that `fgets` reads until the input ends, which ends the program.
unfoldable pub command_parser : Env → Outside → Prompt → List (List ℕ) → Outcome Prompt
command_parser env outside prompt [] = done prompt
command_parser env outside prompt (line ∷ rest) = do
  next ← prompt_line env outside prompt line
  command_parser env outside next rest

unfoldable pub repeat_last : Env → Outside → Prompt → Cli → Outcome Cli
repeat_last env outside prompt cli = do
  ran ← parse_input_cmd env outside cli prompt.last_command
  done ran.0

-- `show_history_callback` on the strings that `fgets` reads from the history file, if there is one;
-- `choice` is the number that `scanf` reads. The offset behind every string is stored.
unfoldable pub replay_history : Env → Outside → Option (List (List ℕ)) → ℤ → Cli → Outcome Cli
replay_history env outside none choice cli = done cli
replay_history env outside (some lines) choice cli =
    if ltb max_saved_cmds (length lines + 1) then undefined else elim choice [
      | negsuc n ↦ done cli
      | pos n ↦
          if ltb n (length lines + 1)
          then (do ran ← parse_input_cmd env outside cli (get_or lines n []); done ran.0)
          else done cli
    ]

-- The body of the loop of `config_console_name_handler`.
unfoldable pub name_step : OpMode → Cli → List ℕ → Outcome Cli
name_step config_enable cli value = set_device_name cli value
name_step _ cli value =
    if strncmp_eq value cli.console_name (length value)
    then set_device_name cli (codes "tcp_server_project")
    else done cli

unfoldable pub name_loop : OpMode → SerBuff → ℕ → ℕ → Cli → Outcome Cli
name_loop mode b i zero cli = done cli
name_loop mode b i (suc n) cli = do
  unit ← tlv_unit b i
  named ← elim (c_str (drop leaf_id_size (drop 4 unit))) [
    | none ↦ undefined
    | some s ↦ name_step mode cli s
  ]
  name_loop mode b (i + 1) n named

unfoldable pub rename_console : Cli → OpMode → Outcome Cli
rename_console cli mode = elim (tlv_units cli.tlv_buff) [
  | zero ↦ undefined
  | suc last ↦ name_loop mode cli.tlv_buff 0 last cli
]

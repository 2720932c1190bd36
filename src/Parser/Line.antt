-- ===== src/Parser/Line.antt =====
-- CommandParser/parser.c: the processing of a line and of a file of lines.
use tcp_lib_with_command_par.Prelude.{
  ℕ, zero, suc, Bool, false, ◌&&◌, not, Option, none, some, List, [], ◌∷◌, Outcome, done, aborted,
  undefined, ◌>>=◌, ◌==◌, ltb, if◌then◌else◌, length, get_or, drop,
}
use Prim.Native.String.{String}
use tcp_lib_with_command_par.Prelude.CString.{codes, strncmp_eq}
use tcp_lib_with_command_par.SerBuf.{
  mark_checkpoint_serialize_buffer, reset_serialize_buffer, restore_checkpoint_serialize_buffer,
}
use tcp_lib_with_command_par.StringUtil.{
  Tokens, tokenizer, get_token, re_init_tokens, max_cmd_tree_depth,
}
use tcp_lib_with_command_par.CmdTree.{root, do_hook, config, repeat, get_current_branch_hook}
use tcp_lib_with_command_par.Tlv.{build_cmd_tree_leaves_data}
use tcp_lib_with_command_par.Cli.{
  Cli, operational, set_cmd_tree_cursor, go_one_level_up_cmd_tree, goto_top_of_cmd_tree,
}
use tcp_lib_with_command_par.Cli.Handlers.{Env, call_handler}
use tcp_lib_with_command_par.Parser.{
  Status, complete, incomplete_command, build_tlv_buffer, completed,
}

-- The end of a command: `restore_checkpoint_serialize_buffer` in a mode, else
-- `reset_serialize_buffer`.
unfoldable pub settle : Cli → Cli
settle cli = record cli {
  tokens = re_init_tokens cli.tokens max_cmd_tree_depth;
  tlv_buff =
      if cli.cursor == root
      then reset_serialize_buffer cli.tlv_buff
      else restore_checkpoint_serialize_buffer cli.tlv_buff;
}

-- The strings in the first cells of the table.
abbrev token_strings : Tokens → ℕ → Outcome (List (List ℕ))
token_strings table zero = done []
token_strings [] (suc n) = undefined
token_strings (cell ∷ table) (suc n) = do
  token ← get_token (cell ∷ []) 0
  rest ← token_strings table n
  done (token ∷ rest)

-- `tokenizer(line, ' ', &token_cnt)` and the strings of its table.
unfoldable pub tokenize_line : Cli → List ℕ → Outcome (Cli × List (List ℕ))
tokenize_line cli line = do
  table ← tokenizer cli.tokens line 32
  words ← token_strings table.0 table.1
  done (record cli { tokens = table.0 }, words)

-- The loop of `parse_file` over the lines that `fgets` returns.
unfoldable pub parse_lines : Env → Cli → List (List ℕ) → Outcome Cli
parse_lines env cli [] = done cli
parse_lines env cli (line ∷ rest) = do
  read ← tokenize_line cli line
  built ←
      build_tlv_buffer env (record read.0 { tlv_buff = reset_serialize_buffer read.0.tlv_buff })
        read.1
  parse_lines env (settle built.0) rest

-- `parse_file` for a file that has been opened, or not.
unfoldable pub parse_file : Env → Cli → Option (List (List ℕ)) → Outcome Cli
parse_file env cli none = done cli
parse_file env cli (some lines) =
    parse_lines env
      (record cli { cmd_recording_enabled = false; tlv_buff = reset_serialize_buffer cli.tlv_buff })
      lines

-- What a line may need from outside: the lines of a file by its name, and the test runner.
pub record Outside : Type 0 where
  pub file : List ℕ → Option (List (List ℕ))
  pub run_test_case : List ℕ → List ℕ → Cli → Outcome Cli

-- `do ..`, typed below the root, with the other tokens.
unfoldable pub do_command : Env → Cli → List (List ℕ) → Outcome (Cli × Status)
do_command env cli tokens = do
  hook ← get_current_branch_hook env.fuel cli.store cli.cursor
  if hook == config
      then (do
        hooked ← set_cmd_tree_cursor cli (some do_hook)
        built ←
            build_tlv_buffer env
              (record hooked { tlv_buff = reset_serialize_buffer hooked.tlv_buff }) tokens
        if built.0.cursor == do_hook
            then (do
              back ← set_cmd_tree_cursor built.0 (some cli.cursor)
              buf ←
                  build_cmd_tree_leaves_data env.fuel env.junk back.store back.tlv_buff root
                    back.cursor
              done (record back { tlv_buff = mark_checkpoint_serialize_buffer buf }, built.1))
            else (do
              entered ← get_current_branch_hook env.fuel built.0.store built.0.cursor
              if entered == config then aborted else done built))
      else done (cli, complete)

abbrev pub begins : List ℕ → String → ℕ → Bool
begins token word n = strncmp_eq token (codes word) n

-- The chain of tests in `parse_input_cmd` on the first token, the second cell of the table, and all
-- tokens.
unfoldable pub run_line :
    Env → Outside → Cli → List ℕ → List ℕ → List (List ℕ) → Outcome (Cli × Status)
run_line env outside cli first second tokens =
    let token_cnt = length tokens in
    if ltb 1 token_cnt && begins first "do" 2 && not (cli.cursor == root)
    then do_command env cli (drop 1 tokens)
    else if strncmp_eq first (codes "repeat") (length first)
    then completed (call_handler env cli repeat operational)
    else if begins first "cd.." 4 && token_cnt == 1
    then completed (go_one_level_up_cmd_tree env.junk cli cli.cursor)
    else if begins first "cd" 2 && token_cnt == 1
    then completed (goto_top_of_cmd_tree env.fuel cli cli.cursor)
    else if begins first "cls" 3 && token_cnt == 1
    then done (cli, complete)
    else if begins first "run" 3 && begins second "ut" 2 && token_cnt == 4
    then completed (outside.run_test_case (get_or tokens 2 []) (get_or tokens 3 []) cli)
    else if begins first "config" 6 && begins second "load" 4 && token_cnt == 3
    then completed (parse_file env cli (outside.file (get_or tokens 2 [])))
    else build_tlv_buffer env cli tokens

-- The line is processed, or it has no token and nothing happens.
unfoldable pub parse_input_cmd : Env → Outside → Cli → List ℕ → Outcome (Cli × Status)
parse_input_cmd env outside cli input = do
  read ← tokenize_line cli input
  elim read.1 [
    | [] ↦ done (read.0, incomplete_command)
    | first ∷ rest ↦ do
      second ← get_token read.0.tokens 1
      ran ← run_line env outside read.0 first second (first ∷ rest)
      done (settle ran.0, ran.1)
  ]

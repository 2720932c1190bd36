-- ===== src/UtParser/ReportTests.antt =====
-- The theorems on the results of ut_parser.c at concrete commands and patterns.
use tcp_lib_with_command_par.Prelude.{
  ℕ, ◌≡◌, refl, ap, inr, map, Option, none, some, List, [], ◌∷◌, ◌++◌, Outcome, done, undefined,
  replicate, length, arith,
}
use tcp_lib_with_command_par.Prelude.CString.{codes, c_str, strncmp_eq, isspace}
use tcp_lib_with_command_par.StringUtil.{
  tokenizer, tokenizer_loop, string_space_trim, trim_end, skip_spaces, untokenize, store_token,
  get_token, re_init_tokens, pattern_match, strstr, init_token_array, span_token, strtok,
  strtok_all, strtok_from, skip_delim,
}
use tcp_lib_with_command_par.Parser.Line.{parse_input_cmd, tokenize_line, run_line, settle}
use tcp_lib_with_command_par.SerBuf.{
  short_signed, le_bytes, reset_serialize_buffer, serialize_string, serialize_bytes, grow,
}
use tcp_lib_with_command_par.CmdTree.{get_current_branch_hook, branch_hook_loop}
use tcp_lib_with_command_par.CmdTree.Find.{
  find_matching_param, match_loop, choose, asks, is_cmd_string_match,
}
use tcp_lib_with_command_par.Tlv.{collect_tlv, put_value_in_tlv, tlv_bytes}
use tcp_lib_with_command_par.Cli.Handlers.{has_callback, call_handler}
use tcp_lib_with_command_par.Parser.{
  build_tlv_buffer, walk_tokens, finish_walk, dispatch, run_command, set_command_code,
  collect_command_code, mode_below,
}
use tcp_lib_with_command_par.Cli.{Cli}
use tcp_lib_with_command_par.UtParser.{IsGlthread, Host, TcResult}
use tcp_lib_with_command_par.UtParser.Directives.{cmd_token}
use tcp_lib_with_command_par.Prelude.Memory.{memcpy_in, splice}
use tcp_lib_with_command_par.Parser.{Status, decimal, decimal_digits}
use tcp_lib_with_command_par.UtParser.Loop.{reading, run_lines}
use tcp_lib_with_command_par.UtParser.Verdicts.{IsReady}
use tcp_lib_with_command_par.UtParser.Judging.{raw, AllPatterns}
use tcp_lib_with_command_par.UtParser.Report.{Reports, end_line_raw, run_lines-Reports}
use tcp_lib_with_command_par.UtParser.Answers.{IsQueue, Awaits, Accepted}
use tcp_lib_with_command_par.UtParser.Timeout.{cmd_token_overlong}
use tcp_lib_with_command_par.UtParser.ShowCase.{cmd_text, show_case-Reports, silent_case-Reports}
use tcp_lib_with_command_par.UtParser.Checks.{IsPattern}
use tcp_lib_with_command_par.UtParser.Sample.{
  env, at_root, one_message, behind_first, as_list, host, name, in_case, port_up, has_data, checks,
}

as_list-IsGlthread : IsGlthread as_list
as_list-IsGlthread = record {
  empty = refl;
  added = λ l r. refl;
  removed = λ l r rest e. ap behind_first e;
}

one_message-IsQueue : IsQueue one_message none
one_message-IsQueue = record {
  holding = λ m. some m;
  sends = λ m. refl;
  receives = λ m. refl;
  silent = refl;
}

in_case-Awaits : Awaits none 4 in_case
in_case-Awaits = record {
  room = refl;
  in_step = refl;
  tc = 2;
  at_case = refl;
  running = refl;
  quiet = refl;
  sized = refl;
  nothing_sent = refl;
}

has_data-IsReady : IsReady 4 port_up has_data
unfolding c_str
has_data-IsReady = record {
  room = refl;
  shows = inr (omega arith, refl);
  in_step = refl;
  tc = 2;
  at_case = refl;
}

checks-AllPatterns : AllPatterns checks
checks-AllPatterns = (
  record {
    is_text = omega arith;
    no_colon = refl;
    no_newline = refl;
    no_store = refl;
    nonempty = omega arith;
    short = omega arith;
  },
  (
    record {
      is_text = omega arith;
      no_colon = refl;
      no_newline = refl;
      no_store = refl;
      nonempty = omega arith;
      short = omega arith;
    },
    tt,
  ),
)

run_lines-Reports_example :
    Reports host name 2 4 port_up checks
      (run_lines host name 2 reading (map raw checks ++ end_line_raw ∷ []) has_data)
run_lines-Reports_example =
    run_lines-Reports host name 2 4 port_up checks has_data as_list-IsGlthread has_data-IsReady
      checks-AllPatterns (omega arith) refl

abbrev get_cli : Outcome (Cli × Status) → Cli
get_cli (done out) = out.0
get_cli _ = at_root

abbrev shown_cli : Cli
shown_cli = get_cli (parse_input_cmd env host.outside at_root (codes "show"))

abbrev quiet_host : Host (Option (List ℕ)) (List TcResult)
quiet_host = record host { printed = λ cli token. [] }

abbrev wide : List ℕ
wide = codes "show" ++ replicate 80 32

abbrev wide_cli : Cli
wide_cli = get_cli (parse_input_cmd env host.outside at_root wide)

accepted :
    Accepted host in_case (codes "show") ((port_up ++ 0 ∷ [], length port_up) ∷ [])
    × Accepted quiet_host in_case (codes "show") []
    × Accepted quiet_host in_case wide []
unfolding parse_input_cmd tokenize_line run_line settle build_tlv_buffer walk_tokens finish_walk
    dispatch run_command set_command_code collect_command_code mode_below has_callback call_handler
    find_matching_param match_loop choose asks is_cmd_string_match get_current_branch_hook
    branch_hook_loop collect_tlv put_value_in_tlv tlv_bytes serialize_string serialize_bytes grow
    reset_serialize_buffer tokenizer tokenizer_loop string_space_trim trim_end skip_spaces
    strtok_all strtok_from strtok skip_delim span_token untokenize store_token get_token
    re_init_tokens init_token_array strncmp_eq c_str isspace memcpy_in splice decimal decimal_digits
    pattern_match strstr short_signed le_bytes
accepted = (
  record { cli = shown_cli; parsed = refl; calls = refl; is_show = refl },
  record { cli = shown_cli; parsed = refl; calls = refl; is_show = refl },
  record { cli = wide_cli; parsed = refl; calls = refl; is_show = refl },
)

cmd_token_overlong_example : cmd_token quiet_host wide in_case ≡ undefined
cmd_token_overlong_example =
    cmd_token_overlong quiet_host none 4 in_case wide one_message-IsQueue in_case-Awaits accepted.2
      (omega arith)

abbrev show : List ℕ
show = codes "show"

show-IsPattern : IsPattern show
show-IsPattern = record {
  is_text = omega arith;
  no_colon = refl;
  no_newline = refl;
  no_store = refl;
  nonempty = omega arith;
  short = omega arith;
}

show_case-Reports_example : Reports host name 2 4 port_up checks (
    run_lines host name 2 reading
      ((cmd_text show ++ 10 ∷ []) ∷ (map raw checks ++ end_line_raw ∷ []))
      in_case)
show_case-Reports_example =
    show_case-Reports host name 2 none 4 show checks in_case port_up [] as_list-IsGlthread
      one_message-IsQueue in_case-Awaits accepted.0 (omega arith) (omega arith) show-IsPattern
      (omega arith) checks-AllPatterns (omega arith) refl

silent_case-Reports_example : Reports quiet_host name 2 4 [] checks (
    run_lines quiet_host name 2 reading
      ((cmd_text show ++ 10 ∷ []) ∷ (map raw checks ++ end_line_raw ∷ []))
      in_case)
silent_case-Reports_example =
    silent_case-Reports quiet_host name 2 none 4 show checks in_case as_list-IsGlthread
      one_message-IsQueue in_case-Awaits accepted.1 show-IsPattern (omega arith) checks-AllPatterns
      (omega arith) refl

-- ===== src/UtParser/Tests.antt =====
-- The theorems on the runner of ut_parser.c at concrete files of tests.
use tcp_lib_with_command_par.Prelude.{
  ℕ, ◌≡◌, refl, inl, Option, List, [], ◌∷◌, Outcome, done, ◌>>=◌, arith,
}
use tcp_lib_with_command_par.Prelude.CString.{codes, c_str, strncmp_eq, isspace}
use tcp_lib_with_command_par.StringUtil.{
  span_token, strtok, strtok_all, strtok_from, skip_delim, digits_value,
}
use tcp_lib_with_command_par.UtParser.{print, fwrite, TcResult, Run}
use tcp_lib_with_command_par.UtParser.Directives.{
  case_no, second_token, testcase_begin, testcase_end, say,
}
use tcp_lib_with_command_par.App.Atoi.{atoi_int}
use tcp_lib_with_command_par.Prelude.Memory.{memcpy_in, uninit, splice}
use tcp_lib_with_command_par.Parser.{decimal, decimal_digits}
use tcp_lib_with_command_par.StringUtil.Replace.{
  replace_substring, replace_loop, match_run, char_at, strlen,
}
use tcp_lib_with_command_par.UtParser.Loop.{
  reading, skipping, Step, go_on, run_lines, run_test_case, one_line, skip_line, read_line, end_run,
  prepare, substitute, start_run, cut_line, line_block, run_directive, is_directive, run_inner,
  goes_on, begin_line, enter_case, last_run,
}
use tcp_lib_with_command_par.UtParser.Isolated.{Passes, run_test_case-Passes}
use tcp_lib_with_command_par.UtParser.Report.{end_line_raw}
use tcp_lib_with_command_par.UtParser.Sample.{
  at_root, begin_two, body, two_lines, host, fresh, name,
}

abbrev get_step :
    Outcome (Step (Option (List ℕ)) (List TcResult)) → Run (Option (List ℕ)) (List TcResult)
get_step (done st) = last_run st
get_step _ = start_run host fresh at_root

abbrev first : Run (Option (List ℕ)) (List TcResult)
first = get_step (
    run_lines host name 2 reading (codes ":TESTCASE-BEGIN:1\n" ∷ []) (start_run host fresh at_root))

opens :
    run_lines host name 2 reading (codes ":TESTCASE-BEGIN:1\n" ∷ []) (start_run host fresh at_root)
    ≡ done (go_on skipping first)
unfolding run_lines one_line read_line prepare substitute memcpy_in decimal decimal_digits start_run
    uninit replace_substring strlen c_str cut_line splice span_token replace_loop match_run char_at
    line_block run_directive is_directive strncmp_eq begin_line case_no second_token strtok_all
    strtok_from strtok skip_delim atoi_int digits_value isspace enter_case
opens = refl

abbrev inner : Run (Option (List ℕ)) (List TcResult)
inner = get_step (run_lines host name 2 skipping (begin_two ∷ body) first)

runs : run_lines host name 2 skipping (begin_two ∷ body) first ≡ done (go_on reading inner)
unfolding run_lines one_line skip_line read_line prepare substitute memcpy_in decimal decimal_digits
    start_run uninit replace_substring strlen c_str cut_line splice span_token replace_loop
    match_run char_at line_block run_directive is_directive strncmp_eq begin_line case_no
    second_token strtok_all strtok_from strtok skip_delim atoi_int digits_value isspace enter_case
    goes_on testcase_begin print fwrite run_inner say
runs = refl

abbrev get_prepared :
    Outcome (Run (Option (List ℕ)) (List TcResult) × List ℕ) → Run (Option (List ℕ)) (List TcResult)
get_prepared (done out) = out.0
get_prepared _ = start_run host fresh at_root

abbrev last : Run (Option (List ℕ)) (List TcResult)
last = get_prepared (prepare host end_line_raw inner)

prepared : prepare host end_line_raw inner ≡ done (last, codes ":TESTCASE-END:")
unfolding run_lines one_line skip_line read_line prepare substitute memcpy_in decimal decimal_digits
    start_run uninit replace_substring strlen c_str cut_line splice span_token replace_loop
    match_run char_at line_block run_directive is_directive strncmp_eq begin_line case_no
    second_token strtok_all strtok_from strtok skip_delim atoi_int digits_value isspace enter_case
    goes_on testcase_begin print fwrite run_inner say
prepared = refl

two_lines-Passes : Passes host name 2 fresh at_root two_lines last
unfolding is_directive strncmp_eq case_no second_token strtok_all strtok_from strtok skip_delim
    span_token atoi_int digits_value isspace
two_lines-Passes = record {
  opening = codes ":TESTCASE-BEGIN:1\n" ∷ [];
  before = codes ":CMD:bogus\n" ∷ codes ":TESTCASE-END:\n" ∷ [];
  begin = begin_two;
  body = body;
  end = codes "TESTCASE-END:\n";
  after = codes ":CMD:bogus\n" ∷ [];
  first = first;
  inner = inner;
  text = codes ":TESTCASE-END:";
  splits = refl;
  opens = opens;
  others = (inl refl, (inl refl, tt));
  begins = record { begins = refl; numbered = refl };
  runs = runs;
  prepared = prepared;
  begins_none = refl;
  ends = refl;
}

run_test_case-Passes_example :
    run_test_case host fresh at_root name 2 ≡ (do t ← testcase_end host name last; done (end_run t))
run_test_case-Passes_example =
    run_test_case-Passes host name 2 refl fresh at_root two_lines last refl refl (omega arith)
      two_lines-Passes

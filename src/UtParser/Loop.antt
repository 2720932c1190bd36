-- ===== src/UtParser/Loop.antt =====
-- CommandParser/ut/utinfra/ut_parser.c: the loop of `run_test_case`.
use tcp_lib_with_command_par.Prelude.{
  ℕ, ◌+◌, ◌-◌, pos, Bool, true, false, not, ◌&&◌, ◌||◌, none, some, List, [], ◌∷◌, ◌++◌, Outcome,
  done, aborted, ◌>>=◌, ◌==◌, if◌then◌else◌, length,
}
use tcp_lib_with_command_par.Prelude.CString.{codes, c_str, strncmp_eq}
use tcp_lib_with_command_par.Prelude.Memory.{memcpy_in, splice, uninit}
use tcp_lib_with_command_par.StringUtil.{span_token}
use tcp_lib_with_command_par.StringUtil.Replace.{replace_substring}
use tcp_lib_with_command_par.Cli.{Cli}
use tcp_lib_with_command_par.Parser.{decimal}
use tcp_lib_with_command_par.UtParser.{Host, Ut, Run, known, print}
use tcp_lib_with_command_par.UtParser.Directives.{
  case_no, testcase_begin, testcase_end, say, step, sleep, cmd_line, check_pattern, grep_buff,
  store_int1, store_int2, store_int3,
}

-- Where the runner is: at a line of the file, or on the way to the next test case.
pub data Mode : Type 0 where
  reading skipping : Mode

-- What follows a line: the next one, or the end of the loop.
pub data Step (Q L : Type 0) : Type 0 where
  go_on : Mode → Run Q L → Step Q L
  stop : Run Q L → Step Q L

-- `char line[512]` with the string that `fgets` has read, and after `strtok(line, "\n")`.
unfoldable pub line_block : (ℕ → ℕ) → List ℕ → List ℕ
line_block junk line = (line ++ 0 ∷ []) ++ uninit junk 0 (512 - (length line + 1))

unfoldable pub cut_line : (ℕ → ℕ) → List ℕ → List ℕ
cut_line junk line = splice (line_block junk line) (length (span_token 10 line).0) (0 ∷ [])

-- `strncmp(line, name, strlen(name)) == 0`
unfoldable pub is_directive : List ℕ → List ℕ → Bool
is_directive line name = strncmp_eq line name (length name)

abbrev pub begin_name : List ℕ
begin_name = codes ":TESTCASE-BEGIN:"

abbrev pub end_name : List ℕ
end_name = codes ":TESTCASE-END:"

module _ {Q L : Type 0} where
  -- `sprintf(buff, "%lu", store); replaceSubstring(line, name, buff);`
  unfoldable pub substitute : ℕ → List ℕ → Run Q L → List ℕ → Outcome (Run Q L × List ℕ)
  substitute store name r line = do
    buff ← memcpy_in r.buff 0 (decimal (pos store) ++ 0 ∷ [])
    line' ← replace_substring line (name ++ 0 ∷ []) buff
    done (record r { buff = buff }, line')

  -- The line with the stored numbers in it.
  unfoldable pub prepare : Host Q L → List ℕ → Run Q L → Outcome (Run Q L × List ℕ)
  prepare host line r = do
    one ← substitute r.ut.int_store1 (codes "$INT_STORE1") r (cut_line host.junk line)
    two ← substitute r.ut.int_store2 (codes "$INT_STORE2") one.0 one.1
    three ← substitute r.ut.int_store3 (codes "$INT_STORE3") two.0 two.1
    string ← known (c_str three.1)
    done (three.0, string)

  unfoldable pub goes_on : Outcome (Run Q L) → Outcome (Step Q L)
  goes_on out = do r ← out; done (go_on reading r)

  -- `while (tc_no && current_tc_no != tc_no)` at its test: the test case is run, or the lines up to
  -- the next one are skipped.
  unfoldable pub enter_case : List ℕ → ℕ → ℕ → Run Q L → Outcome (Step Q L)
  enter_case file_name tc_no current r =
      if tc_no == 0 || current == tc_no
      then goes_on (testcase_begin file_name current r)
      else done (go_on skipping (record r { current_tc_no = some current }))

  unfoldable pub begin_line : List ℕ → ℕ → List ℕ → Run Q L → Outcome (Step Q L)
  begin_line file_name tc_no line r = do
    current ← case_no line
    enter_case file_name tc_no current r

  unfoldable pub end_line : Host Q L → List ℕ → ℕ → Run Q L → Outcome (Step Q L)
  end_line host file_name tc_no r = do
    r' ← testcase_end host file_name r
    done (if not (tc_no == 0) && r'.ut.tc_running then stop r' else go_on reading r')

  -- The directives that stay in the test case.
  unfoldable pub run_inner : Host Q L → List ℕ → Run Q L → Outcome (Run Q L)
  run_inner host line r =
      if is_directive line (codes ":DESC:")
      then say (codes "Description : ") line r
      else if is_directive line (codes ":STEP:")
      then step line r
      else if is_directive line (codes ":CMD:")
      then cmd_line host line r
      else if is_directive line (codes ":PATTERN-MATCH:")
      then check_pattern host true line r
      else if is_directive line (codes ":PATTERN-NOT-MATCH:")
      then check_pattern host false line r
      else if is_directive line (codes ":SLEEP:")
      then sleep line r
      else if is_directive line (codes ":PAUSE:")
      then print (codes "Paused\n") r
      else if is_directive line (codes ":GREP:")
      then grep_buff line r
      else if is_directive line (codes ":PRINT:")
      then say (codes "INFO : ") line r
      else if is_directive line (codes ":INT_STORE1:")
      then store_int1 line r
      else if is_directive line (codes ":INT_STORE2:")
      then store_int2 line r
      else if is_directive line (codes ":INT_STORE3:")
      then store_int3 line r
      else done r

  -- The chain of tests; no two directives begin alike.
  unfoldable pub run_directive : Host Q L → List ℕ → ℕ → List ℕ → Run Q L → Outcome (Step Q L)
  run_directive host file_name tc_no line r =
      if is_directive line begin_name
      then begin_line file_name tc_no line r
      else if is_directive line end_name
      then end_line host file_name tc_no r
      else if is_directive line (codes ":ABORT:")
      then (do r' ← print (codes "Aborted\n") r; done (stop r'))
      else goes_on (run_inner host line r)

  unfoldable pub read_line : Host Q L → List ℕ → ℕ → List ℕ → Run Q L → Outcome (Step Q L)
  read_line host file_name tc_no [] r = done (go_on reading r)
  read_line host file_name tc_no (c ∷ line) r =
      if c == b':'
      then (do
        prepared ← prepare host (c ∷ line) r
        run_directive host file_name tc_no prepared.1 prepared.0)
      else if c == 10 && length line == 0
      then goes_on (print (codes "\n") r)
      else done (go_on reading r)

  -- The loop that skips to the next test case reads the line as it stands in the file.
  unfoldable pub skip_line : List ℕ → ℕ → List ℕ → Run Q L → Outcome (Step Q L)
  skip_line file_name tc_no line r =
      if is_directive line begin_name
      then begin_line file_name tc_no line r
      else done (go_on skipping r)

  unfoldable pub one_line : Host Q L → List ℕ → ℕ → Mode → List ℕ → Run Q L → Outcome (Step Q L)
  one_line host file_name tc_no reading line r = read_line host file_name tc_no line r
  one_line host file_name tc_no skipping line r = skip_line file_name tc_no line r

  -- The loop on the strings that `fgets` returns.
  unfoldable pub run_lines :
      Host Q L → List ℕ → ℕ → Mode → List (List ℕ) → Run Q L → Outcome (Step Q L)
  run_lines host file_name tc_no mode [] r = done (go_on mode r)
  run_lines host file_name tc_no mode (line ∷ rest) r = do
    ran ← one_line host file_name tc_no mode line r
    elim ran [
      | stop r' ↦ done (stop r')
      | go_on mode' r' ↦ run_lines host file_name tc_no mode' rest r'
    ]

  abbrev pub last_run : Step Q L → Run Q L
  last_run (go_on mode r) = r
  last_run (stop r) = r

  unfoldable pub start_run : Host Q L → Ut Q → Cli → Run Q L
  start_run host ut cli = record {
    ut = ut;
    cli = cli;
    buff = uninit host.junk 0 128;
    results = host.list.init_glthread;
    current_tc_no = none;
    current_step_no = none;
    tc_found = false;
  }

  abbrev pub end_run : Run Q L → (Ut Q × Cli) × Bool
  end_run r = ((record r.ut { tc_running = false }, r.cli), r.tc_found)

  -- The statics and the command line after the run, and what it returns.
  unfoldable pub run_test_case : Host Q L → Ut Q → Cli → List ℕ → ℕ → Outcome ((Ut Q × Cli) × Bool)
  run_test_case host ut cli file_name tc_no = elim (host.outside.file file_name) [
    | none ↦ aborted
    | some lines ↦ do
      ran ← run_lines host file_name tc_no reading lines (start_run host ut cli)
      done (end_run (last_run ran))
  ]

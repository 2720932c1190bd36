-- ===== src/UtParser/Invariant.antt =====
-- The loop of ut_parser.c keeps what Sound states: the receive buffer is never outgrown.
use tcp_lib_with_command_par.Prelude.After.{After-done}
use tcp_lib_with_command_par.Prelude.Memory.{length-uninit}
use tcp_lib_with_command_par.Cli.{Cli}
use tcp_lib_with_command_par.UtParser.Loop.{
  Mode, reading, skipping, Step, go_on, stop, is_directive, begin_name, end_name, prepare, goes_on,
  enter_case, begin_line, end_line, run_inner, run_directive, read_line, skip_line, one_line,
  run_lines, last_run, start_run, end_run, run_test_case,
}
use tcp_lib_with_command_par.Prelude.{
  ℕ, ◌≤◌, ◌≡◌, refl, Bool, true, false, not, ◌&&◌, ◌||◌, ◌⊎◌, inl, inr, Option, none, some, List,
  [], ◌∷◌, Outcome, done, aborted, ◌>>=◌, length, if◌then◌else◌, ◌==◌,
}
use tcp_lib_with_command_par.Prelude.After.{After, After-any, After-if, After-bind, After-map}
use tcp_lib_with_command_par.Prelude.CString.{codes}
use tcp_lib_with_command_par.UtParser.{Host, Ut, Run, ut_parser_buff_max_size, print}
use tcp_lib_with_command_par.UtParser.Directives.{case_no, testcase_begin, testcase_end}
use tcp_lib_with_command_par.UtParser.Sound.{IsKept, IsSound, print-After}
use tcp_lib_with_command_par.UtParser.Inner.{testcase_end-After, run_inner-After, prepare-After}

-- The runner after a line: a test case runs as before the line, or runs.
abbrev pub Steady : {Q L : Type 0} → Bool → Step Q L → Type 0
Steady b st = IsSound b (last_run st) ⊎ IsSound true (last_run st)

module _ {Q L : Type 0} (b : Bool) where
  pub testcase_begin-After :
      (file_name : List ℕ) (n : ℕ) (r : Run Q L)
      → IsSound b r
      → After (IsSound true) (testcase_begin file_name n r)
  unfolding testcase_begin
  testcase_begin-After file_name n r s = After-bind _ _ (print _ r) _ (print-After b _ r s) (λ r' k.
      record {
        kept = record { runs = refl; sized = k.kept.sized; within = k.kept.within };
        room = k.room;
      })

  goes_on-After : (out : Outcome (Run Q L)) → After (IsSound b) out → After (Steady b) (goes_on out)
  unfolding goes_on
  goes_on-After out h = After-bind _ _ out _ h (λ r s. inl s)

  begin_line-After :
      (file_name : List ℕ) (tc_no : ℕ) (line : List ℕ) (r : Run Q L)
      → IsSound b r
      → After (Steady b) (begin_line file_name tc_no line r)
  unfolding begin_line enter_case goes_on
  begin_line-After file_name tc_no line r s = After-bind _ _ (case_no line) _ (After-any _) (λ n _.
      After-if _ (tc_no == 0 || n == tc_no) _ _
        (After-bind _ _ (testcase_begin file_name n r) _ (testcase_begin-After file_name n r s)
          (λ r' k. inr k))
        (inl (record { kept = s.kept; room = s.room })))

  end_line-After :
      (host : Host Q L) (file_name : List ℕ) (tc_no : ℕ) (r : Run Q L)
      → IsSound b r
      → After (Steady b) (end_line host file_name tc_no r)
  unfolding end_line
  end_line-After host file_name tc_no r s =
      After-bind _ _ (testcase_end host file_name r) _ (testcase_end-After b host file_name r s)
        (λ r' k. ended (not (tc_no == 0) && r'.ut.tc_running) k)
    where
      ended :
          (c : Bool) {r : Run Q L} → IsSound b r → Steady b (if c then stop r else go_on reading r)
      ended true k = inl k
      ended false k = inl k

  run_directive-After :
      (host : Host Q L) (file_name : List ℕ) (tc_no : ℕ) (line : List ℕ) (r : Run Q L)
      → IsSound b r
      → After (Steady b) (run_directive host file_name tc_no line r)
  unfolding run_directive
  run_directive-After host file_name tc_no line r s =
      After-if _ (is_directive line begin_name) _ _ (begin_line-After file_name tc_no line r s) (
        After-if _ (is_directive line end_name) _ _ (end_line-After host file_name tc_no r s) (
          After-if _ (is_directive line (codes ":ABORT:")) _ _
            (After-bind _ _ (print (codes "Aborted\n") r) _ (print-After b _ r s) (λ r' k. inl k))
            (goes_on-After (run_inner host line r) (run_inner-After b host line r s))))

  read_line-After :
      (host : Host Q L) (file_name : List ℕ) (tc_no : ℕ) (line : List ℕ) (r : Run Q L)
      → IsSound b r
      → After (Steady b) (read_line host file_name tc_no line r)
  unfolding read_line
  read_line-After host file_name tc_no [] r s = inl s
  read_line-After host file_name tc_no (c ∷ line) r s =
      After-if _ (c == b':') _ _
        (After-bind _ _ (prepare host (c ∷ line) r) _ (prepare-After b host (c ∷ line) r s)
          (λ out k. run_directive-After host file_name tc_no out.1 out.0 k))
        (After-if _ (c == 10 && length line == 0) _ _
          (goes_on-After (print (codes "\n") r) (print-After b _ r s)) (inl s))

  one_line-After :
      (host : Host Q L) (file_name : List ℕ) (tc_no : ℕ) (mode : Mode) (line : List ℕ) (r : Run Q L)
      → IsSound b r
      → After (Steady b) (one_line host file_name tc_no mode line r)
  unfolding one_line skip_line
  one_line-After host file_name tc_no reading line r s =
      read_line-After host file_name tc_no line r s
  one_line-After host file_name tc_no skipping line r s =
      After-if _ (is_directive line begin_name) _ _ (begin_line-After file_name tc_no line r s)
        (inl s)

module _ {Q L : Type 0} (host : Host Q L) (file_name : List ℕ) (tc_no : ℕ) where
  weaken : (b : Bool) (out : Outcome (Step Q L)) → After (Steady true) out → After (Steady b) out
  weaken b out h = After-map (Steady true) (Steady b) out once h
    where
      once : (st : Step Q L) → Steady true st → Steady b st
      once st (inl k) = inr k
      once st (inr k) = inr k

  follow :
      (rest : List (List ℕ))
      → ((b : Bool) (mode : Mode) (r : Run Q L)
          → IsSound b r
          → After (Steady b) (run_lines host file_name tc_no mode rest r))
      → (b : Bool) (st : Step Q L) → Steady b st
      → After (Steady b) (elim st [
        | stop r' ↦ done (stop r')
        | go_on mode' r' ↦ run_lines host file_name tc_no mode' rest r'
      ])
  follow rest onward b (stop r') k = k
  follow rest onward b (go_on mode' r') (inl k) = onward b mode' r' k
  follow rest onward b (go_on mode' r') (inr k) =
      weaken b (run_lines host file_name tc_no mode' rest r') (onward true mode' r' k)

  pub run_lines-After :
      (lines : List (List ℕ)) (b : Bool) (mode : Mode) (r : Run Q L)
      → IsSound b r
      → After (Steady b) (run_lines host file_name tc_no mode lines r)
  unfolding run_lines
  run_lines-After [] b mode r s = inl s
  run_lines-After (line ∷ rest) b mode r s =
      After-bind _ _ (one_line host file_name tc_no mode line r) _
        (one_line-After b host file_name tc_no mode line r s)
        (λ st k. follow rest (run_lines-After rest) b st k)

  pub start_run-IsSound :
      (ut : Ut Q) (cli : Cli)
      → IsKept ut.tc_running ut
      → IsSound ut.tc_running (start_run host ut cli)
  unfolding start_run
  start_run-IsSound ut cli k = record { kept = k; room = length-uninit host.junk 0 128 }

  -- Of a run of `run_test_case` that returns, with a receive buffer of 2048 bytes that holds at most as many:
  -- the buffer is still of that size, holds at most as many bytes, and no test case runs.
  pub run_test_case-IsKept :
      (ut : Ut Q) (cli : Cli) (out : (Ut Q × Cli) × Bool)
      → length ut.recv_buff ≡ ut_parser_buff_max_size
      → ut.recv_buff_data_size ≤ ut_parser_buff_max_size
      → run_test_case host ut cli file_name tc_no ≡ done out
      → IsKept false out.0.0
  unfolding run_test_case
  run_test_case-IsKept ut cli out sized within e =
      After-done (λ (o : (Ut Q × Cli) × Bool). IsKept false o.0.0)
        (run_test_case host ut cli file_name tc_no) out (of_file (host.outside.file file_name)) e
    where
      closed : {b : Bool} {r : Run Q L} → IsSound b r → IsKept false (end_run r).0.0
      closed k = record { runs = refl; sized = k.kept.sized; within = k.kept.within }

      last : (st : Step Q L) → Steady ut.tc_running st → IsKept false (end_run (last_run st)).0.0
      last st (inl k) = closed k
      last st (inr k) = closed k

      of_file :
          (file : Option (List (List ℕ)))
          → After
              (λ (o : (Ut Q × Cli) × Bool). IsKept false o.0.0)
              (elim file [
                | none ↦ aborted
                | some lines ↦ do
                  ran ← run_lines host file_name tc_no reading lines (start_run host ut cli)
                  done (end_run (last_run ran))
              ])
      of_file none = tt
      of_file (some lines) =
          After-bind _ _ (run_lines host file_name tc_no reading lines (start_run host ut cli)) _
            (run_lines-After lines ut.tc_running reading (start_run host ut cli)
              (start_run-IsSound ut cli (record { runs = refl; sized = sized; within = within })))
            (λ st k. last st k)

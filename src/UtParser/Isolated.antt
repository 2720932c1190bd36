-- ===== src/UtParser/Isolated.antt =====
-- One test case of a file, run by its number: CommandParser/ut/utinfra/ut_parser.c.
use tcp_lib_with_command_par.Prelude.{
  ℕ, ◌≤◌, ◌≡◌, refl, sym, ap, ◌∙◌, subst, Bool, true, false, inl, inr, some, List, ◌∷◌, ◌++◌,
  Outcome, done, undefined, aborted, out_of_fuel, ◌>>=◌, length, ◌==◌,
}
use tcp_lib_with_command_par.Prelude.After.{After, After-done, After-map, After-bind}
use tcp_lib_with_command_par.Cli.{Cli}
use tcp_lib_with_command_par.UtParser.{Host, Ut, Run, ut_parser_buff_max_size}
use tcp_lib_with_command_par.UtParser.Directives.{testcase_begin, testcase_end}
use tcp_lib_with_command_par.UtParser.Loop.{
  reading, skipping, Step, go_on, stop, is_directive, begin_name, end_name, prepare, goes_on,
  run_lines, last_run, start_run, end_run, run_test_case,
}
use tcp_lib_with_command_par.UtParser.Sound.{IsSound}
use tcp_lib_with_command_par.UtParser.Inner.{prepare-After, testcase_end-After}
use tcp_lib_with_command_par.UtParser.Invariant.{
  Steady, testcase_begin-After, run_lines-After, start_run-IsSound,
}
use tcp_lib_with_command_par.UtParser.Select.{
  BeginsCase, AllOther, resume, run_lines-cons, begin-run, run_lines-append, run_lines-other,
  end-stops,
}

module _ {Q L : Type 0} (host : Host Q L) (file_name : List ℕ) (n : ℕ) where
  always : (st : Step Q L) → Steady true st → IsSound true (last_run st)
  always st (inl k) = k
  always st (inr k) = k

  resume-After :
      (body : List (List ℕ)) (st : Step Q L)
      → IsSound true (last_run st)
      → After (λ st'. IsSound true (last_run st')) (resume host file_name n body st)
  resume-After body (stop r) k = k
  resume-After body (go_on mode r) k =
      After-map (Steady true) _ (run_lines host file_name n mode body r) always
        (run_lines-After host file_name n body true mode r k)

  -- In a test case that has begun, a test case runs.
  case-After :
      (b : Bool) (begin : List ℕ) (body : List (List ℕ)) (r : Run Q L)
      → IsSound b r
      → BeginsCase n begin
      → After
          (λ st. IsSound true (last_run st))
          (run_lines host file_name n skipping (begin ∷ body) r)
  case-After b begin body r k c =
      subst (After (λ st. IsSound true (last_run st)))
        (sym (
          run_lines-cons host file_name n begin body skipping r
          ∙ ap (λ out. out >>= resume host file_name n body)
              (begin-run host file_name n begin r c)))
        (After-bind (λ st. IsSound true (last_run st)) _ (goes_on (testcase_begin file_name n r)) _
          (unfold goes_on in
            After-bind _ _ (testcase_begin file_name n r) _ (testcase_begin-After b file_name n r k)
              (λ r' k'. k'))
          (λ st k'. resume-After body st k'))

  ended :
      (out : Outcome (Run Q L)) (rest : List (List ℕ))
      → ((do t ← out; done (stop t)) >>= resume host file_name n rest) ≡ (do t ← out; done (stop t))
  ended (done t) rest = refl
  ended aborted rest = refl
  ended undefined rest = refl
  ended out_of_fuel rest = refl

  finished :
      (out : Outcome (Run Q L))
      → (do ran ← (do t ← out; done (stop t)); done (end_run (last_run ran)))
        ≡ (do t ← out; done (end_run t))
  finished (done t) = refl
  finished aborted = refl
  finished undefined = refl
  finished out_of_fuel = refl

  -- What a run of the test case with a number goes through: `opening` leads to another test case,
  -- `before` has none of the number, and `body` leads from the line that begins it to the one that ends it.
  pub record Passes (ut : Ut Q) (cli : Cli) (lines : List (List ℕ)) (last : Run Q L) : Type 0 where
    pub opening : List (List ℕ)
    pub before : List (List ℕ)
    pub begin : List ℕ
    pub body : List (List ℕ)
    pub end : List ℕ
    pub after : List (List ℕ)
    pub first : Run Q L
    pub inner : Run Q L
    pub text : List ℕ
    pub splits : lines ≡ opening ++ (before ++ begin ∷ (body ++ (b':' ∷ end) ∷ after))
    pub opens :
        run_lines host file_name n reading opening (start_run host ut cli)
        ≡ done (go_on skipping first)
    pub others : AllOther n before
    pub begins : BeginsCase n begin
    pub runs : run_lines host file_name n skipping (begin ∷ body) first ≡ done (go_on reading inner)
    pub prepared : prepare host (b':' ∷ end) inner ≡ done (last, text)
    pub begins_none : is_directive text begin_name ≡ false
    pub ends : is_directive text end_name ≡ true

  module _ (chosen : (n == 0) ≡ false) where
    last-IsSound :
        (ut : Ut Q) (cli : Cli) (lines : List (List ℕ)) (last : Run Q L)
        → length ut.recv_buff ≡ ut_parser_buff_max_size
        → ut.recv_buff_data_size ≤ ut_parser_buff_max_size
        → Passes ut cli lines last
        → IsSound true last
    last-IsSound ut cli lines last sized within p =
        After-done (λ out. IsSound true out.0) (prepare host (b':' ∷ p.end) p.inner) (last, p.text)
          (prepare-After true host (b':' ∷ p.end) p.inner (inner-IsSound (opening-Steady)))
          p.prepared
      where
        opening-Steady : Steady ut.tc_running (go_on skipping p.first)
        opening-Steady =
            After-done (Steady ut.tc_running) _ (go_on skipping p.first)
              (run_lines-After host file_name n p.opening ut.tc_running reading
                (start_run host ut cli)
                (start_run-IsSound host file_name n ut cli
                  (record { runs = refl; sized = sized; within = within })))
              p.opens

        inner-of : (b : Bool) → IsSound b p.first → IsSound true p.inner
        inner-of b k =
            After-done (λ st. IsSound true (last_run st)) _ (go_on reading p.inner)
              (case-After b p.begin p.body p.first k p.begins) p.runs

        inner-IsSound : Steady ut.tc_running (go_on skipping p.first) → IsSound true p.inner
        inner-IsSound (inl k) = inner-of ut.tc_running k
        inner-IsSound (inr k) = inner-of true k

    run_lines-Passes :
        (ut : Ut Q) (cli : Cli) (lines : List (List ℕ)) (last : Run Q L)
        → length ut.recv_buff ≡ ut_parser_buff_max_size
        → ut.recv_buff_data_size ≤ ut_parser_buff_max_size
        → Passes ut cli lines last
        → run_lines host file_name n reading lines (start_run host ut cli)
          ≡ (do t ← testcase_end host file_name last; done (stop t))
    run_lines-Passes ut cli lines last sized within p =
        let tail : List (List ℕ) = (b':' ∷ p.end) ∷ p.after in
        let rest : List (List ℕ) = p.before ++ p.begin ∷ (p.body ++ tail) in
        ap (λ l. run_lines host file_name n reading l (start_run host ut cli)) p.splits
        ∙ run_lines-append host file_name n p.opening rest reading (start_run host ut cli)
        ∙ ap (λ out. out >>= resume host file_name n rest) p.opens
        ∙ run_lines-other host file_name n chosen p.before p.begin (p.body ++ tail) p.first p.others
            p.begins
        ∙ run_lines-append host file_name n (p.begin ∷ p.body) tail skipping p.first
        ∙ ap (λ out. out >>= resume host file_name n tail) p.runs
        ∙ run_lines-cons host file_name n (b':' ∷ p.end) p.after reading p.inner
        ∙ ap (λ out. out >>= resume host file_name n p.after)
            (end-stops host file_name n chosen p.end p.inner last p.text p.prepared p.begins_none
              p.ends
              (λ t e.
                (After-done (IsSound true) (testcase_end host file_name last) t
                  (testcase_end-After true host file_name last
                    (last-IsSound ut cli lines last sized within p))
                  e).kept.runs))
        ∙ ended (testcase_end host file_name last) p.after

    -- Asked for the test case of a number other than 0, `run_test_case` on a file that has it behind other
    -- test cases runs its lines from where the first other test case is met, passes over the lines of the
    -- others whatever they hold, and stops at its TESTCASE-END: the result is that of printing its
    -- results, and no line after it plays a part.
    pub run_test_case-Passes :
        (ut : Ut Q) (cli : Cli) (lines : List (List ℕ)) (last : Run Q L)
        → host.outside.file file_name ≡ some lines
        → length ut.recv_buff ≡ ut_parser_buff_max_size
        → ut.recv_buff_data_size ≤ ut_parser_buff_max_size
        → Passes ut cli lines last
        → run_test_case host ut cli file_name n
          ≡ (do t ← testcase_end host file_name last; done (end_run t))
    unfolding run_test_case
    run_test_case-Passes ut cli lines last file sized within p =
        rw (run_test_case, file)
          (ap (λ out. do ran ← out; done (end_run (last_run ran)))
              (run_lines-Passes ut cli lines last sized within p)
            ∙ finished (testcase_end host file_name last))

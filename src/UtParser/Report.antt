-- ===== src/UtParser/Report.antt =====
-- The report that ut_parser.c writes at the end of a test case.
use tcp_lib_with_command_par.Prelude.{
  ℕ, ◌<◌, ◌≡◌, refl, ap, ◌∙◌, Bool, true, false, not, ◌&&◌, some, List, [], ◌∷◌, ◌++◌, map, Outcome,
  done, ◌>>=◌, length, length-append, length-map, arith, ◌==◌, if◌then◌else◌,
}
use tcp_lib_with_command_par.Prelude.After.{bind-step}
use tcp_lib_with_command_par.Prelude.CString.{codes, strncmp_eq}
use tcp_lib_with_command_par.Parser.{decimal, decimal_digits}
use tcp_lib_with_command_par.UtParser.{
  Host, Run, known, print, fwrite, TcResult, IsGlthread, count_results, no_tally, total_text,
  tc_print_result, tc_cleanup_result_list,
}
use tcp_lib_with_command_par.UtParser.Directives.{testcase_end}
use tcp_lib_with_command_par.UtParser.Loop.{
  reading, Step, go_on, stop, is_directive, end_line, run_directive, read_line, one_line, run_lines,
  last_run,
}
use tcp_lib_with_command_par.UtParser.Select.{resume, run_lines-append, run_lines-cons}
use tcp_lib_with_command_par.UtParser.Plain.{prepare-Prepared, length-decimal_digits}
use tcp_lib_with_command_par.UtParser.Checks.{Check}
use tcp_lib_with_command_par.UtParser.Counting.{
  passing, failing, result_lines, totals, count_results-IsTally, cleanup_loop-empty,
}
use tcp_lib_with_command_par.UtParser.Verdicts.{judged, IsReady, print-done}
use tcp_lib_with_command_par.UtParser.Judging.{
  raw, AllPatterns, Judged, judged-Judged, run_lines-AddsAll,
}

abbrev pub end_line_raw : List ℕ
end_line_raw = codes ":TESTCASE-END:" ++ 10 ∷ []

module _ {Q L : Type 0} (host : Host Q L) (file_name : List ℕ) (n step_no : ℕ)
    (string : List ℕ) where
  -- The printing of the report, with an empty list after it.
  record Ends (r : Run Q L) (out : Outcome (Run Q L)) : Type 0 where
    last : Run Q L
    returns : out ≡ done last
    cleared : host.list.iterate last.results ≡ []
    log : List ℕ
    report : last.ut.ut_log_file ≡ log ++ tc_print_result host.list r.results

  testcase_end-Ends :
      (r : Run Q L) (m : ℕ)
      → IsGlthread host.list
      → length r.buff ≡ 128
      → r.current_tc_no ≡ some m
      → length file_name < 64
      → Ends r (testcase_end host file_name r)
  unfolding testcase_end fwrite tc_cleanup_result_list decimal
  testcase_end-Ends r m g room at_case short =
      let digits : List ℕ = decimal_digits 10 m [] in
      let text : List ℕ =
        codes "\n ***** Test case : "
        ++ (file_name ++ (codes " - " ++ (digits ++ codes " Finished ***** \n"))) in
      let fits : length text < 128 = omega (
        arith,
        length-append file_name (codes " - " ++ (digits ++ codes " Finished ***** \n")),
        length-append digits (codes " Finished ***** \n"),
        length-decimal_digits 10 m [],
      ) in
      let (buff, printed, room') = print-done text r fits room in
      record {
        last = record r {
          buff = buff;
          ut = record r.ut {
            ut_log_file = (r.ut.ut_log_file ++ text) ++ tc_print_result host.list r.results;
          };
          results = tc_cleanup_result_list host.list r.results;
        };
        returns =
            bind-step (known r.current_tc_no) m _ (ap known at_case)
            ∙ bind-step (print text r) _ _ printed;
        cleared = cleanup_loop-empty host.list g (host.list.iterate r.results) r.results refl;
        log = r.ut.ut_log_file ++ text;
        report = refl;
      }

  one_line-end :
      (r : Run Q L)
      → length r.buff ≡ 128
      → (buff : List ℕ) × (one_line host file_name n reading end_line_raw r
          ≡ end_line host file_name n (record r { buff = buff }))
        × (length buff ≡ 128)
  unfolding one_line read_line run_directive is_directive strncmp_eq
  one_line-end r room =
      let p = prepare-Prepared host r (codes ":TESTCASE-END:") room (omega arith) refl refl in
      (p.buff, rw p.returns refl, p.room ∙ room)

  -- There is a result for each check, and the report is the last of the log: after its header the line
  -- of each result, in order, and how many there are, how many passed and how many failed.
  pub record Reports (cs : List Check) (out : Outcome (Step Q L)) : Type 0 where
    pub last : Step Q L
    pub returns : out ≡ done last
    pub results : List TcResult
    pub verdicts : Judged step_no string cs results
    pub log : List ℕ
    pub report :
        (last_run last).ut.ut_log_file
        ≡ log
          ++ (codes "\n****  Result ******\n"
              ++ (result_lines results ++ totals (length cs) (passing results) (failing results)))
    pub cleared : host.list.iterate (last_run last).results ≡ []

  report-lines :
      (rs : List TcResult)
      → let t = count_results no_tally rs in
        t.text ++ total_text t ≡ result_lines rs ++ totals (length rs) (passing rs) (failing rs)
  unfolding total_text
  report-lines rs =
      let k = count_results-IsTally rs no_tally in
      let total : (count_results no_tally rs).total_cnt ≡ length rs = k.total ∙ omega arith in
      let passed : (count_results no_tally rs).pass_cnt ≡ passing rs = k.passed ∙ omega arith in
      let failed : (count_results no_tally rs).fail_cnt ≡ failing rs = k.failed ∙ omega arith in
      rw (k.lines, total, passed, failed) refl

  last_of : (c : Bool) (r : Run Q L) → last_run (if c then stop r else go_on reading r) ≡ r
  last_of true r = refl
  last_of false r = refl

  end_line-Reports :
      (cs : List Check) (r : Run Q L)
      → IsGlthread host.list
      → IsReady step_no string r
      → length file_name < 64
      → host.list.iterate r.results ≡ map (judged step_no string) cs
      → Reports cs (end_line host file_name n r)
  unfolding end_line tc_print_result
  end_line-Reports cs r g k short e =
      let ends = testcase_end-Ends r k.tc g k.room k.at_case short in
      let results : List TcResult = map (judged step_no string) cs in
      let many : length results ≡ length cs = length-map cs (judged step_no string) in
      let last : Step Q L =
        if not (n == 0) && ends.last.ut.tc_running
        then stop ends.last
        else go_on reading ends.last in
      let run : last_run last ≡ ends.last =
        last_of (not (n == 0) && ends.last.ut.tc_running) ends.last in
      record {
        last = last;
        returns = rw ends.returns refl;
        results = results;
        verdicts = judged-Judged step_no string cs;
        log = ends.log;
        report =
            ap (λ (x : Run Q L). x.ut.ut_log_file) run
            ∙ ends.report
            ∙ ap
                (λ rs.
                  let t = count_results no_tally rs in
                  ends.log ++ (codes "\n****  Result ******\n" ++ (t.text ++ total_text t)))
                e
            ∙ ap (λ text. ends.log ++ (codes "\n****  Result ******\n" ++ text))
                (report-lines results
                  ∙ ap (λ n. result_lines results ++ totals n (passing results) (failing results))
                      many);
        cleared = ap (λ (x : Run Q L). host.list.iterate x.results) run ∙ ends.cleared;
      }

  at_end : (st : Step Q L) → resume host file_name n [] st ≡ done st
  unfolding run_lines
  at_end (stop r) = refl
  at_end (go_on mode r) = refl

  -- From a runner in a step of a test case that has no results yet, and whose receive buffer shows a
  -- string, lines with patterns and then TESTCASE-END are passed. There is one result for each line, in
  -- order, which passes exactly if the string contains the pattern (PATTERN-MATCH) or does not
  -- (PATTERN-NOT-MATCH), and the log ends with the report: the line of each result, in order, with its
  -- kind, its step and PASS or FAIL, and their numbers; the list of results is empty then. A pattern is a text of 1 to 255 bytes without colon, newline and `$`, and the
  -- name of the file has fewer than 64 bytes.
  pub run_lines-Reports :
      (cs : List Check) (r : Run Q L)
      → IsGlthread host.list
      → IsReady step_no string r
      → AllPatterns cs
      → length file_name < 64
      → host.list.iterate r.results ≡ []
      → Reports cs (run_lines host file_name n reading (map raw cs ++ end_line_raw ∷ []) r)
  run_lines-Reports cs r g k i short e =
      let a = run_lines-AddsAll host file_name n step_no string cs r g k i in
      let (buff, ended, room) = one_line-end a.next a.ready.room in
      let k1 : IsReady step_no string (record a.next { buff = buff }) = record {
        room = room;
        shows = a.ready.shows;
        in_step = a.ready.in_step;
        tc = a.ready.tc;
        at_case = a.ready.at_case;
      } in
      let reports =
        end_line-Reports cs (record a.next { buff = buff }) g k1 short
          (a.listed_all ∙ ap (λ l. l ++ map (judged step_no string) cs) e) in
      record {
        last = reports.last;
        returns =
            run_lines-append host file_name n (map raw cs) (end_line_raw ∷ []) reading r
            ∙ ap (λ out. out >>= resume host file_name n (end_line_raw ∷ [])) a.returns
            ∙ run_lines-cons host file_name n end_line_raw [] reading a.next
            ∙ ap (λ out. out >>= resume host file_name n []) (ended ∙ reports.returns)
            ∙ at_end reports.last;
        results = reports.results;
        verdicts = reports.verdicts;
        log = reports.log;
        report = reports.report;
        cleared = reports.cleared;
      }

-- ===== src/UtParser/ShowCase.antt =====
-- A show command and the checks of its output, from the lines of a test file to the report of
-- ut_parser.c.
use tcp_lib_with_command_par.Prelude.{
  ℕ, ◌≤◌, ◌<◌, ◌≡◌, refl, sym, ap, ◌∙◌, subst, List, [], ◌∷◌, ◌++◌, map, done, ◌>>=◌, length, arith,
}
use tcp_lib_with_command_par.Prelude.After.{bind-step}
use tcp_lib_with_command_par.Prelude.CString.{codes, strncmp_eq}
use tcp_lib_with_command_par.StringUtil.{strtok_all}
use tcp_lib_with_command_par.StringUtil.Texts.{IsText}
use tcp_lib_with_command_par.StringUtil.Words.{words, words_from, strtok_all-words}
use tcp_lib_with_command_par.UtParser.{Host, Run, ut_parser_buff_max_size, IsGlthread}
use tcp_lib_with_command_par.UtParser.Directives.{second_token, cmd_token, cmd_line}
use tcp_lib_with_command_par.UtParser.Loop.{
  reading, prepare, is_directive, goes_on, run_inner, run_directive, read_line, one_line, run_lines,
}
use tcp_lib_with_command_par.UtParser.Select.{resume, run_lines-cons}
use tcp_lib_with_command_par.UtParser.Plain.{prepare-Prepared}
use tcp_lib_with_command_par.UtParser.Checks.{Check, IsPattern, words_from-plain, flush_one}
use tcp_lib_with_command_par.UtParser.Judging.{raw, AllPatterns}
use tcp_lib_with_command_par.UtParser.Report.{Reports, end_line_raw, run_lines-Reports}
use tcp_lib_with_command_par.UtParser.Answers.{IsQueue, Awaits, Accepted, Shown, cmd_token-Shown}
use tcp_lib_with_command_par.UtParser.Timeout.{cmd_token-Shown_none}

abbrev pub cmd_text : List ℕ → List ℕ
cmd_text token = codes ":CMD:" ++ token

words-cmd_text : (token : List ℕ) → words b':' (cmd_text token) ≡ codes "CMD" ∷ words b':' token
unfolding words_from
words-cmd_text token = refl

second_token-cmd_text :
    (token : List ℕ) → IsPattern token → second_token (cmd_text token) ≡ done token
unfolding second_token
second_token-cmd_text token i =
    let one : words b':' token ≡ token ∷ [] =
      words_from-plain b':' [] token i.no_colon ∙ flush_one token i.nonempty in
    let tokens : strtok_all b':' (cmd_text token) ≡ codes "CMD" ∷ token ∷ [] =
      strtok_all-words b':' (cmd_text token)
      ∙ words-cmd_text token
      ∙ ap (λ l. codes "CMD" ∷ l) one in
    rw tokens refl

module _ {Q L : Type 0} (host : Host Q L) (file_name : List ℕ) (n : ℕ) where
  run_directive-cmd :
      (token : List ℕ) (r : Run Q L)
      → IsPattern token
      → run_directive host file_name n (cmd_text token) r ≡ goes_on (cmd_token host token r)
  unfolding run_directive run_inner is_directive strncmp_eq cmd_line
  run_directive-cmd token r i =
      ap goes_on (bind-step (second_token (cmd_text token)) token _ (second_token-cmd_text token i))

  read_line-cmd :
      (token : List ℕ) (r : Run Q L)
      → read_line host file_name n (cmd_text (token ++ 10 ∷ [])) r ≡ (do
        prepared ← prepare host (cmd_text (token ++ 10 ∷ [])) r
        run_directive host file_name n prepared.1 prepared.0)
  unfolding read_line
  read_line-cmd token r = refl

  -- The line is read, and its command is run with nothing changed but the local buffer.
  one_line-cmd :
      (token : List ℕ) (r : Run Q L)
      → IsPattern token
      → length r.buff ≡ 128
      → (buff : List ℕ) × (one_line host file_name n reading (cmd_text token ++ 10 ∷ []) r
          ≡ goes_on (cmd_token host token (record r { buff = buff })))
        × (length buff ≡ 128)
  unfolding one_line
  one_line-cmd token r i room =
      let p =
        prepare-Prepared host r (cmd_text token) room (ground (arith, i.is_text))
          (ground (arith, i.no_newline)) (ground (arith, i.no_store)) in
      (
        p.buff,
        read_line-cmd token r
            ∙ rw p.returns (run_directive-cmd token (record r { buff = p.buff }) i),
        p.room ∙ room,
      )

  -- The local buffer plays no part in what a show command waits for.
  Awaits-buff :
      (empty : Q) (step_no : ℕ) (r : Run Q L) (buff : List ℕ)
      → Awaits empty step_no r
      → length buff ≡ 128
      → Awaits empty step_no (record r { buff = buff })
  Awaits-buff empty step_no r buff w room = record {
    room = room;
    in_step = w.in_step;
    tc = w.tc;
    at_case = w.at_case;
    running = w.running;
    quiet = w.quiet;
    sized = w.sized;
    nothing_sent = w.nothing_sent;
  }

  Accepted-buff :
      (r : Run Q L) (buff token : List ℕ) (outs : List (List ℕ × ℕ))
      → Accepted host r token outs
      → Accepted host (record r { buff = buff }) token outs
  Accepted-buff r buff token outs a = record {
    cli = a.cli;
    parsed = a.parsed;
    calls = a.calls;
    is_show = a.is_show;
  }

  after_cmd-Reports :
      (empty : Q) (step_no : ℕ) (string token : List ℕ) (cs : List Check) (r : Run Q L)
      (buff : List ℕ)
      → IsGlthread host.list
      → one_line host file_name n reading (cmd_text token ++ 10 ∷ []) r
        ≡ goes_on (cmd_token host token (record r { buff = buff }))
      → Shown empty step_no string
          (record r { buff = buff })
          (cmd_token host token (record r { buff = buff }))
      → AllPatterns cs
      → length file_name < 64
      → host.list.iterate r.results ≡ []
      → Reports host file_name n step_no string cs (
          run_lines host file_name n reading
            ((cmd_text token ++ 10 ∷ []) ∷ (map raw cs ++ end_line_raw ∷ []))
            r)
  unfolding goes_on
  after_cmd-Reports empty step_no string token cs r buff g line s i short e =
      let rest : List (List ℕ) = map raw cs ++ end_line_raw ∷ [] in
      let run : run_lines host file_name n reading ((cmd_text token ++ 10 ∷ []) ∷ rest) r
          ≡ run_lines host file_name n reading rest s.next =
        run_lines-cons host file_name n (cmd_text token ++ 10 ∷ []) rest reading r
        ∙ ap (λ out. out >>= resume host file_name n rest) (line ∙ ap goes_on s.returns) in
      subst (Reports host file_name n step_no string cs) (sym run) (
        run_lines-Reports host file_name n step_no string cs s.next g s.ready i short
          (ap host.list.iterate s.same_results ∙ e))

  module _ (empty : Q) (step_no : ℕ) (token : List ℕ) (cs : List Check) (r : Run Q L) where
    -- From a runner in a step of a test case that has no results yet, with the debug output off and
    -- nothing in the message queue, a show command, lines with patterns and TESTCASE-END are passed, if
    -- the command is accepted and its handler gives one string of fewer than 2048 bytes to `cli_out`:
    -- each line has a result, in order, which passes exactly if that string contains the pattern
    -- (PATTERN-MATCH) or does not (PATTERN-NOT-MATCH), and the log ends with the report: the line of
    -- each result, with its kind, its step and PASS or FAIL, and their numbers. The command has fewer than 121 bytes, the
    -- patterns have fewer than 256, none of them empty or with a colon, newline or `$`, and the name of
    -- the file has fewer than 64.
    pub show_case-Reports :
        (text rest : List ℕ)
        → IsGlthread host.list
        → IsQueue host.mq empty
        → Awaits empty step_no r
        → Accepted host r token ((text ++ 0 ∷ rest, length text) ∷ [])
        → IsText text
        → length text < ut_parser_buff_max_size
        → IsPattern token
        → length token < 121
        → AllPatterns cs
        → length file_name < 64
        → host.list.iterate r.results ≡ []
        → Reports host file_name n step_no text cs (
            run_lines host file_name n reading
              ((cmd_text token ++ 10 ∷ []) ∷ (map raw cs ++ end_line_raw ∷ []))
              r)
    show_case-Reports text rest g q w a t short p brief i name e =
        let (buff, line, room) = one_line-cmd token r p w.room in
        after_cmd-Reports empty step_no text token cs r buff g line
          (cmd_token-Shown host empty step_no (record r { buff = buff }) token text rest q
            (Awaits-buff empty step_no r buff w room) (Accepted-buff r buff token _ a) t short
            brief)
          i name e

    -- From a runner in a step of a test case that has no results yet, with the debug output off and
    -- nothing in the message queue, a show command of at most 76 bytes, lines with patterns and
    -- TESTCASE-END are passed also if the command is accepted and its handler gives nothing to
    -- `cli_out`: after the time-out each line has a result, in order, which is that on the empty string
    -- (every PATTERN-MATCH fails and every PATTERN-NOT-MATCH passes), and the log ends with the report:
    -- the line of each result, with its kind, its step and PASS or FAIL, and their numbers. The patterns
    -- have fewer than 256 bytes, none of them, nor the command, is empty or has a colon, newline or `$`,
    -- and the name of the file has fewer than 64 bytes.
    pub silent_case-Reports :
        IsGlthread host.list
        → IsQueue host.mq empty
        → Awaits empty step_no r
        → Accepted host r token []
        → IsPattern token
        → length token ≤ 76
        → AllPatterns cs
        → length file_name < 64
        → host.list.iterate r.results ≡ []
        → Reports host file_name n step_no [] cs (
            run_lines host file_name n reading
              ((cmd_text token ++ 10 ∷ []) ∷ (map raw cs ++ end_line_raw ∷ []))
              r)
    silent_case-Reports g q w a p brief i name e =
        let (buff, line, room) = one_line-cmd token r p w.room in
        let a1 : Accepted host (record r { buff = buff }) token [] = record {
          cli = a.cli;
          parsed = a.parsed;
          calls = a.calls;
          is_show = a.is_show;
        } in
        after_cmd-Reports empty step_no [] token cs r buff g line
          (cmd_token-Shown_none host empty step_no (record r { buff = buff }) token q
            (Awaits-buff empty step_no r buff w room) (Accepted-buff r buff token _ a) brief)
          i name e

-- ===== src/UtParser/Keeps.antt =====
-- Each directive of ut_parser.c keeps what Sound states.
use tcp_lib_with_command_par.Prelude.{
  ℕ, ◌∙◌, Bool, ◌&&◌, Option, none, some, List, [], ◌∷◌, ◌++◌, arith, length, length-replicate,
}
use tcp_lib_with_command_par.Prelude.After.{After, After-any, After-if, After-bind, memcpy_in-After}
use tcp_lib_with_command_par.Prelude.Memory.{memcpy_in, memcpy_out}
use tcp_lib_with_command_par.Prelude.CString.{codes, c_str}
use tcp_lib_with_command_par.StringUtil.{pattern_match}
use tcp_lib_with_command_par.App.Atoi.{atoi_int}
use tcp_lib_with_command_par.Parser.Line.{parse_input_cmd}
use tcp_lib_with_command_par.Parser.{is_complete}
use tcp_lib_with_command_par.UtParser.{
  Host, Run, ut_parser_buff_max_size, known, print, print_more, fwrite, run_cmd, cli_out_all,
}
use tcp_lib_with_command_par.UtParser.Directives.{
  second_token, case_no, buff_match, say, step, sleep, received, timed_out, receive, wait,
  cmd_token, cmd_line, verdict, pattern_label, read_pattern, check_pattern,
}
use tcp_lib_with_command_par.UtParser.Sound.{
  IsSound, cli_out_all-After, print-After, print_more-After,
}

module _ {Q L : Type 0} (b : Bool) where
  pub run_cmd-After :
      (host : Host Q L) (r : Run Q L) (token : List ℕ)
      → IsSound b r
      → After (λ ran. IsSound b ran.0) (run_cmd host r token)
  unfolding run_cmd
  run_cmd-After host r token s =
      After-bind _ _ (parse_input_cmd host.env host.outside r.cli token) _ (After-any _) (λ ran _.
        After-bind _ _ (cli_out_all host.mq r.ut (host.printed r.cli token)) _
          (cli_out_all-After b host.mq r.ut (host.printed r.cli token) s.kept)
          (λ ut k. record { kept = k; room = s.room }))

  pub say-After :
      (label line : List ℕ) (r : Run Q L) → IsSound b r → After (IsSound b) (say label line r)
  unfolding say
  say-After label line r s =
      After-bind _ _ (second_token line) _ (After-any _)
        (λ token _. print-After b (label ++ (token ++ 10 ∷ [])) r s)

  pub step-After : (line : List ℕ) (r : Run Q L) → IsSound b r → After (IsSound b) (step line r)
  unfolding step
  step-After line r s =
      After-bind _ _ (say (codes "STEP : ") line r) _ (say-After _ line r s) (λ r' s'.
        After-bind _ _ (case_no line) _ (After-any _)
          (λ n _. record { kept = s'.kept; room = s'.room }))

  pub sleep-After : (line : List ℕ) (r : Run Q L) → IsSound b r → After (IsSound b) (sleep line r)
  unfolding sleep
  sleep-After line r s = After-bind _ _ (second_token line) _ (After-any _) (λ token _.
      After-bind _ _ (print (codes "Sleeping for " ++ (token ++ codes " sec\n")) r) _
        (print-After b _ r s)
        (λ r' s'. After-bind _ _ (atoi_int token) _ (After-any _) (λ n _. s')))

  received-After :
      (rc : ℕ) (r : Run Q L) (message : List ℕ) (queue : Q)
      → IsSound b r
      → After (IsSound b) (received rc r message queue)
  unfolding received fwrite
  received-After rc r message queue s =
      After-bind _ _ (memcpy_in r.ut.recv_buff 0 message) _ (memcpy_in-After _ _ _) (λ recv_buff h.
        let held : IsSound b (record r {
          ut = record r.ut {
            recv_buff = recv_buff;
            recv_buff_data_size = length message;
            queue = queue;
          };
        }) =
          record {
            kept = record {
              runs = s.kept.runs;
              sized = h.0 ∙ s.kept.sized;
              within = omega (arith, h.1, s.kept.sized);
            };
            room = s.room;
          } in
        After-if _ r.ut.ut_parser_debug _ _
          (After-bind _ _ (known (c_str recv_buff)) _ (After-any _) (λ string _.
            After-bind _ _ (print_more rc (codes "Mq Data Recvd by UT Parser : \n") _) _
              (print_more-After b rc _ _ held)
              (λ r' s'.
                After-bind _ _ (memcpy_out recv_buff 0 (length message)) _ (After-any _)
                  (λ output _. record {
                    kept = record {
                      runs = s'.kept.runs;
                      sized = s'.kept.sized;
                      within = s'.kept.within;
                    };
                    room = s'.room;
                  }))))
          held)

  timed_out-After : (rc : ℕ) (r : Run Q L) → IsSound b r → After (IsSound b) (timed_out rc r)
  unfolding timed_out
  timed_out-After rc r s =
      After-bind _ _ (print_more rc (codes "Msg Q  Time out : No Data Recvd from Backend\n") r) _
        (print_more-After b rc _ r s)
        (λ r' s'. record {
          kept = record {
            runs = s'.kept.runs;
            sized = length-replicate {0} {A = ℕ} ut_parser_buff_max_size 0;
            within = omega arith;
          };
          room = s'.room;
        })

  receive-After :
      (host : Host Q L) (rc : ℕ) (r : Run Q L) → IsSound b r → After (IsSound b) (receive host rc r)
  unfolding receive
  receive-After host rc r s = by_message (host.mq.mq_timedreceive r.ut.queue)
    where
      by_message :
          (m : Option (List ℕ × Q))
          → After (IsSound b) (elim m [
            | none ↦ timed_out rc r
            | some (message, queue) ↦ received rc r message queue
          ])
      by_message none = timed_out-After rc r s
      by_message (some m) = received-After rc r m.0 m.1 s

  wait-After :
      (host : Host Q L) (rc : ℕ) (r : Run Q L) → IsSound b r → After (IsSound b) (wait host rc r)
  unfolding wait
  wait-After host rc r s =
      After-if _ r.ut.ut_parser_debug _ _
        (After-bind _ _ (print (codes "Waiting for backend data\n") r) _ (print-After b _ r s)
          (λ r' s'. receive-After host _ r' s'))
        (receive-After host rc r s)

  pub cmd_line-After :
      (host : Host Q L) (line : List ℕ) (r : Run Q L)
      → IsSound b r
      → After (IsSound b) (cmd_line host line r)
  unfolding cmd_line cmd_token
  cmd_line-After host line r s = After-bind _ _ (second_token line) _ (After-any _) (λ token _.
      After-bind _ _ (print (codes "CMD : " ++ (token ++ 10 ∷ [])) r) _ (print-After b _ r s)
        (λ r' s'.
          After-bind _ _ (run_cmd host r' token) _ (run_cmd-After host r' token s') (λ ran k.
            After-if _ (is_complete ran.1) _ _
              (After-if _ (pattern_match token (length token) (codes "show") && ran.0.ut.tc_running)
                _ _ (wait-After host _ ran.0 k) k)
              tt)))

  verdict-After :
      (host : Host Q L) (want : Bool) (pattern : List ℕ) (r : Run Q L)
      → IsSound b r
      → After (IsSound b) (verdict host want pattern r)
  unfolding verdict
  verdict-After host want pattern r s =
      After-bind _ _ (buff_match r.ut pattern) _ (After-any _) (λ found _.
        After-bind _ _ (print _ r) _ (print-After b _ r s) (λ r' s'.
          After-bind _ _ (known r'.current_step_no) _ (After-any _)
            (λ n _. record { kept = s'.kept; room = s'.room })))

  pub check_pattern-After :
      (host : Host Q L) (want : Bool) (line : List ℕ) (r : Run Q L)
      → IsSound b r
      → After (IsSound b) (check_pattern host want line r)
  unfolding check_pattern fwrite
  check_pattern-After host want line r s =
      After-bind _ _ (read_pattern line) _ (After-any _) (λ pattern _.
        After-bind _ _ (print (pattern_label want) r) _ (print-After b _ r s) (λ r' s'.
          After-bind _ _ (print (codes "|\n") _) _
            (print-After b _ _ (record {
              kept = record { runs = s'.kept.runs; sized = s'.kept.sized; within = s'.kept.within };
              room = s'.room;
            }))
            (λ r'' s''. verdict-After host want pattern r'' s'')))

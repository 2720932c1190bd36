-- ===== src/UtParser/Answers.antt =====
-- A show command in a test file of ut_parser.c: what its handler gives to `cli_out` is what the patterns
-- are matched against.
use tcp_lib_with_command_par.Prelude.{
  ℕ, ◌+◌, ◌≤◌, ◌<◌, ◌≡◌, refl, sym, ap, ◌∙◌, inr, true, false, ◌&&◌, none, some, List, [], ◌∷◌,
  ◌++◌, Outcome, done, aborted, ◌>>=◌, length, length-append, take, arith, ltb, if◌then◌else◌,
}
use tcp_lib_with_command_par.Prelude.After.{bind-step}
use tcp_lib_with_command_par.Prelude.CString.{codes, c_str}
use tcp_lib_with_command_par.Prelude.Memory.{
  memcpy_in, memcpy_in-done, memcpy_out, memcpy_out-done, splice, take-append_self,
}
use tcp_lib_with_command_par.StringUtil.{pattern_match}
use tcp_lib_with_command_par.StringUtil.Texts.{IsText, c_str-append}
use tcp_lib_with_command_par.Cli.{Cli}
use tcp_lib_with_command_par.Parser.{complete}
use tcp_lib_with_command_par.Parser.Line.{parse_input_cmd}
use tcp_lib_with_command_par.UtParser.{
  Mq, Host, Ut, Run, ut_parser_buff_max_size, print, print_more, fwrite, cli_out, cli_out_all,
  run_cmd, known,
}
use tcp_lib_with_command_par.UtParser.Directives.{cmd_token, wait, receive, received, timed_out}
use tcp_lib_with_command_par.UtParser.Plain.{splice_start}
use tcp_lib_with_command_par.UtParser.Verdicts.{IsReady, print-done}

-- What the queue is relied on for: a message sent into the empty queue is the next received, and the
-- empty queue gives none.
pub record IsQueue {Q : Type 0} (mq : Mq Q) (empty : Q) : Type 0 where
  pub holding : List ℕ → Q
  pub sends : (m : List ℕ) → mq.mq_send empty m ≡ done (holding m)
  pub receives : (m : List ℕ) → mq.mq_timedreceive (holding m) ≡ some (m, empty)
  pub silent : mq.mq_timedreceive empty ≡ none

module _ {Q : Type 0} (mq : Mq Q) where
  cli_out-sends :
      (ut : Ut Q) (text rest : List ℕ) (q : Q)
      → ut.tc_running ≡ true
      → length text < ut_parser_buff_max_size
      → mq.mq_send ut.queue (text ++ 0 ∷ []) ≡ done q
      → cli_out mq ut (text ++ 0 ∷ rest) (length text) ≡ done (record ut { queue = q })
  unfolding cli_out
  cli_out-sends ut text rest q running short sent =
      let fits : ltb (length text) ut_parser_buff_max_size ≡ true = ground (arith, short) in
      let whole : (text ++ 0 ∷ []) ++ rest ≡ text ++ 0 ∷ rest =
        mathlib.Core.List.append_assoc text (0 ∷ []) rest in
      let size : length text + 1 ≡ length (text ++ 0 ∷ []) =
        omega (arith, length-append text (0 ∷ [])) in
      let message : memcpy_out (text ++ 0 ∷ rest) 0 (length text + 1) ≡ done (text ++ 0 ∷ []) =
        memcpy_out-done (text ++ 0 ∷ rest) 0 (length text + 1)
          (omega (arith, length-append text (0 ∷ rest)))
        ∙ ap done (
            ap (take (length text + 1)) (sym whole)
            ∙ take-append_self (text ++ 0 ∷ []) rest (length text + 1) size) in
      ap
        (λ b.
          if b
          then (if ltb (length text) ut_parser_buff_max_size
              then (do
                message ← memcpy_out (text ++ 0 ∷ rest) 0 (length text + 1)
                queue ← mq.mq_send ut.queue message
                done (record ut { queue = queue }))
              else aborted)
          else done ut)
        running
      ∙ rw (fits, message, sent) refl

module _ {Q L : Type 0} (empty : Q) where
  -- A runner that is ready for a show command.
  pub record Awaits (step_no : ℕ) (r : Run Q L) : Type 0 where
    pub room : length r.buff ≡ 128
    pub in_step : r.current_step_no ≡ some step_no
    pub tc : ℕ
    pub at_case : r.current_tc_no ≡ some tc
    pub running : r.ut.tc_running ≡ true
    pub quiet : r.ut.ut_parser_debug ≡ false
    pub sized : length r.ut.recv_buff ≡ ut_parser_buff_max_size
    pub nothing_sent : r.ut.queue ≡ empty

  -- The call has returned, with the string in the receive buffer, no message in the queue, and the
  -- results as before.
  pub record Shown (step_no : ℕ) (string : List ℕ) (r : Run Q L) (out : Outcome (Run Q L))
      : Type 0 where
    pub next : Run Q L
    pub returns : out ≡ done next
    pub ready : IsReady step_no string next
    pub emptied : next.ut.queue ≡ empty
    pub same_results : next.results ≡ r.results

module _ {Q L : Type 0} (host : Host Q L) where
  -- The command is accepted, and its handlers make these calls of `cli_out`.
  pub record Accepted (r : Run Q L) (token : List ℕ) (outs : List (List ℕ × ℕ)) : Type 0 where
    pub cli : Cli
    pub parsed : parse_input_cmd host.env host.outside r.cli token ≡ done (cli, complete)
    pub calls : host.printed r.cli token ≡ outs
    pub is_show : pattern_match token (length token) (codes "show") ≡ true

module _ {Q L : Type 0} (host : Host Q L) (empty : Q) where
  -- `run_cmd` and then the wait, for calls of `cli_out` that lead to the statics `ut`.
  pub cmd_token-wait :
      (r : Run Q L) (token : List ℕ) (outs : List (List ℕ × ℕ)) (buff : List ℕ) (ut : Ut Q)
      → (a : Accepted host r token outs)
      → print (codes "CMD : " ++ (token ++ 10 ∷ [])) r
        ≡ done (record r { buff = buff; ut = fwrite (codes "CMD : " ++ (token ++ 10 ∷ [])) r.ut })
      → cli_out_all host.mq (fwrite (codes "CMD : " ++ (token ++ 10 ∷ [])) r.ut) outs ≡ done ut
      → ut.tc_running ≡ true
      → ut.ut_parser_debug ≡ false
      → cmd_token host token r
        ≡ receive host
            (length (codes "CMD : " ++ (token ++ 10 ∷ [])))
            (record r { buff = buff; ut = ut; cli = a.cli })
  unfolding cmd_token run_cmd wait
  cmd_token-wait r token outs buff ut a printed sent running quiet =
      let text : List ℕ = codes "CMD : " ++ (token ++ 10 ∷ []) in
      let r1 : Run Q L = record r { buff = buff; ut = fwrite text r.ut } in
      let r2 : Run Q L = record r { buff = buff; ut = ut; cli = a.cli } in
      let all_sent : cli_out_all host.mq r1.ut (host.printed r.cli token) ≡ done ut =
        ap (cli_out_all host.mq r1.ut) a.calls ∙ sent in
      bind-step (print text r) r1 _ printed
      ∙ rw (a.parsed, all_sent)
          (ap (λ b. if b then wait host (length text) r2 else done r2)
              (ap (λ b. b && ut.tc_running) a.is_show ∙ running)
            ∙ ap
                (λ b.
                  if b
                  then (do
                    r' ← print (codes "Waiting for backend data\n") r2
                    receive host (length (codes "Waiting for backend data\n")) r')
                  else receive host (length text) r2)
                quiet)

  receive-some :
      (rc : ℕ) (r : Run Q L) (m : List ℕ) (q : Q)
      → host.mq.mq_timedreceive r.ut.queue ≡ some (m, q)
      → receive host rc r ≡ received rc r m q
  unfolding receive
  receive-some rc r m q e =
      ap
        (λ o. elim o [
          | none ↦ timed_out rc r
          | some (message, queue) ↦ received rc r message queue
        ])
        e

  pub receive-none :
      (rc : ℕ) (r : Run Q L)
      → host.mq.mq_timedreceive r.ut.queue ≡ none
      → receive host rc r ≡ timed_out rc r
  unfolding receive
  receive-none rc r e =
      ap
        (λ o. elim o [
          | none ↦ timed_out rc r
          | some (message, queue) ↦ received rc r message queue
        ])
        e

  abbrev holding_message : Run Q L → List ℕ → List ℕ → Q → Run Q L
  holding_message r block m q = record r {
    ut = record r.ut { recv_buff = block; recv_buff_data_size = length m; queue = q };
  }

  received-quiet :
      (rc : ℕ) (r : Run Q L) (m : List ℕ) (q : Q)
      → r.ut.ut_parser_debug ≡ false
      → length m ≤ length r.ut.recv_buff
      → received rc r m q ≡ done (holding_message r (splice r.ut.recv_buff 0 m) m q)
  unfolding received fwrite
  received-quiet rc r m q quiet fits =
      let block : List ℕ = splice r.ut.recv_buff 0 m in
      let r' : Run Q L = holding_message r block m q in
      bind-step (memcpy_in r.ut.recv_buff 0 m) block _
        (memcpy_in-done r.ut.recv_buff 0 m (omega arith))
      ∙ ap
          (λ b.
            if b
            then (do
              string ← known (c_str block)
              r'' ← print_more rc (codes "Mq Data Recvd by UT Parser : \n") r'
              output ← memcpy_out block 0 (length m)
              done (record r'' { ut = fwrite output r''.ut }))
            else done r')
          quiet

  -- A show command that is accepted in a running test case, and whose handler gives one string of fewer
  -- than 2048 bytes to `cli_out`, returns with that string in the receive buffer, where the checks that
  -- follow look for their patterns; the queue is empty again. The token has fewer than 121 bytes.
  pub cmd_token-Shown :
      (step_no : ℕ) (r : Run Q L) (token text rest : List ℕ)
      → IsQueue host.mq empty
      → Awaits empty step_no r
      → Accepted host r token ((text ++ 0 ∷ rest, length text) ∷ [])
      → IsText text
      → length text < ut_parser_buff_max_size
      → length token < 121
      → Shown empty step_no text r (cmd_token host token r)
  unfolding cli_out_all fwrite
  cmd_token-Shown step_no r token text rest q w a t short brief =
      let label : List ℕ = codes "CMD : " ++ (token ++ 10 ∷ []) in
      let m : List ℕ = text ++ 0 ∷ [] in
      let size : length m ≡ length text + 1 = omega (arith, length-append text (0 ∷ [])) in
      let (buff, printed, room) =
        print-done label r (omega (arith, length-append token (10 ∷ []))) w.room in
      let ut : Ut Q = record (fwrite label r.ut) { queue = q.holding m } in
      let sent =
        cli_out-sends host.mq (fwrite label r.ut) text rest (q.holding m) w.running short
          (ap (λ queue. host.mq.mq_send queue m) w.nothing_sent ∙ q.sends m) in
      let waiting : Run Q L = record r { buff = buff; ut = ut; cli = a.cli } in
      let block : List ℕ = splice r.ut.recv_buff 0 m in
      record {
        next = holding_message waiting block m empty;
        returns =
            cmd_token-wait r token _ buff ut a printed (bind-step _ ut _ sent) w.running w.quiet
            ∙ receive-some (length label) waiting m empty (q.receives m)
            ∙ received-quiet (length label) waiting m empty w.quiet (omega (arith, size, w.sized));
        ready = record {
          room = room;
          shows = inr (
            omega (arith, size),
            ap c_str (splice_start r.ut.recv_buff text) ∙ c_str-append text _ t,
          );
          in_step = w.in_step;
          tc = w.tc;
          at_case = w.at_case;
        };
        emptied = refl;
        same_results = refl;
      }

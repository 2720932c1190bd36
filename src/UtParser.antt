-- ===== src/UtParser.antt =====
-- The runner of test files: CommandParser/ut/utinfra/ut_parser.c. The message queue of the system and
-- the glthread list are parameters; what goes to the terminal only is left out, and the log is the
-- bytes written to `ut_log_file`.
pub mod Directives
pub mod Loop
pub mod Handler
mod Sound
mod Keeps
mod Inner
mod Invariant
mod Select
mod Isolated
mod Plain
mod Checks
mod Verdicts
mod Counting
mod Judging
mod Report
mod Answers
mod Timeout
mod ShowCase
mod Sample
mod ReportTests
mod Tests
use tcp_lib_with_command_par.Prelude.{
  ℕ, zero, suc, ◌+◌, ◌≡◌, pos, Bool, Option, none, some, List, [], ◌∷◌, ◌++◌, Outcome, done,
  aborted, undefined, ◌>>=◌, ltb, if◌then◌else◌, length,
}
use tcp_lib_with_command_par.Prelude.CString.{codes, strncmp_eq}
use tcp_lib_with_command_par.Prelude.Memory.{memcpy_in, memcpy_out}
use tcp_lib_with_command_par.Cli.{Cli}
use tcp_lib_with_command_par.Cli.Handlers.{Env}
use tcp_lib_with_command_par.Parser.{Status, decimal}
use tcp_lib_with_command_par.Parser.Line.{Outside, parse_input_cmd}

-- UT_PARSER_BUFF_MAX_SIZE
abbrev pub ut_parser_buff_max_size : ℕ
ut_parser_buff_max_size = 2048

-- `tc_result_t`
pub record TcResult : Type 0 where
  pub step_no : ℕ
  pub pass : Bool
  pub pattern_match : Bool

-- The queue of messages: a message that is sent, or a call that does not return; the oldest message,
-- or none before the time is over.
pub record Mq (Q : Type 0) : Type 0 where
  pub mq_send : Q → List ℕ → Outcome Q
  pub mq_timedreceive : Q → Option (List ℕ × Q)

-- A glthread list of results: the empty list, an element at its end, the removal of its first
-- element, and the elements that ITERATE_GLTHREAD_BEGIN visits.
pub record Glthread (L : Type 0) : Type 0 where
  pub init_glthread : L
  pub glthread_add_last : L → TcResult → L
  pub remove_first : L → L
  pub iterate : L → List TcResult

-- What the list is relied on for.
pub record IsGlthread {L : Type 0} (g : Glthread L) : Type 0 where
  pub empty : g.iterate g.init_glthread ≡ []
  pub added : (l : L) (r : TcResult) → g.iterate (g.glthread_add_last l r) ≡ g.iterate l ++ r ∷ []
  pub removed :
      (l : L) (r : TcResult) (rest : List TcResult)
      → g.iterate l ≡ r ∷ rest
      → g.iterate (g.remove_first l) ≡ rest

-- The runner's surroundings: the command line, the strings with their sizes that the handlers of a
-- line give to `cli_out`, the queue, the list, and the memory of a line that is not cleared.
pub record Host (Q L : Type 0) : Type 0 where
  pub env : Env
  pub outside : Outside
  pub printed : Cli → List ℕ → List (List ℕ × ℕ)
  pub mq : Mq Q
  pub list : Glthread L
  pub junk : ℕ → ℕ

-- The statics of the file, the log, and the queue.
pub record Ut (Q : Type 0) : Type 0 where
  pub tc_running : Bool
  pub recv_buff : List ℕ
  pub recv_buff_data_size : ℕ
  pub ut_parser_debug : Bool
  pub int_store1 : ℕ
  pub int_store2 : ℕ
  pub int_store3 : ℕ
  pub ut_log_file : List ℕ
  pub queue : Q

module _ {Q : Type 0} where
  unfoldable pub fwrite : List ℕ → Ut Q → Ut Q
  fwrite text ut = record ut { ut_log_file = ut.ut_log_file ++ text }

  unfoldable pub set_ut_debug_flag : List ℕ → Ut Q → Ut Q
  set_ut_debug_flag ut_enable_flag ut = record ut {
    ut_parser_debug = strncmp_eq ut_enable_flag (codes "enable") 6;
  }

  -- Outside a test case the string only goes to the terminal.
  unfoldable pub cli_out : Mq Q → Ut Q → List ℕ → ℕ → Outcome (Ut Q)
  cli_out mq ut buff buff_size =
      let sent : Outcome (Ut Q) = (do
        message ← memcpy_out buff 0 (buff_size + 1)
        queue ← mq.mq_send ut.queue message
        done (record ut { queue = queue })) in
      if ut.tc_running
      then (if ltb buff_size ut_parser_buff_max_size then sent else aborted)
      else done ut

  unfoldable pub cli_out_all : Mq Q → Ut Q → List (List ℕ × ℕ) → Outcome (Ut Q)
  cli_out_all mq ut [] = done ut
  cli_out_all mq ut (out ∷ rest) = do ut' ← cli_out mq ut out.0 out.1; cli_out_all mq ut' rest

-- One line of `tc_print_result`.
unfoldable pub result_text : TcResult → List ℕ
result_text r =
    (if r.pattern_match then codes "PATTERN-MATCH" else codes "PATTERN-NOT-PRESENT")
    ++ (codes "  STEP: "
        ++ (decimal (pos r.step_no)
            ++ (codes " : " ++ ((if r.pass then codes "PASS" else codes "FAIL") ++ 10 ∷ []))))

-- The counters and the text of the loop in `tc_print_result`.
pub record Tally : Type 0 where
  pub pass_cnt : ℕ
  pub fail_cnt : ℕ
  pub total_cnt : ℕ
  pub text : List ℕ

unfoldable pub count_results : Tally → List TcResult → Tally
count_results t [] = t
count_results t (r ∷ rest) =
    count_results
      (record {
        pass_cnt = if r.pass then t.pass_cnt + 1 else t.pass_cnt;
        fail_cnt = if r.pass then t.fail_cnt else t.fail_cnt + 1;
        total_cnt = t.total_cnt + 1;
        text = t.text ++ result_text r;
      })
      rest

abbrev pub no_tally : Tally
no_tally = record { pass_cnt = 0; fail_cnt = 0; total_cnt = 0; text = [] }

unfoldable pub total_text : Tally → List ℕ
total_text t =
    codes "Total TC : "
    ++ (decimal (pos t.total_cnt)
        ++ (codes "   Pass : "
            ++ (decimal (pos t.pass_cnt)
                ++ (codes "   Fail " ++ (decimal (pos t.fail_cnt) ++ 10 ∷ [])))))

module _ {L : Type 0} where
  -- What `tc_print_result` writes to the log.
  unfoldable pub tc_print_result : Glthread L → L → List ℕ
  tc_print_result g head =
      let tally = count_results no_tally (g.iterate head) in
      codes "\n****  Result ******\n" ++ (tally.text ++ total_text tally)

  unfoldable pub tc_append_result : Glthread L → L → ℕ → Bool → Bool → L
  tc_append_result g head step_no pass match =
      g.glthread_add_last head (record { step_no = step_no; pass = pass; pattern_match = match })

  -- Each round removes the node that it visits, the first that is left.
  unfoldable pub cleanup_loop : Glthread L → ℕ → L → L
  cleanup_loop g zero head = head
  cleanup_loop g (suc n) head = cleanup_loop g n (g.remove_first head)

  unfoldable pub tc_cleanup_result_list : Glthread L → L → L
  tc_cleanup_result_list g head = cleanup_loop g (length (g.iterate head)) head

-- The runner with the locals of `run_test_case`; those that are not set yet are `none`.
pub record Run (Q L : Type 0) : Type 0 where
  pub ut : Ut Q
  pub cli : Cli
  pub buff : List ℕ
  pub results : L
  pub current_tc_no : Option ℕ
  pub current_step_no : Option ℕ
  pub tc_found : Bool

-- The value of a local; one that is not set is undefined.
abbrev pub known {ℓ} : {A : Type ℓ} → Option A → Outcome A
known none = undefined
known (some a) = done a

module _ {Q L : Type 0} where
  -- `rc = sprintf(buff, ..); fwrite(buff, 1, rc, ut_log_file)`: a text that does not fit is undefined.
  unfoldable pub print : List ℕ → Run Q L → Outcome (Run Q L)
  print text r = do
    buff ← memcpy_in r.buff 0 (text ++ 0 ∷ [])
    done (record r { buff = buff; ut = fwrite text r.ut })

  -- `rc += sprintf(buff, ..)`: the text, and what follows it in the buffer.
  unfoldable pub print_more : ℕ → List ℕ → Run Q L → Outcome (Run Q L)
  print_more rc text r = do
    buff ← memcpy_in r.buff 0 (text ++ 0 ∷ [])
    written ← memcpy_out buff 0 (rc + length text)
    done (record r { buff = buff; ut = fwrite written r.ut })

  -- `parse_input_cmd` on a token, with the calls of `cli_out` that its handlers make.
  unfoldable pub run_cmd : Host Q L → Run Q L → List ℕ → Outcome (Run Q L × Status)
  run_cmd host r token = do
    ran ← parse_input_cmd host.env host.outside r.cli token
    ut ← cli_out_all host.mq r.ut (host.printed r.cli token)
    done (record r { ut = ut; cli = ran.0 }, ran.1)

-- ===== src/UtParser/Sample.antt =====
-- A file of tests, and surroundings for ut_parser.c to run it in.
use tcp_lib_with_command_par.Prelude.{
  ℕ, false, true, Option, none, some, List, [], ◌∷◌, ◌++◌, done, out_of_fuel, replicate, pos, ◌==◌,
  if◌then◌else◌,
}
use tcp_lib_with_command_par.Prelude.CString.{codes}
use tcp_lib_with_command_par.StringUtil.{init_token_array}
use tcp_lib_with_command_par.CmdTree.{Store, cmd, root, application}
use tcp_lib_with_command_par.Tlv.{blank_tlv}
use tcp_lib_with_command_par.Cli.{Cli}
use tcp_lib_with_command_par.Cli.Handlers.{Env}
use tcp_lib_with_command_par.UtParser.{Mq, Glthread, Host, Ut, TcResult, Run}
use tcp_lib_with_command_par.UtParser.Checks.{Check}
use tcp_lib_with_command_par.UtParser.Report.{end_line_raw}

-- Every parameter has the one child `show`, 40, with a handler.
abbrev pub tree : Store
tree p = record {
  kind = cmd (if p == root then codes "root" else codes "show");
  callback = some (application 1);
  ishidden = false;
  help = [];
  options = some 40 ∷ replicate 15 none;
  parent = some root;
  disp_callback = none;
  cmdcode = pos 3;
}

abbrev pub env : Env
env = record {
  junk = λ i. 7;
  fuel = 5;
  invoke = λ callback p mode cli. done cli;
  display = λ callback p cli. done cli;
  validate = λ f token. true;
  choices = λ i. pos 0;
  discarded = λ i. some (10 ∷ []);
}

abbrev pub at_root : Cli
at_root = record {
  store = tree;
  cursor = root;
  tlv_buff = record { b = replicate 256 0; size = 256; next = 0; checkpoint = 0 };
  console_name = codes "dev>";
  tokens = init_token_array;
  command_code_tlv = blank_tlv;
  cmd_recording_enabled = true;
  cons_input_buffer = [];
}

-- A queue for one message.
abbrev pub one_message : Mq (Option (List ℕ))
one_message = record {
  mq_send = λ q m. elim q [ none ↦ done (some m) | some old ↦ out_of_fuel ];
  mq_timedreceive = λ q. elim q [ none ↦ none | some m ↦ some (m, none) ];
}

abbrev pub behind_first : List TcResult → List TcResult
behind_first [] = []
behind_first (r ∷ rest) = rest

abbrev pub as_list : Glthread (List TcResult)
as_list = record {
  init_glthread = [];
  glthread_add_last = λ l r. l ++ r ∷ [];
  remove_first = behind_first;
  iterate = λ l. l;
}

abbrev pub begin_two : List ℕ
begin_two = codes ":TESTCASE-BEGIN:2\n"

abbrev pub body : List (List ℕ)
body = codes "what follows is printed\n" ∷ codes ":PRINT:hi\n" ∷ []

-- The test case 2 behind the test case 1, which holds a command that would be refused.
abbrev pub two_lines : List (List ℕ)
two_lines =
    (codes ":TESTCASE-BEGIN:1\n" ∷ [])
    ++ ((codes ":CMD:bogus\n" ∷ codes ":TESTCASE-END:\n" ∷ [])
        ++ begin_two ∷ (body ++ end_line_raw ∷ codes ":CMD:bogus\n" ∷ []))

abbrev pub host : Host (Option (List ℕ)) (List TcResult)
host = record {
  env = env;
  outside = record { file = λ name. some two_lines; run_test_case = λ file no cli. done cli };
  printed = λ cli token. (codes "port 1 up" ++ 0 ∷ [], 9) ∷ [];
  mq = one_message;
  list = as_list;
  junk = λ i. 7;
}

abbrev pub fresh : Ut (Option (List ℕ))
fresh = record {
  tc_running = false;
  recv_buff = replicate 2048 0;
  recv_buff_data_size = 0;
  ut_parser_debug = false;
  int_store1 = 0;
  int_store2 = 0;
  int_store3 = 0;
  ut_log_file = [];
  queue = none;
}

abbrev pub name : List ℕ
name = codes "f"

-- The second test case has begun, and its first step.
abbrev pub in_case : Run (Option (List ℕ)) (List TcResult)
in_case = record {
  ut = record fresh { tc_running = true };
  cli = at_root;
  buff = replicate 128 0;
  results = [];
  current_tc_no = some 2;
  current_step_no = some 4;
  tc_found = true;
}

abbrev pub port_up : List ℕ
port_up = codes "port 1 up"

abbrev pub has_data : Run (Option (List ℕ)) (List TcResult)
has_data = record in_case {
  ut = record fresh { recv_buff = port_up ++ replicate 2039 0; recv_buff_data_size = 10 };
}

abbrev pub checks : List Check
checks =
    record { want = true; pattern = codes "up" }
    ∷ record { want = false; pattern = codes "down" }
    ∷ []

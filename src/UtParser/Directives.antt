-- ===== src/UtParser/Directives.antt =====
-- CommandParser/ut/utinfra/ut_parser.c: what `run_test_case` does for a directive, given its line.
use tcp_lib_with_command_par.Prelude.{
  ℕ, ℤ, negsuc, pos, negsuc, Bool, true, false, not, ◌&&◌, none, some, List, [], ◌∷◌, ◌++◌, Outcome,
  done, aborted, undefined, ◌>>=◌, ltb, ◌==◌, if◌then◌else◌, length, get_elem?, drop, replicate,
}
use tcp_lib_with_command_par.Prelude.CString.{codes, c_str}
use tcp_lib_with_command_par.Prelude.Memory.{memcpy_in, memcpy_out}
use tcp_lib_with_command_par.StringUtil.{strtok_all, pattern_match, grep, string_fetch_integer}
use tcp_lib_with_command_par.Parser.{decimal, is_complete}
use tcp_lib_with_command_par.App.Atoi.{atoi_int}
use tcp_lib_with_command_par.App.Reading.{to_u16}
use tcp_lib_with_command_par.UtParser.{
  Host, Ut, Run, ut_parser_buff_max_size, known, print, print_more, fwrite, run_cmd,
  tc_print_result, tc_append_result, tc_cleanup_result_list,
}

-- `token = strtok(line, ":"); token = strtok(NULL, ":");`, where the token is not NULL.
unfoldable pub second_token : List ℕ → Outcome (List ℕ)
second_token line = known (get_elem? (strtok_all b':' line) 1)

-- The number of a test case, converted to `uint16_t`.
unfoldable pub case_no : List ℕ → Outcome ℕ
case_no line = do token ← second_token line; n ← atoi_int token; done (to_u16 n)

-- The tokens behind the first, with their colons.
unfoldable pub colon_tokens : List (List ℕ) → List ℕ
colon_tokens [] = []
colon_tokens (token ∷ rest) = b':' ∷ (token ++ colon_tokens rest)

abbrev pub pattern_of : List (List ℕ) → Outcome (List ℕ)
pattern_of [] = undefined
pattern_of (token ∷ rest) = done (token ++ colon_tokens rest)

-- `pattern[256]`
abbrev pub fits_pattern : List ℕ → Outcome (List ℕ)
fits_pattern pattern = if ltb (length pattern) 256 then done pattern else undefined

unfoldable pub read_pattern : List ℕ → Outcome (List ℕ)
read_pattern line = do pattern ← pattern_of (drop 1 (strtok_all b':' line)); fits_pattern pattern

-- `pattern_match(ut_parser_recv_buff, ut_parser_recv_buff_data_size, pattern)`; without data the
-- buffer is not read.
unfoldable pub buff_match : {Q : Type 0} → Ut Q → List ℕ → Outcome Bool
buff_match ut pattern = if ut.recv_buff_data_size == 0 then done false else (do
  string ← known (c_str ut.recv_buff)
  done (pattern_match string ut.recv_buff_data_size pattern))

abbrev pub pattern_label : Bool → List ℕ
pattern_label true = codes "pattern to be matched : |"
pattern_label false = codes "pattern to be not matched : |"

abbrev pub assert_nonzero : ℤ → Outcome ℤ
assert_nonzero (pos n) = if n == 0 then aborted else done (pos n)
assert_nonzero (negsuc n) = done (negsuc n)

module _ {Q L : Type 0} where
  unfoldable pub testcase_begin : List ℕ → ℕ → Run Q L → Outcome (Run Q L)
  testcase_begin file_name tc_no r = do
    r' ←
        print
          (codes "\n ***** Executing Test case : "
            ++ (file_name ++ (codes " - " ++ (decimal (pos tc_no) ++ codes " ***** \n"))))
          r
    done (record r' {
      ut = record r'.ut { tc_running = true };
      tc_found = true;
      current_tc_no = some tc_no;
    })

  unfoldable pub testcase_end : Host Q L → List ℕ → Run Q L → Outcome (Run Q L)
  testcase_end host file_name r = do
    current_tc_no ← known r.current_tc_no
    r' ←
        print
          (codes "\n ***** Test case : "
            ++ (file_name
                ++ (codes " - " ++ (decimal (pos current_tc_no) ++ codes " Finished ***** \n"))))
          r
    done (record r' {
      ut = fwrite (tc_print_result host.list r'.results) r'.ut;
      results = tc_cleanup_result_list host.list r'.results;
    })

  -- DESC, PRINT: a text with the token.
  unfoldable pub say : List ℕ → List ℕ → Run Q L → Outcome (Run Q L)
  say label line r = do token ← second_token line; print (label ++ (token ++ 10 ∷ [])) r

  unfoldable pub step : List ℕ → Run Q L → Outcome (Run Q L)
  step line r = do
    r' ← say (codes "STEP : ") line r
    step_no ← case_no line
    done (record r' { current_step_no = some step_no })

  -- `sleep(atoi(token))`
  unfoldable pub sleep : List ℕ → Run Q L → Outcome (Run Q L)
  sleep line r = do
    token ← second_token line
    r' ← print (codes "Sleeping for " ++ (token ++ codes " sec\n")) r
    n ← atoi_int token
    done r'

  -- The message that was received, with the output of `debug ut enable`.
  unfoldable pub received : ℕ → Run Q L → List ℕ → Q → Outcome (Run Q L)
  received rc r message queue = do
    recv_buff ← memcpy_in r.ut.recv_buff 0 message
    let size = length message in
        let r' : Run Q L = record r {
          ut = record r.ut { recv_buff = recv_buff; recv_buff_data_size = size; queue = queue };
        } in
        if r.ut.ut_parser_debug
        then (do
          string ← known (c_str recv_buff)
          r'' ← print_more rc (codes "Mq Data Recvd by UT Parser : \n") r'
          output ← memcpy_out recv_buff 0 size
          done (record r'' { ut = fwrite output r''.ut }))
        else done r'

  unfoldable pub timed_out : ℕ → Run Q L → Outcome (Run Q L)
  timed_out rc r = do
    r' ← print_more rc (codes "Msg Q  Time out : No Data Recvd from Backend\n") r
    done (record r' {
      ut = record r'.ut {
        recv_buff = replicate ut_parser_buff_max_size 0;
        recv_buff_data_size = 0;
      };
    })

  unfoldable pub receive : Host Q L → ℕ → Run Q L → Outcome (Run Q L)
  receive host rc r = elim (host.mq.mq_timedreceive r.ut.queue) [
    | none ↦ timed_out rc r
    | some (message, queue) ↦ received rc r message queue
  ]

  -- The wait for the output of a show command; `rc` is the length of the last text.
  unfoldable pub wait : Host Q L → ℕ → Run Q L → Outcome (Run Q L)
  wait host rc r =
      let text = codes "Waiting for backend data\n" in
      if r.ut.ut_parser_debug
      then (do r' ← print text r; receive host (length text) r')
      else receive host rc r

  unfoldable pub cmd_token : Host Q L → List ℕ → Run Q L → Outcome (Run Q L)
  cmd_token host token r = do
    let text = codes "CMD : " ++ (token ++ 10 ∷ []) in
        do
          r' ← print text r
          ran ← run_cmd host r' token
          (if is_complete ran.1
              then (if pattern_match token (length token) (codes "show") && ran.0.ut.tc_running
                  then wait host (length text) ran.0
                  else done ran.0)
              else aborted)

  unfoldable pub cmd_line : Host Q L → List ℕ → Run Q L → Outcome (Run Q L)
  cmd_line host line r = do token ← second_token line; cmd_token host token r

  -- The verdict on a pattern, `want` being whether it is to be found.
  unfoldable pub verdict : Host Q L → Bool → List ℕ → Run Q L → Outcome (Run Q L)
  verdict host want pattern r = do
    found ← buff_match r.ut pattern
    let pass = if want then found else not found in
        do
          r' ← print (if pass then codes "PASS\n" else codes "FAIL\n") r
          step_no ← known r'.current_step_no
          done (record r' { results = tc_append_result host.list r'.results step_no pass want })

  -- PATTERN-MATCH, PATTERN-NOT-MATCH
  unfoldable pub check_pattern : Host Q L → Bool → List ℕ → Run Q L → Outcome (Run Q L)
  check_pattern host want line r = do
    pattern ← read_pattern line
    r' ← print (pattern_label want) r
    r'' ← print (codes "|\n") (record r' { ut = fwrite pattern r'.ut })
    verdict host want pattern r''

  unfoldable pub grep_buff : List ℕ → Run Q L → Outcome (Run Q L)
  grep_buff line r = do
    token ← second_token line
    r' ← print (codes "Grep Pattern : " ++ (token ++ 10 ∷ [])) r
    found ← grep r'.ut.recv_buff r'.ut.recv_buff_data_size token
    string ← known (c_str found.0)
    r'' ←
        print (codes "Output After Grep : \n")
          (record r' { ut = record r'.ut { recv_buff = found.0; recv_buff_data_size = found.1 } })
    output ← memcpy_out found.0 0 found.1
    done (record r'' { ut = fwrite output r''.ut })

  -- `string_fetch_integer(..)` at an index, and the text that is printed.
  unfoldable pub fetch_at : List ℕ → ℤ → Run Q L → Outcome (Run Q L × ℕ)
  fetch_at name index r = do
    value ← string_fetch_integer r.ut.recv_buff r.ut.recv_buff_data_size index
    r' ←
        print
          (name
            ++ (codes " = "
                ++ (decimal (pos value) ++ (codes " at index " ++ (decimal index ++ 10 ∷ [])))))
          r
    done (r', value)

  -- `index = atoi(token); assert(index);`
  unfoldable pub fetch : List ℕ → List ℕ → Run Q L → Outcome (Run Q L × ℕ)
  fetch name line r = do
    token ← second_token line
    n ← atoi_int token
    index ← assert_nonzero n
    fetch_at name index r

  unfoldable pub store_int1 : List ℕ → Run Q L → Outcome (Run Q L)
  store_int1 line r = do
    read ← fetch (codes "int_store1") line r
    done (record read.0 { ut = record read.0.ut { int_store1 = read.1 } })

  unfoldable pub store_int2 : List ℕ → Run Q L → Outcome (Run Q L)
  store_int2 line r = do
    read ← fetch (codes "int_store2") line r
    done (record read.0 { ut = record read.0.ut { int_store2 = read.1 } })

  unfoldable pub store_int3 : List ℕ → Run Q L → Outcome (Run Q L)
  store_int3 line r = do
    read ← fetch (codes "int_store3") line r
    done (record read.0 { ut = record read.0.ut { int_store3 = read.1 } })

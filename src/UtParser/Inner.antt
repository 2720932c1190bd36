-- ===== src/UtParser/Inner.antt =====
-- The directives of ut_parser.c inside a test case, and the preparation of a line, keep what Sound
-- states.
use tcp_lib_with_command_par.UtParser.Loop.{is_directive, substitute, prepare, run_inner}
use tcp_lib_with_command_par.UtParser.Keeps.{
  say-After, step-After, sleep-After, cmd_line-After, check_pattern-After,
}
use tcp_lib_with_command_par.StringUtil.Replace.{replace_substring}
use tcp_lib_with_command_par.Prelude.{
  ℕ, ◌≡◌, ◌∙◌, Bool, true, false, List, [], ◌∷◌, ◌++◌, Outcome, arith, length, pos, if◌then◌else◌,
}
use tcp_lib_with_command_par.Prelude.After.{After, After-any, After-if, After-bind, memcpy_in-After}
use tcp_lib_with_command_par.Prelude.Memory.{memcpy_in, memcpy_out}
use tcp_lib_with_command_par.Prelude.CString.{codes, c_str}
use tcp_lib_with_command_par.StringUtil.{grep, string_fetch_integer}
use tcp_lib_with_command_par.App.Atoi.{atoi_int}
use tcp_lib_with_command_par.Parser.{decimal}
use tcp_lib_with_command_par.UtParser.{Host, Run, known, print, fwrite}
use tcp_lib_with_command_par.UtParser.Directives.{
  second_token, testcase_end, grep_buff, fetch_at, assert_nonzero, fetch, store_int1, store_int2,
  store_int3,
}
use tcp_lib_with_command_par.UtParser.Sound.{grep-After, IsKept, IsSound, print-After}

module _ {Q L : Type 0} (b : Bool) where
  with_ut : {r : Run Q L} → IsKept b r.ut → length r.buff ≡ 128 → IsSound b r
  with_ut k h = record { kept = k; room = h }

  grep_buff-After :
      (line : List ℕ) (r : Run Q L) → IsSound b r → After (IsSound b) (grep_buff line r)
  unfolding grep_buff fwrite
  grep_buff-After line r s = After-bind _ _ (second_token line) _ (After-any _) (λ token _.
      After-bind _ _ (print (codes "Grep Pattern : " ++ (token ++ 10 ∷ [])) r) _
        (print-After b _ r s)
        (λ r' s'.
          After-bind _ _ (grep r'.ut.recv_buff r'.ut.recv_buff_data_size token) _
            (grep-After r'.ut.recv_buff r'.ut.recv_buff_data_size token)
            (λ found h. After-bind _ _ (known (c_str found.0)) _ (After-any _) (λ string _.
              After-bind _ _ (print (codes "Output After Grep : \n") _) _
                (print-After b _ _ (record {
                  kept = record {
                    runs = s'.kept.runs;
                    sized = h.0 ∙ s'.kept.sized;
                    within = omega (arith, h.1, s'.kept.sized);
                  };
                  room = s'.room;
                }))
                (λ r'' s''.
                  After-bind _ _ (memcpy_out found.0 0 found.1) _ (After-any _) (λ output _.
                    record {
                      kept = record {
                        runs = s''.kept.runs;
                        sized = s''.kept.sized;
                        within = s''.kept.within;
                      };
                      room = s''.room;
                    }))))))

  fetch-After :
      (name line : List ℕ) (r : Run Q L)
      → IsSound b r
      → After (λ (out : Run Q L × ℕ). IsSound b out.0) (fetch name line r)
  unfolding fetch fetch_at
  fetch-After name line r s = After-bind _ _ (second_token line) _ (After-any _) (λ token _.
      After-bind _ _ (atoi_int token) _ (After-any _) (λ n _.
        After-bind _ _ (assert_nonzero n) _ (After-any _) (λ index _.
          After-bind _ _ (string_fetch_integer r.ut.recv_buff r.ut.recv_buff_data_size index) _
            (After-any _)
            (λ value _. After-bind _ _ (print _ r) _ (print-After b _ r s) (λ r' s'. s')))))

  store_int1-After :
      (line : List ℕ) (r : Run Q L) → IsSound b r → After (IsSound b) (store_int1 line r)
  unfolding store_int1
  store_int1-After line r s =
      After-bind _ _ (fetch (codes "int_store1") line r) _ (fetch-After _ line r s) (λ read k.
        record {
          kept = record { runs = k.kept.runs; sized = k.kept.sized; within = k.kept.within };
          room = k.room;
        })

  store_int2-After :
      (line : List ℕ) (r : Run Q L) → IsSound b r → After (IsSound b) (store_int2 line r)
  unfolding store_int2
  store_int2-After line r s =
      After-bind _ _ (fetch (codes "int_store2") line r) _ (fetch-After _ line r s) (λ read k.
        record {
          kept = record { runs = k.kept.runs; sized = k.kept.sized; within = k.kept.within };
          room = k.room;
        })

  store_int3-After :
      (line : List ℕ) (r : Run Q L) → IsSound b r → After (IsSound b) (store_int3 line r)
  unfolding store_int3
  store_int3-After line r s =
      After-bind _ _ (fetch (codes "int_store3") line r) _ (fetch-After _ line r s) (λ read k.
        record {
          kept = record { runs = k.kept.runs; sized = k.kept.sized; within = k.kept.within };
          room = k.room;
        })

  pub testcase_end-After :
      (host : Host Q L) (file_name : List ℕ) (r : Run Q L)
      → IsSound b r
      → After (IsSound b) (testcase_end host file_name r)
  unfolding testcase_end fwrite
  testcase_end-After host file_name r s =
      After-bind _ _ (known r.current_tc_no) _ (After-any _) (λ n _.
        After-bind _ _ (print _ r) _ (print-After b _ r s) (λ r' k. record {
          kept = record { runs = k.kept.runs; sized = k.kept.sized; within = k.kept.within };
          room = k.room;
        }))

  pub run_inner-After :
      (host : Host Q L) (line : List ℕ) (r : Run Q L)
      → IsSound b r
      → After (IsSound b) (run_inner host line r)
  unfolding run_inner
  run_inner-After host line r s =
      let on : (name : List ℕ) (x y : Outcome (Run Q L))
          → After (IsSound b) x
          → After (IsSound b) y
          → After (IsSound b) (if is_directive line name then x else y) =
        λ name x y. After-if (IsSound b) (is_directive line name) x y in
      on _ _ _ (say-After b _ line r s) (
        on _ _ _ (step-After b line r s) (
          on _ _ _ (cmd_line-After b host line r s) (
            on _ _ _ (check_pattern-After b host true line r s) (
              on _ _ _ (check_pattern-After b host false line r s) (
                on _ _ _ (sleep-After b line r s) (
                  on _ _ _ (print-After b _ r s) (
                    on _ _ _ (grep_buff-After line r s) (
                      on _ _ _ (say-After b _ line r s) (
                        on _ _ _ (store_int1-After line r s) (
                          on _ _ _ (store_int2-After line r s)
                            (on _ _ _ (store_int3-After line r s) s)))))))))))

  substitute-After :
      (store : ℕ) (name : List ℕ) (r : Run Q L) (line : List ℕ)
      → IsSound b r
      → After (λ (out : Run Q L × List ℕ). IsSound b out.0) (substitute store name r line)
  unfolding substitute
  substitute-After store name r line s =
      After-bind _ _ (memcpy_in r.buff 0 (decimal (pos store) ++ 0 ∷ [])) _ (memcpy_in-After _ _ _)
        (λ buff h.
          After-bind _ _ (replace_substring line (name ++ 0 ∷ []) buff) _ (After-any _)
            (λ line' _. record { kept = s.kept; room = h.0 ∙ s.room }))

  pub prepare-After :
      (host : Host Q L) (line : List ℕ) (r : Run Q L)
      → IsSound b r
      → After (λ (out : Run Q L × List ℕ). IsSound b out.0) (prepare host line r)
  unfolding prepare
  prepare-After host line r s =
      After-bind _ _ (substitute r.ut.int_store1 _ r _) _ (substitute-After _ _ r _ s) (λ one k.
        After-bind _ _ (substitute r.ut.int_store2 _ one.0 one.1) _ (substitute-After _ _ one.0 _ k)
          (λ two k'.
            After-bind _ _ (substitute r.ut.int_store3 _ two.0 two.1) _
              (substitute-After _ _ two.0 _ k')
              (λ three k''.
                After-bind _ _ (known (c_str three.1)) _ (After-any _) (λ string _. k''))))

-- ===== src/UtParser/Timeout.antt =====
-- A show command in a test file of ut_parser.c whose handlers give nothing to `cli_out`.
use tcp_lib_with_command_par.Prelude.{
  ℕ, ◌+◌, ◌≤◌, ◌<◌, ◌≡◌, refl, ap, ◌∙◌, inl, false, List, [], ◌∷◌, ◌++◌, undefined, length,
  length-append, take, arith, leb, replicate, dec_lt,
}
use tcp_lib_with_command_par.Prelude.CString.{codes}
use tcp_lib_with_command_par.Prelude.Memory.{
  memcpy_in, memcpy_in-done, memcpy_out, memcpy_out-done, splice, length-splice,
}
use tcp_lib_with_command_par.UtParser.{
  Host, Run, ut_parser_buff_max_size, print, print_more, fwrite, cli_out_all,
}
use tcp_lib_with_command_par.UtParser.Directives.{cmd_token, timed_out}
use tcp_lib_with_command_par.UtParser.Verdicts.{print-done}
use tcp_lib_with_command_par.UtParser.Answers.{
  IsQueue, Awaits, Accepted, Shown, cmd_token-wait, receive-none,
}

module _ {Q L : Type 0} (host : Host Q L) (empty : Q) where
  -- Nothing is sent, and the wait times out, with the local buffer still of its size.
  cmd_token-timed_out :
      (step_no : ℕ) (r : Run Q L) (token : List ℕ)
      → IsQueue host.mq empty
      → Awaits empty step_no r
      → (a : Accepted host r token []) → length token < 121
      → (buff : List ℕ) × (cmd_token host token r
          ≡ timed_out (length (codes "CMD : " ++ (token ++ 10 ∷ []))) (record r {
            buff = buff;
            ut = fwrite (codes "CMD : " ++ (token ++ 10 ∷ [])) r.ut;
            cli = a.cli;
          }))
        × (length buff ≡ 128)
  unfolding cli_out_all fwrite
  cmd_token-timed_out step_no r token q w a brief =
      let label : List ℕ = codes "CMD : " ++ (token ++ 10 ∷ []) in
      let (buff, printed, room) =
        print-done label r (omega (arith, length-append token (10 ∷ []))) w.room in
      let waiting : Run Q L = record r { buff = buff; ut = fwrite label r.ut; cli = a.cli } in
      (
        buff,
        cmd_token-wait host empty r token [] buff (fwrite label r.ut) a printed refl w.running
              w.quiet
            ∙ receive-none host empty (length label) waiting
                (ap host.mq.mq_timedreceive w.nothing_sent ∙ q.silent),
        room,
      )

  -- A show command that is accepted in a running test case and gives nothing to `cli_out` returns with an
  -- empty receive buffer, in which no pattern is found, if its token has at most 76 bytes.
  pub cmd_token-Shown_none :
      (step_no : ℕ) (r : Run Q L) (token : List ℕ)
      → IsQueue host.mq empty
      → Awaits empty step_no r
      → Accepted host r token []
      → length token ≤ 76
      → Shown empty step_no [] r (cmd_token host token r)
  unfolding timed_out print_more fwrite
  cmd_token-Shown_none step_no r token q w a brief =
      let label : List ℕ = codes "CMD : " ++ (token ++ 10 ∷ []) in
      let message : List ℕ = codes "Msg Q  Time out : No Data Recvd from Backend\n" in
      let size : length label ≡ 7 + length token = omega (arith, length-append token (10 ∷ [])) in
      let (buff, timed, room) = cmd_token-timed_out step_no r token q w a (omega arith) in
      let fits : 0 + length (message ++ 0 ∷ []) ≤ length buff = omega (arith, room) in
      let buff' : List ℕ = splice buff 0 (message ++ 0 ∷ []) in
      let room' : length buff' ≡ 128 = length-splice buff 0 (message ++ 0 ∷ []) fits ∙ room in
      let inside : 0 + (length label + length message) ≤ length buff' =
        omega (arith, size, room') in
      let written = memcpy_out-done buff' 0 (length label + length message) inside in
      record {
        next = record r {
          cli = a.cli;
          buff = buff';
          ut = record (fwrite (take (length label + length message) buff') (fwrite label r.ut)) {
            recv_buff = replicate ut_parser_buff_max_size 0;
            recv_buff_data_size = 0;
          };
        };
        returns = timed ∙ rw (memcpy_in-done buff 0 (message ++ 0 ∷ []) fits, written) refl;
        ready = record {
          room = room';
          shows = inl (refl, refl);
          in_step = w.in_step;
          tc = w.tc;
          at_case = w.at_case;
        };
        emptied = w.nothing_sent;
        same_results = refl;
      }

  memcpy_out-outside : (mem : List ℕ) (k : ℕ) → length mem < k → memcpy_out mem 0 k ≡ undefined
  unfolding memcpy_out
  memcpy_out-outside mem k h =
      let over : leb (0 + k) (length mem) ≡ false = ground (arith, h) in rw over refl

  memcpy_in-outside : (mem src : List ℕ) → length mem < length src → memcpy_in mem 0 src ≡ undefined
  unfolding memcpy_in
  memcpy_in-outside mem src h =
      let over : leb (0 + length src) (length mem) ≡ false = ground (arith, h) in rw over refl

  -- With the debug output off and nothing in the message queue, a show command that is accepted in a
  -- running test case and gives nothing to `cli_out` is undefined if its token has more than 76 bytes: the report of the time-out is written with bytes from behind the
  -- local buffer (`rc += sprintf`), or the text of the command has not fitted it.
  pub cmd_token_overlong :
      (step_no : ℕ) (r : Run Q L) (token : List ℕ)
      → IsQueue host.mq empty
      → Awaits empty step_no r
      → Accepted host r token []
      → 76 < length token
      → cmd_token host token r ≡ undefined
  unfolding timed_out print_more cmd_token print fwrite
  cmd_token_overlong step_no r token q w a long =
      let label : List ℕ = codes "CMD : " ++ (token ++ 10 ∷ []) in
      let message : List ℕ = codes "Msg Q  Time out : No Data Recvd from Backend\n" in
      let size : length label ≡ 7 + length token = omega (arith, length-append token (10 ∷ [])) in
      elim (dec_lt (length token) 121) [
        | yes brief ↦
            let (buff, timed, room) = cmd_token-timed_out step_no r token q w a brief in
            let fits : 0 + length (message ++ 0 ∷ []) ≤ length buff = omega (arith, room) in
            let buff' : List ℕ = splice buff 0 (message ++ 0 ∷ []) in
            let room' : length buff' ≡ 128 = length-splice buff 0 (message ++ 0 ∷ []) fits ∙ room in
            timed
            ∙ rw
                (
                  memcpy_in-done buff 0 (message ++ 0 ∷ []) fits,
                  memcpy_out-outside buff' (length label + length message)
                      (omega (arith, size, room')),
                )
                refl
        | no wide ↦
            let over : length r.buff < length (label ++ 0 ∷ []) =
              omega (arith, size, w.room, length-append label (0 ∷ []), wide) in
            rw (memcpy_in-outside r.buff (label ++ 0 ∷ []) over) refl
      ]

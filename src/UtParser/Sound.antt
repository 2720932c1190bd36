-- ===== src/UtParser/Sound.antt =====
-- What every directive of ut_parser.c keeps: the sizes of the two buffers, the number of bytes that
-- the receive buffer holds, and whether a test case runs.
use tcp_lib_with_command_par.Prelude.{
  ℕ, zero, suc, ◌+◌, ◌≤◌, ◌≡◌, refl, ◌∙◌, Bool, inl, inr, Bool-cases, Option, none, some, List, [],
  ◌∷◌, ◌++◌, undefined, ◌>>=◌, arith, length, take, length-append, replicate, length-replicate, ltb,
}
use tcp_lib_with_command_par.Prelude.After.{After, After-any, After-if, After-bind, memcpy_in-After}
use tcp_lib_with_command_par.Prelude.Memory.{memcpy_in, memcpy_out, splice, length-splice}
use tcp_lib_with_command_par.Prelude.CString.{c_str}
use tcp_lib_with_command_par.StringUtil.{grep, grep_loop, pattern_match, strtok_all}
use tcp_lib_with_command_par.UtParser.{
  Mq, Ut, Run, ut_parser_buff_max_size, print, print_more, fwrite, cli_out, cli_out_all,
}

-- `grep` leaves the size of its block, and returns no more than that.
grep_loop-After :
    (size rc : ℕ) (string pattern : List ℕ) (ws : List (List ℕ))
    → length string ≡ size
    → rc ≤ size
    → After (λ out. (length out.0 ≡ size) × (out.1 ≤ size)) (grep_loop string rc pattern ws)
unfolding grep_loop
grep_loop-After size rc string pattern [] h k = (h, k)
grep_loop-After size rc string pattern (w ∷ ws) h k =
    After-if (λ out. (length out.0 ≡ size) × (out.1 ≤ size)) (pattern_match w (length w) pattern)
      (do
        string' ← memcpy_in string rc (w ++ 10 ∷ 0 ∷ [])
        grep_loop string' (rc + (length w + 1)) pattern ws)
      (grep_loop string rc pattern ws)
      (After-bind _ _ (memcpy_in string rc (w ++ 10 ∷ 0 ∷ []))
        (λ s. grep_loop s (rc + (length w + 1)) pattern ws)
        (memcpy_in-After string rc (w ++ 10 ∷ 0 ∷ []))
        (λ string' fits.
          grep_loop-After size (rc + (length w + 1)) string' pattern ws (fits.0 ∙ h)
            (omega (arith, length-append w (10 ∷ 0 ∷ []), fits.1))))
      (grep_loop-After size rc string pattern ws h k)

pub grep-After :
    (string : List ℕ) (n : ℕ) (pattern : List ℕ)
    → After
        (λ out. (length out.0 ≡ length string) × (out.1 ≤ length string))
        (grep string n pattern)
unfolding grep
grep-After string zero pattern = (refl, omega arith)
grep-After string (suc n) pattern = elim (Bool-cases (ltb (length string) (suc n))) [
  | inl e ↦ rw e tt
  | inr e ↦ rw e (After-text (c_str (take (suc n) string)) (ground arith))
]
  where
    After-text :
        (text : Option (List ℕ))
        → suc n ≤ length string
        → After
            (λ out. (length out.0 ≡ length string) × (out.1 ≤ length string))
            (elim text [
              | none ↦ undefined
              | some s ↦
                  grep_loop (splice string 0 (replicate (suc n) 0)) 0 pattern (strtok_all 10 s)
            ])
    After-text none h = tt
    After-text (some s) h =
        grep_loop-After (length string) 0 (splice string 0 (replicate (suc n) 0)) pattern
          (strtok_all 10 s)
          (length-splice string 0 (replicate (suc n) 0)
            (omega (arith, length-replicate {0} {A = ℕ} n 0)))
          (omega arith)

-- The statics of the runner at work, `running` being whether a test case runs.
pub record IsKept {Q : Type 0} (running : Bool) (ut : Ut Q) : Type 0 where
  pub runs : ut.tc_running ≡ running
  pub sized : length ut.recv_buff ≡ ut_parser_buff_max_size
  pub within : ut.recv_buff_data_size ≤ ut_parser_buff_max_size

-- The runner with its local buffer.
pub record IsSound {Q L : Type 0} (running : Bool) (r : Run Q L) : Type 0 where
  pub kept : IsKept running r.ut
  pub room : length r.buff ≡ 128

module _ {Q : Type 0} (b : Bool) where
  cli_out-After :
      (mq : Mq Q) (ut : Ut Q) (buff : List ℕ) (size : ℕ)
      → IsKept b ut
      → After (IsKept b) (cli_out mq ut buff size)
  unfolding cli_out
  cli_out-After mq ut buff size k =
      After-if (IsKept b) ut.tc_running _ _
        (After-if (IsKept b) (ltb size ut_parser_buff_max_size) _ _
          (After-bind _ _ (memcpy_out buff 0 (size + 1)) _ (After-any _) (λ message _.
            After-bind _ _ (mq.mq_send ut.queue message) _ (After-any _)
              (λ queue _. record { runs = k.runs; sized = k.sized; within = k.within })))
          tt)
        k

  pub cli_out_all-After :
      (mq : Mq Q) (ut : Ut Q) (outs : List (List ℕ × ℕ))
      → IsKept b ut
      → After (IsKept b) (cli_out_all mq ut outs)
  unfolding cli_out_all
  cli_out_all-After mq ut [] k = k
  cli_out_all-After mq ut (out ∷ rest) k =
      After-bind _ _ (cli_out mq ut out.0 out.1) _ (cli_out-After mq ut out.0 out.1 k)
        (λ ut' k'. cli_out_all-After mq ut' rest k')

module _ {Q L : Type 0} (b : Bool) where
  pub print-After : (text : List ℕ) (r : Run Q L) → IsSound b r → After (IsSound b) (print text r)
  unfolding print fwrite
  print-After text r s =
      After-bind _ _ (memcpy_in r.buff 0 (text ++ 0 ∷ [])) _ (memcpy_in-After _ _ _) (λ buff h.
        record {
          kept = record { runs = s.kept.runs; sized = s.kept.sized; within = s.kept.within };
          room = h.0 ∙ s.room;
        })

  pub print_more-After :
      (rc : ℕ) (text : List ℕ) (r : Run Q L)
      → IsSound b r
      → After (IsSound b) (print_more rc text r)
  unfolding print_more fwrite
  print_more-After rc text r s =
      After-bind _ _ (memcpy_in r.buff 0 (text ++ 0 ∷ [])) _ (memcpy_in-After _ _ _) (λ buff h.
        After-bind _ _ (memcpy_out buff 0 (rc + length text)) _ (After-any _) (λ written _. record {
          kept = record { runs = s.kept.runs; sized = s.kept.sized; within = s.kept.within };
          room = h.0 ∙ s.room;
        }))

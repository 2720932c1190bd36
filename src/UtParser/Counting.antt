-- ===== src/UtParser/Counting.antt =====
-- The counters of the report of ut_parser.c, and the clearing of its list of results.
use mathlib.Core.List.{append_assoc, append-nil}
use tcp_lib_with_command_par.Prelude.CString.{codes}
use tcp_lib_with_command_par.Parser.{decimal}
use tcp_lib_with_command_par.Prelude.{
  pos, Bool, true, false, refl, sym, ap, ◌∙◌, ℕ, suc, ◌+◌, ◌≡◌, List, [], ◌∷◌, ◌++◌, length, arith,
  if◌then◌else◌,
}
use tcp_lib_with_command_par.UtParser.{
  TcResult, Glthread, IsGlthread, Tally, count_results, result_text, cleanup_loop,
}

abbrev pub passing : List TcResult → ℕ
passing [] = 0
passing (r ∷ rs) = if r.pass then suc (passing rs) else passing rs

abbrev pub failing : List TcResult → ℕ
failing [] = 0
failing (r ∷ rs) = if r.pass then failing rs else suc (failing rs)

-- The line of a result: of which step, whether the pattern was to be found, and whether it passed.
abbrev pub result_line : ℕ → Bool → Bool → List ℕ
result_line step_no true true =
    codes "PATTERN-MATCH  STEP: " ++ (decimal (pos step_no) ++ codes " : PASS\n")
result_line step_no true false =
    codes "PATTERN-MATCH  STEP: " ++ (decimal (pos step_no) ++ codes " : FAIL\n")
result_line step_no false true =
    codes "PATTERN-NOT-PRESENT  STEP: " ++ (decimal (pos step_no) ++ codes " : PASS\n")
result_line step_no false false =
    codes "PATTERN-NOT-PRESENT  STEP: " ++ (decimal (pos step_no) ++ codes " : FAIL\n")

abbrev pub result_lines : List TcResult → List ℕ
result_lines [] = []
result_lines (r ∷ rs) = result_line r.step_no r.pattern_match r.pass ++ result_lines rs

-- The last line: how many results there are, how many passed and how many failed.
abbrev pub totals : ℕ → ℕ → ℕ → List ℕ
totals total passed failed =
    codes "Total TC : "
    ++ (decimal (pos total)
        ++ (codes "   Pass : "
            ++ (decimal (pos passed)
                ++ (codes "   Fail " ++ (decimal (pos failed) ++ codes "\n")))))

result_text-line : (r : TcResult) → result_text r ≡ result_line r.step_no r.pattern_match r.pass
unfolding result_text
result_text-line r = lines r.step_no r.pattern_match r.pass
  where
    lines :
        (n : ℕ) (want pass : Bool)
        → result_text (record { step_no = n; pass = pass; pattern_match = want })
          ≡ result_line n want pass
    lines n true true = refl
    lines n true false = refl
    lines n false true = refl
    lines n false false = refl

-- What the counters and the text of a report are, from any start.
pub record IsTally (t : Tally) (rs : List TcResult) (out : Tally) : Type 0 where
  pub total : out.total_cnt ≡ t.total_cnt + length rs
  pub passed : out.pass_cnt ≡ t.pass_cnt + passing rs
  pub failed : out.fail_cnt ≡ t.fail_cnt + failing rs
  pub lines : out.text ≡ t.text ++ result_lines rs

abbrev counted : Tally → TcResult → Tally
counted t r = record {
  pass_cnt = if r.pass then t.pass_cnt + 1 else t.pass_cnt;
  fail_cnt = if r.pass then t.fail_cnt else t.fail_cnt + 1;
  total_cnt = t.total_cnt + 1;
  text = t.text ++ result_text r;
}

IsTally-cons :
    (t out : Tally) (r : TcResult) (rs : List TcResult)
    → IsTally (counted t r) rs out
    → IsTally t (r ∷ rs) out
IsTally-cons t out r rs k = record {
  total = omega (arith, k.total);
  passed = ground (arith, k.passed);
  failed = ground (arith, k.failed);
  lines =
      k.lines
      ∙ append_assoc t.text (result_text r) (result_lines rs)
      ∙ ap (λ l. t.text ++ (l ++ result_lines rs)) (result_text-line r);
}

pub count_results-IsTally : (rs : List TcResult) (t : Tally) → IsTally t rs (count_results t rs)
unfolding count_results
count_results-IsTally [] t = record {
  total = omega arith;
  passed = omega arith;
  failed = omega arith;
  lines = sym (append-nil t.text);
}
count_results-IsTally (r ∷ rs) t = IsTally-cons t _ r rs (count_results-IsTally rs (counted t r))

pub cleanup_loop-empty :
    {L : Type 0} (g : Glthread L)
    → IsGlthread g
    → (rs : List TcResult) (l : L) → g.iterate l ≡ rs
    → g.iterate (cleanup_loop g (length rs) l) ≡ []
unfolding cleanup_loop
cleanup_loop-empty g i [] l e = e
cleanup_loop-empty g i (r ∷ rs) l e =
    cleanup_loop-empty g i rs (g.remove_first l) (i.removed l r rs e)

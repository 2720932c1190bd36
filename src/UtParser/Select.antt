-- ===== src/UtParser/Select.antt =====
-- The choice of a test case by its number: CommandParser/ut/utinfra/ut_parser.c.
use tcp_lib_with_command_par.Prelude.{
  ℕ, ◌≡◌, refl, sym, ap, ◌∙◌, true, false, not, ◌&&◌, ◌||◌, ◌⊎◌, inl, inr, Option, some, List, [],
  ◌∷◌, ◌++◌, Outcome, done, undefined, aborted, out_of_fuel, ◌>>=◌, ◌==◌, if◌then◌else◌, arith,
}
use tcp_lib_with_command_par.Prelude.Memory.{memcpy_in}
use tcp_lib_with_command_par.Prelude.After.{bind-alike}
use tcp_lib_with_command_par.UtParser.{Host, Run, print}
use tcp_lib_with_command_par.UtParser.Directives.{case_no, testcase_begin, testcase_end}
use tcp_lib_with_command_par.UtParser.Loop.{
  Mode, reading, skipping, Step, go_on, stop, is_directive, begin_name, end_name, prepare, goes_on,
  enter_case, begin_line, end_line, run_directive, read_line, skip_line, one_line, run_lines,
}

-- The line begins the test case of a number.
pub record BeginsCase (n : ℕ) (line : List ℕ) : Type 0 where
  pub begins : is_directive line begin_name ≡ true
  pub numbered : case_no line ≡ done n

-- The line begins no test case, or one of another number.
abbrev pub IsOther : ℕ → List ℕ → Type 0
IsOther n line =
    (is_directive line begin_name ≡ false) ⊎ ((m : ℕ) × BeginsCase m line × ((m == n) ≡ false))

abbrev pub AllOther : ℕ → List (List ℕ) → Type 0
AllOther n [] = Unit
AllOther n (line ∷ rest) = IsOther n line × AllOther n rest

module _ {Q L : Type 0} (host : Host Q L) (file_name : List ℕ) (n : ℕ) where
  -- The lines behind, after a line or a run of lines.
  abbrev pub resume : List (List ℕ) → Step Q L → Outcome (Step Q L)
  resume rest (stop r) = done (stop r)
  resume rest (go_on mode r) = run_lines host file_name n mode rest r

  pub run_lines-cons :
      (line : List ℕ) (rest : List (List ℕ)) (mode : Mode) (r : Run Q L)
      → run_lines host file_name n mode (line ∷ rest) r
        ≡ (one_line host file_name n mode line r >>= resume rest)
  unfolding run_lines
  run_lines-cons line rest mode r = by_out (one_line host file_name n mode line r)
    where
      by_out :
          (out : Outcome (Step Q L))
          → (do
            ran ← out
            elim ran [
              | stop r' ↦ done (stop r')
              | go_on mode' r' ↦ run_lines host file_name n mode' rest r'
            ])
            ≡ (out >>= resume rest)
      by_out (done (stop r')) = refl
      by_out (done (go_on mode' r')) = refl
      by_out aborted = refl
      by_out undefined = refl
      by_out out_of_fuel = refl

  resume_append :
      (ys xs : List (List ℕ))
      → ((mode : Mode) (r : Run Q L)
          → run_lines host file_name n mode (xs ++ ys) r
            ≡ (run_lines host file_name n mode xs r >>= resume ys))
      → (out : Outcome (Step Q L))
      → (out >>= resume (xs ++ ys)) ≡ ((out >>= resume xs) >>= resume ys)
  resume_append ys xs h (done (stop r)) = refl
  resume_append ys xs h (done (go_on mode r)) = h mode r
  resume_append ys xs h aborted = refl
  resume_append ys xs h undefined = refl
  resume_append ys xs h out_of_fuel = refl

  pub run_lines-append :
      (xs ys : List (List ℕ)) (mode : Mode) (r : Run Q L)
      → run_lines host file_name n mode (xs ++ ys) r
        ≡ (run_lines host file_name n mode xs r >>= resume ys)
  run_lines-append [] ys mode r = unfold run_lines in refl
  run_lines-append (line ∷ xs) ys mode r =
      run_lines-cons line (xs ++ ys) mode r
      ∙ resume_append ys xs (λ mode' r'. run_lines-append xs ys mode' r')
          (one_line host file_name n mode line r)
      ∙ ap (λ out. out >>= resume ys) (sym (run_lines-cons line xs mode r))

  abbrev seen : Run Q L → Option ℕ → Run Q L
  seen r number = record r { current_tc_no = number }

  testcase_begin-seen :
      (number : Option ℕ) (r : Run Q L)
      → testcase_begin file_name n (seen r number) ≡ testcase_begin file_name n r
  unfolding testcase_begin print
  testcase_begin-seen number r = bind-alike (memcpy_in r.buff 0 _) _ _ _ (λ buff. refl)

  -- A line that begins the case is run, whatever was seen before.
  pub begin-run :
      (begin : List ℕ) (r : Run Q L)
      → BeginsCase n begin
      → one_line host file_name n skipping begin r ≡ goes_on (testcase_begin file_name n r)
  unfolding one_line skip_line begin_line enter_case
  begin-run begin r c =
      let same : (n == n) ≡ true = ground arith in
      let either : (n == 0 || n == n) ≡ true = ground arith in
      rw (c.begins, c.numbered, either) refl

  begin-seen :
      (begin : List ℕ) (rest : List (List ℕ)) (number : Option ℕ) (r : Run Q L)
      → BeginsCase n begin
      → run_lines host file_name n skipping (begin ∷ rest) (seen r number)
        ≡ run_lines host file_name n skipping (begin ∷ rest) r
  begin-seen begin rest number r c =
      run_lines-cons begin rest skipping (seen r number)
      ∙ ap (λ out. out >>= resume rest)
          (begin-run begin (seen r number) c
            ∙ ap goes_on (testcase_begin-seen number r)
            ∙ sym (begin-run begin r c))
      ∙ sym (run_lines-cons begin rest skipping r)

  module _ (chosen : (n == 0) ≡ false) where
    skip-other :
        (line : List ℕ) (r : Run Q L)
        → IsOther n line
        → (number : Option ℕ) × (one_line host file_name n skipping line r
            ≡ done (go_on skipping (seen r number)))
    unfolding one_line skip_line begin_line enter_case
    skip-other line r (inl e) = (r.current_tc_no, rw e refl)
    skip-other line r (inr (m, c, other)) =
        let neither : (n == 0 || m == n) ≡ false = rw chosen other in
        (some m, rw (c.begins, c.numbered, neither) refl)

    -- The lines of other test cases are skipped.
    pub run_lines-other :
        (before : List (List ℕ)) (begin : List ℕ) (rest : List (List ℕ)) (r : Run Q L)
        → AllOther n before
        → BeginsCase n begin
        → run_lines host file_name n skipping (before ++ begin ∷ rest) r
          ≡ run_lines host file_name n skipping (begin ∷ rest) r
    run_lines-other [] begin rest r others c = refl
    run_lines-other (line ∷ before) begin rest r others c =
        let (number, skipped) = skip-other line r others.0 in
        run_lines-cons line (before ++ begin ∷ rest) skipping r
        ∙ ap (λ out. out >>= resume (before ++ begin ∷ rest)) skipped
        ∙ run_lines-other before begin rest (seen r number) others.1 c
        ∙ begin-seen begin rest number r c

    -- The end of a test case ends the loop while a test case runs.
    pub end-stops :
        (line : List ℕ) (r r' : Run Q L) (text : List ℕ)
        → prepare host (b':' ∷ line) r ≡ done (r', text)
        → is_directive text begin_name ≡ false
        → is_directive text end_name ≡ true
        → ((t : Run Q L) → testcase_end host file_name r' ≡ done t → t.ut.tc_running ≡ true)
        → one_line host file_name n reading (b':' ∷ line) r
          ≡ (do t ← testcase_end host file_name r'; done (stop t))
    unfolding one_line read_line run_directive end_line
    end-stops line r r' text prepared other ends runs =
        rw (prepared, other, ends, chosen) (by_end (testcase_end host file_name r') runs)
      where
        by_end :
            (out : Outcome (Run Q L))
            → ((t : Run Q L) → out ≡ done t → t.ut.tc_running ≡ true)
            → (do t ← out; done (if not false && t.ut.tc_running then stop t else go_on reading t))
              ≡ (do t ← out; done (stop t))
        by_end (done t) h = rw (h t refl) refl
        by_end aborted h = refl
        by_end undefined h = refl
        by_end out_of_fuel h = refl

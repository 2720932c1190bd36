-- ===== src/UtParser/Verdicts.antt =====
-- The verdict of ut_parser.c on a line with a pattern.
use tcp_lib_with_command_par.Prelude.{
  ℕ, zero, suc, ◌+◌, ◌≤◌, ◌<◌, ◌≡◌, refl, ap, ◌∙◌, ◌⊎◌, inl, inr, Bool, true, false, not, some,
  List, [], ◌∷◌, ◌++◌, Outcome, done, ◌>>=◌, length, length-append, arith, ◌==◌, if◌then◌else◌,
}
use tcp_lib_with_command_par.Prelude.CString.{codes, c_str, strncmp_eq}
use tcp_lib_with_command_par.Prelude.Memory.{memcpy_in-done, splice, length-splice}
use tcp_lib_with_command_par.StringUtil.{strstr, pattern_match}
use tcp_lib_with_command_par.UtParser.{Host, Ut, Run, print, fwrite, tc_append_result, TcResult}
use tcp_lib_with_command_par.UtParser.Directives.{buff_match, verdict, pattern_label, check_pattern}
use tcp_lib_with_command_par.UtParser.Loop.{
  prepare, is_directive, goes_on, run_inner, run_directive, read_line,
}
use tcp_lib_with_command_par.UtParser.Checks.{
  Check, directive_of, line_of, IsPattern, read_pattern-line,
}

-- The receive buffer shows the string; without data it shows none.
abbrev pub Shows : {Q : Type 0} → Ut Q → List ℕ → Type 0
Shows ut string =
    ((ut.recv_buff_data_size ≡ 0) × (string ≡ []))
    ⊎ ((0 < ut.recv_buff_data_size) × (c_str ut.recv_buff ≡ some string))

-- The result of a check on a string.
abbrev pub judged : ℕ → List ℕ → Check → TcResult
judged step_no string c = record {
  step_no = step_no;
  pass = if c.want then strstr string c.pattern else not (strstr string c.pattern);
  pattern_match = c.want;
}

strstr-empty : (p : List ℕ) → 0 < length p → strstr [] p ≡ false
unfolding strstr strncmp_eq
strstr-empty [] h = elim h [ ]
strstr-empty (c ∷ p) h = refl

buff_match-strstr :
    {Q : Type 0} (ut : Ut Q) (string p : List ℕ)
    → Shows ut string
    → 0 < length p
    → buff_match ut p ≡ done (strstr string p)
unfolding buff_match
buff_match-strstr ut string p (inl (empty, none_shown)) h =
    rw (empty, none_shown, strstr-empty p h) refl
buff_match-strstr ut string p (inr (some_data, held)) h =
    let full : (ut.recv_buff_data_size == 0) ≡ false = ground (arith, some_data) in
    rw (full, held) (ap done (matched ut.recv_buff_data_size some_data))
  where
    matched : (n : ℕ) → 0 < n → pattern_match string n p ≡ strstr string p
    matched zero k = elim k [ ]
    matched (suc n) k = unfold pattern_match in refl

module _ {Q L : Type 0} where
  pub print-done :
      (text : List ℕ) (r : Run Q L)
      → length text < 128
      → length r.buff ≡ 128
      → (buff : List ℕ) × (print text r ≡ done (record r { buff = buff; ut = fwrite text r.ut }))
        × (length buff ≡ 128)
  unfolding print
  print-done text r short room =
      let fits : 0 + length (text ++ 0 ∷ []) ≤ length r.buff =
        omega (arith, length-append text (0 ∷ [])) in
      (
        splice r.buff 0 (text ++ 0 ∷ []),
        rw (memcpy_in-done r.buff 0 (text ++ 0 ∷ []) fits) refl,
        length-splice r.buff 0 (text ++ 0 ∷ []) fits ∙ room,
      )

  -- The runner in a step, with a string in its receive buffer.
  pub record IsReady (step_no : ℕ) (string : List ℕ) (r : Run Q L) : Type 0 where
    pub room : length r.buff ≡ 128
    pub shows : Shows r.ut string
    pub in_step : r.current_step_no ≡ some step_no
    pub tc : ℕ
    pub at_case : r.current_tc_no ≡ some tc

  -- The call has returned, the runner is as ready as before, and the list of results has this one more.
  pub record Adds (host : Host Q L) (step_no : ℕ) (string : List ℕ) (r : Run Q L)
      (result : TcResult) (out : Outcome (Run Q L)) : Type 0 where
    pub next : Run Q L
    pub returns : out ≡ done next
    pub ready : IsReady step_no string next
    pub added : next.results ≡ host.list.glthread_add_last r.results result

  verdict-Adds :
      (host : Host Q L) (step_no : ℕ) (string : List ℕ) (r : Run Q L) (c : Check)
      → IsReady step_no string r
      → 0 < length c.pattern
      → Adds host step_no string r (judged step_no string c) (verdict host c.want c.pattern r)
  unfolding verdict tc_append_result fwrite
  verdict-Adds host step_no string r c k h =
      let pass : Bool = (judged step_no string c).pass in
      let text : List ℕ = if pass then codes "PASS\n" else codes "FAIL\n" in
      let (buff, printed, room) = print-done text r (short pass) k.room in
      record {
        next = record r {
          buff = buff;
          ut = fwrite text r.ut;
          results = host.list.glthread_add_last r.results (judged step_no string c);
        };
        returns = rw (buff_match-strstr r.ut string c.pattern k.shows h, printed, k.in_step) refl;
        ready = record {
          room = room;
          shows = k.shows;
          in_step = k.in_step;
          tc = k.tc;
          at_case = k.at_case;
        };
        added = refl;
      }
    where
      short : (b : Bool) → length (if b then codes "PASS\n" else codes "FAIL\n") < 128
      short true = omega arith
      short false = omega arith

  pub check_pattern-Adds :
      (host : Host Q L) (step_no : ℕ) (string : List ℕ) (r : Run Q L) (c : Check)
      → IsReady step_no string r
      → IsPattern c.pattern
      → Adds host step_no string r
          (judged step_no string c)
          (check_pattern host c.want (line_of c) r)
  unfolding check_pattern fwrite
  check_pattern-Adds host step_no string r c k i =
      let (buff1, one, room1) = print-done (pattern_label c.want) r (short c.want) k.room in
      let r1 : Run Q L = record r {
        buff = buff1;
        ut = fwrite c.pattern (fwrite (pattern_label c.want) r.ut);
      } in
      let (buff2, two, room2) = print-done (codes "|\n") r1 (omega arith) room1 in
      let r2 : Run Q L = record r1 { buff = buff2; ut = fwrite (codes "|\n") r1.ut } in
      let v =
        verdict-Adds host step_no string r2 c
          (record {
            room = room2;
            shows = k.shows;
            in_step = k.in_step;
            tc = k.tc;
            at_case = k.at_case;
          })
          i.nonempty in
      record {
        next = v.next;
        returns = rw (read_pattern-line c.want c.pattern i, one, two) v.returns;
        ready = v.ready;
        added = v.added;
      }
    where
      short : (b : Bool) → length (pattern_label b) < 128
      short true = omega arith
      short false = omega arith

  pub run_directive-line :
      (host : Host Q L) (file_name : List ℕ) (n : ℕ) (want : Bool) (p : List ℕ) (r : Run Q L)
      → run_directive host file_name n (directive_of want ++ p) r
        ≡ goes_on (check_pattern host want (directive_of want ++ p) r)
  unfolding run_directive run_inner is_directive strncmp_eq
  run_directive-line host file_name n true p r = refl
  run_directive-line host file_name n false p r = refl

  pub read_line-colon :
      (host : Host Q L) (file_name : List ℕ) (n : ℕ) (want : Bool) (p : List ℕ) (r : Run Q L)
      → read_line host file_name n (directive_of want ++ p) r ≡ (do
        prepared ← prepare host (directive_of want ++ p) r
        run_directive host file_name n prepared.1 prepared.0)
  unfolding read_line
  read_line-colon host file_name n true p r = refl
  read_line-colon host file_name n false p r = refl

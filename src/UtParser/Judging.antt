-- ===== src/UtParser/Judging.antt =====
-- The lines with patterns of a test case, as ut_parser.c judges them one after the other.
use mathlib.Core.List.{append_assoc, append-nil}
use tcp_lib_with_command_par.Prelude.{
  ℕ, ◌≡◌, refl, sym, ap, ◌∙◌, ◌↔◌, inl, inr, Bool, true, false, not, Bool-cases, List, [], ◌∷◌,
  ◌++◌, map, done, ◌>>=◌, listed, arith, if◌then◌else◌,
}
use tcp_lib_with_command_par.StringUtil.{strstr}
use tcp_lib_with_command_par.StringUtil.Search.{Contains, strstr-Contains}
use tcp_lib_with_command_par.UtParser.{Host, Run, TcResult, IsGlthread}
use tcp_lib_with_command_par.UtParser.Loop.{
  reading, go_on, prepare, goes_on, run_directive, read_line, one_line, run_lines,
}
use tcp_lib_with_command_par.UtParser.Select.{resume, run_lines-cons}
use tcp_lib_with_command_par.UtParser.Plain.{prepare-Prepared}
use tcp_lib_with_command_par.UtParser.Checks.{
  Check, directive_of, line_of, IsPattern, line_of-IsText, line_of-absent,
}
use tcp_lib_with_command_par.UtParser.Verdicts.{
  judged, IsReady, check_pattern-Adds, run_directive-line, read_line-colon,
}

-- The line as it stands in the file.
abbrev pub raw : Check → List ℕ
raw c = line_of c ++ 10 ∷ []

abbrev pub AllPatterns : List Check → Type 0
AllPatterns [] = Unit
AllPatterns (c ∷ cs) = IsPattern c.pattern × AllPatterns cs

-- What a check asks for.
abbrev pub Wanted : List ℕ → Bool → List ℕ → Type 0
Wanted string true pattern = Contains string pattern
Wanted string false pattern = ¬ (Contains string pattern)

-- One result for each check, in order, which passes where the check holds.
abbrev pub Judged : ℕ → List ℕ → List Check → List TcResult → Type 0
Judged step_no string [] [] = Unit
Judged step_no string [] (r ∷ rs) = ⊥
Judged step_no string (c ∷ cs) [] = ⊥
Judged step_no string (c ∷ cs) (r ∷ rs) =
    (r.step_no ≡ step_no)
    × (r.pattern_match ≡ c.want)
    × ((r.pass ≡ true) ↔ Wanted string c.want c.pattern)
    × Judged step_no string cs rs

pass-Wanted :
    (string : List ℕ) (want : Bool) (p : List ℕ)
    → ((if want then strstr string p else not (strstr string p)) ≡ true) ↔ Wanted string want p
pass-Wanted string true p = strstr-Contains string p
pass-Wanted string false p = (absent, present)
  where
    absent : not (strstr string p) ≡ true → ¬ (Contains string p)
    absent h c = let e = (strstr-Contains string p).1 c in absurd (ground (arith, h, e))

    present : ¬ (Contains string p) → not (strstr string p) ≡ true
    present h = elim (Bool-cases (strstr string p)) [
      | inl e ↦ absurd (h ((strstr-Contains string p).0 e))
      | inr e ↦ rw e refl
    ]

pub judged-Judged :
    (step_no : ℕ) (string : List ℕ) (cs : List Check)
    → Judged step_no string cs (map (judged step_no string) cs)
judged-Judged step_no string [] = tt
judged-Judged step_no string (c ∷ cs) =
    (refl, refl, pass-Wanted string c.want c.pattern, judged-Judged step_no string cs)

module _ {Q L : Type 0} (host : Host Q L) (file_name : List ℕ) (n step_no : ℕ)
    (string : List ℕ) where
  -- A line that is judged is passed, and the list of results has its result.
  one_line-Adds :
      (r : Run Q L) (c : Check)
      → IsReady step_no string r
      → IsPattern c.pattern
      → (next : Run Q L) × (one_line host file_name n reading (raw c) r ≡ done (go_on reading next))
        × IsReady step_no string next
        × (next.results ≡ host.list.glthread_add_last r.results (judged step_no string c))
  unfolding one_line
  one_line-Adds r c k i =
      let s : List ℕ = line_of c in
      let p =
        prepare-Prepared host r s k.room (line_of-IsText c.want c.pattern i.is_text)
          (line_of-absent 10 c.want c.pattern (no_such c.want 10 refl refl) i.no_newline)
          (line_of-absent b'$' c.want c.pattern (no_such c.want b'$' refl refl) i.no_store) in
      let r1 : Run Q L = record r { buff = p.buff } in
      let a =
        check_pattern-Adds host step_no string r1 c
          (record {
            room = p.room ∙ k.room;
            shows = k.shows;
            in_step = k.in_step;
            tc = k.tc;
            at_case = k.at_case;
          })
          i in
      let colon = read_line-colon host file_name n c.want (c.pattern ++ 10 ∷ []) r in
      let line : raw c ≡ directive_of c.want ++ (c.pattern ++ 10 ∷ []) =
        append_assoc (directive_of c.want) c.pattern (10 ∷ []) in
      (
        a.next,
        ap (λ l. read_line host file_name n l r) line
            ∙ colon
            ∙ ap
                (λ l. (do
                  prepared ← prepare host l r
                  run_directive host file_name n prepared.1 prepared.0))
                (sym line)
            ∙ rw p.returns (
                run_directive-line host file_name n c.want c.pattern r1
                ∙ unfold goes_on in rw a.returns refl),
        a.ready,
        a.added,
      )
    where
      no_such :
          (want : Bool) (d : ℕ)
          → listed d (directive_of true) ≡ false
          → listed d (directive_of false) ≡ false
          → listed d (directive_of want) ≡ false
      no_such true d e f = e
      no_such false d e f = f

  -- The lines are passed, and the results of their checks are behind those that were there.
  pub record AddsAll (r : Run Q L) (cs : List Check) : Type 0 where
    pub next : Run Q L
    pub returns : run_lines host file_name n reading (map raw cs) r ≡ done (go_on reading next)
    pub ready : IsReady step_no string next
    pub listed_all :
        host.list.iterate next.results
        ≡ host.list.iterate r.results ++ map (judged step_no string) cs

  pub run_lines-AddsAll :
      (cs : List Check) (r : Run Q L)
      → IsGlthread host.list
      → IsReady step_no string r
      → AllPatterns cs
      → AddsAll r cs
  run_lines-AddsAll [] r g k i = record {
    next = r;
    returns = unfold run_lines in refl;
    ready = k;
    listed_all = sym (append-nil (host.list.iterate r.results));
  }
  run_lines-AddsAll (c ∷ cs) r g k i =
      let (r1, passed, k1, added) = one_line-Adds r c k i.0 in
      let later = run_lines-AddsAll cs r1 g k1 i.1 in
      record {
        next = later.next;
        returns =
            run_lines-cons host file_name n (raw c) (map raw cs) reading r
            ∙ ap (λ out. out >>= resume host file_name n (map raw cs)) passed
            ∙ later.returns;
        ready = later.ready;
        listed_all =
            later.listed_all
            ∙ ap (λ l. l ++ map (judged step_no string) cs)
                (ap host.list.iterate added ∙ g.added r.results (judged step_no string c))
            ∙ append_assoc (host.list.iterate r.results) (judged step_no string c ∷ [])
                (map (judged step_no string) cs);
      }

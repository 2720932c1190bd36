-- ===== src/UtParser/Checks.antt =====
-- A line of a test file with a pattern, as ut_parser.c reads it.
use tcp_lib_with_command_par.Prelude.{
  ℕ, ◌<◌, ◌≡◌, refl, ap, ◌∙◌, Bool, true, false, List, [], ◌∷◌, ◌++◌, done, length, listed, arith,
  ltb, ◌==◌,
}
use tcp_lib_with_command_par.Prelude.CString.{codes}
use tcp_lib_with_command_par.StringUtil.{strtok_all}
use tcp_lib_with_command_par.StringUtil.Texts.{IsText}
use tcp_lib_with_command_par.StringUtil.Words.{words, words_from, flush, strtok_all-words}
use tcp_lib_with_command_par.UtParser.Directives.{read_pattern, colon_tokens}

-- A pattern that is to be found or not.
pub record Check : Type 0 where
  pub want : Bool
  pub pattern : List ℕ

abbrev pub directive_of : Bool → List ℕ
directive_of true = codes ":PATTERN-MATCH:"
directive_of false = codes ":PATTERN-NOT-MATCH:"

abbrev pub line_of : Check → List ℕ
line_of c = directive_of c.want ++ c.pattern

-- A pattern that is one token of a line, and fits.
pub record IsPattern (p : List ℕ) : Type 0 where
  pub is_text : IsText p
  pub no_colon : listed b':' p ≡ false
  pub no_newline : listed 10 p ≡ false
  pub no_store : listed b'$' p ≡ false
  pub nonempty : 0 < length p
  pub short : length p < 256

pub words_from-plain :
    (d : ℕ) (w s : List ℕ) → listed d s ≡ false → words_from d w s ≡ flush (w ++ s) []
unfolding words_from
words_from-plain d w [] h = simp (mathlib.Core.List.append-nil)
words_from-plain d w (c ∷ s) h =
    let other : (c == d) ≡ false = ground arith in
    let later : listed d s ≡ false = ground arith in
    rw other (
      words_from-plain d (w ++ c ∷ []) s later
      ∙ ap (λ l. flush l []) (mathlib.Core.List.append_assoc w (c ∷ []) s))

words-line :
    (want : Bool) (p : List ℕ)
    → (name : List ℕ) × (words b':' (directive_of want ++ p) ≡ name ∷ words b':' p)
unfolding words_from
words-line true p = (codes "PATTERN-MATCH", refl)
words-line false p = (codes "PATTERN-NOT-MATCH", refl)

pub flush_one : (p : List ℕ) → 0 < length p → flush p [] ≡ p ∷ []
flush_one [] h = elim h [ ]
flush_one (c ∷ p) h = refl

pub read_pattern-line :
    (want : Bool) (p : List ℕ) → IsPattern p → read_pattern (directive_of want ++ p) ≡ done p
unfolding read_pattern colon_tokens
read_pattern-line want p i =
    let (name, named) = words-line want p in
    let one : words b':' p ≡ p ∷ [] =
      words_from-plain b':' [] p i.no_colon ∙ flush_one p i.nonempty in
    let tokens : strtok_all b':' (directive_of want ++ p) ≡ name ∷ p ∷ [] =
      strtok_all-words b':' (directive_of want ++ p) ∙ named ∙ ap (λ l. name ∷ l) one in
    let fits : ltb (length p) 256 ≡ true = ground (arith, i.short) in
    rw (tokens, mathlib.Core.List.append-nil p, fits) refl

pub line_of-IsText : (want : Bool) (p : List ℕ) → IsText p → IsText (directive_of want ++ p)
line_of-IsText true p t = ground (arith, t)
line_of-IsText false p t = ground (arith, t)

pub line_of-absent :
    (d : ℕ) (want : Bool) (p : List ℕ)
    → listed d (directive_of want) ≡ false
    → listed d p ≡ false
    → listed d (directive_of want ++ p) ≡ false
line_of-absent d want p h k = listed-append (directive_of want) h
  where
    listed-append : (l : List ℕ) → listed d l ≡ false → listed d (l ++ p) ≡ false
    listed-append [] e = k
    listed-append (c ∷ l) e = ground (arith, e, listed-append l)

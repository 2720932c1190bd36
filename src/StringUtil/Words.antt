-- ===== src/StringUtil/Words.antt =====
-- What `strtok` finds, against a definition of the words of a text by one pass over it.
use mathlib.Core.List.{append_assoc, append-nil}
use tcp_lib_with_command_par.Prelude.{
  ℕ, zero, suc, ◌≤◌, ◌≡◌, refl, sym, ap, subst, ◌∙◌, false, List, [], ◌∷◌, ◌++◌, inl, inr,
  Bool-cases, if◌then◌else◌, length, arith, ◌==◌, some,
}
use tcp_lib_with_command_par.StringUtil.{skip_delim, span_token, strtok, strtok_from, strtok_all}

abbrev pub flush : List ℕ → List (List ℕ) → List (List ℕ)
flush [] ws = ws
flush (c ∷ w) ws = (c ∷ w) ∷ ws

-- The words of a text, given the part of a word that has been read.
unfoldable pub words_from : ℕ → List ℕ → List ℕ → List (List ℕ)
words_from d word [] = flush word []
words_from d word (c ∷ s) =
    let ended = flush word (words_from d [] s) in
    let onward = words_from d (word ++ c ∷ []) s in if c == d then ended else onward

-- The longest runs of bytes other than `d`, in order.
abbrev pub words : ℕ → List ℕ → List (List ℕ)
words d s = words_from d [] s

words-skip_delim : (d : ℕ) (s : List ℕ) → words d s ≡ words d (skip_delim d s)
unfolding words_from skip_delim
words-skip_delim d [] = refl
words-skip_delim d (c ∷ s) = elim (Bool-cases (c == d)) [
  | inl e ↦ rw e (words-skip_delim d s)
  | inr e ↦ rw e (rw e refl)
]

words_from-span_token :
    (d : ℕ) (word s : List ℕ)
    → let (token, rest) = span_token d s in
      words_from d word s ≡ flush (word ++ token) (words d rest)
unfolding words_from span_token
words_from-span_token d word [] = ap (λ w. flush w []) (sym (append-nil word))
words_from-span_token d word (c ∷ s) = elim (Bool-cases (c == d)) [
  | inl e ↦ rw e (ap (λ w. flush w (words d s)) (sym (append-nil word)))
  | inr e ↦ rw e (
      words_from-span_token d (word ++ c ∷ []) s
      ∙ ap (λ w. flush w (words d (span_token d s).1))
          (append_assoc word (c ∷ []) (span_token d s).0))
]

span_token-le : (d : ℕ) (s : List ℕ) → length (span_token d s).1 ≤ length s
unfolding span_token
span_token-le d [] = omega arith
span_token-le d (c ∷ s) = ground (arith, span_token-le d s)

skip_delim-le : (d : ℕ) (s : List ℕ) → length (skip_delim d s) ≤ length s
unfolding skip_delim
skip_delim-le d [] = omega arith
skip_delim-le d (c ∷ s) = ground (arith, skip_delim-le d s)

-- After `skip_delim` a text begins with no delimiter.
abbrev StartsWord : ℕ → List ℕ → Type 0
StartsWord d [] = Unit
StartsWord d (c ∷ s) = (c == d) ≡ false

skip_delim-StartsWord : (d : ℕ) (s : List ℕ) → StartsWord d (skip_delim d s)
unfolding skip_delim
skip_delim-StartsWord d [] = tt
skip_delim-StartsWord d (c ∷ s) = elim (Bool-cases (c == d)) [
  | inl e ↦ rw e (skip_delim-StartsWord d s)
  | inr e ↦ rw e e
]

words-token :
    (d c : ℕ) (s : List ℕ)
    → (c == d) ≡ false
    → let (token, rest) = span_token d (c ∷ s) in
      (words d (c ∷ s) ≡ token ∷ words d rest) × (length rest ≤ length s)
unfolding span_token
words-token d c s e = (words_from-span_token d [] (c ∷ s) ∙ rw e refl, rw e (span_token-le d s))

strtok_from-words : (fuel d : ℕ) (s : List ℕ) → length s ≤ fuel → strtok_from fuel d s ≡ words d s
unfolding strtok_from
strtok_from-words zero d [] h = unfold words_from in refl
strtok_from-words zero d (c ∷ s) h = elim h [ ]
strtok_from-words (suc fuel) d s h = go (λ r k. strtok_from-words fuel d r k) (skip_delim d s) refl
  where
    go :
        ((r : List ℕ) → length r ≤ fuel → strtok_from fuel d r ≡ words d r)
        → (t : List ℕ) → skip_delim d s ≡ t
        → strtok_from (suc fuel) d s ≡ words d s
    go ih [] e =
        unfold strtok words_from in
        rw (e, strtok_from) (sym (words-skip_delim d s ∙ ap (words d) e))
    go ih (c ∷ t) e =
        let (step, shorter) =
          words-token d c t (subst (StartsWord d) e (skip_delim-StartsWord d s)) in
        let (token, rest) = span_token d (c ∷ t) in
        let found : strtok d s ≡ some (token, rest) = unfold strtok in rw e refl in
        let enough : length rest ≤ fuel = omega (arith, skip_delim-le d s, ap length e, shorter) in
        rw (found, strtok_from)
          (ap (λ l. token ∷ l) (ih rest enough)
            ∙ sym (words-skip_delim d s ∙ ap (words d) e ∙ step))

-- The successive calls of `strtok` return the words of the text, and the length of the text is
-- fuel enough.
pub strtok_all-words : (d : ℕ) (s : List ℕ) → strtok_all d s ≡ words d s
unfolding strtok_all
strtok_all-words d s = strtok_from-words (length s) d s (omega arith)

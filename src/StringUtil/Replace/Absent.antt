-- ===== src/StringUtil/Replace/Absent.antt =====
-- `replaceSubstring` of CommandParser/string_util.c where there is nothing to replace.
use mathlib.Core.List.{append_assoc}
use tcp_lib_with_command_par.Prelude.{
  ℕ, zero, suc, ◌+◌, ◌<◌, ◌≡◌, refl, sym, true, false, some, List, [], ◌∷◌, ◌++◌, done, ltb, ◌==◌,
  length, length-append, get_elem?, listed, arith,
}
use tcp_lib_with_command_par.StringUtil.Texts.{IsText, c_str-append}
use tcp_lib_with_command_par.StringUtil.Replace.{
  char_at, strlen, match_run, replace_loop, replace_substring,
}

get_elem?-middle : (a b : List ℕ) (x i : ℕ) → i ≡ length a → get_elem? (a ++ x ∷ b) i ≡ some x
get_elem?-middle [] b x zero h = refl
get_elem?-middle [] b x (suc i) h = absurd (omega arith)
get_elem?-middle (y ∷ a) b x zero h = absurd (omega arith)
get_elem?-middle (y ∷ a) b x (suc i) h = get_elem?-middle a b x i (omega arith)

char_at-some : (string : List ℕ) (i x : ℕ) → get_elem? string i ≡ some x → char_at string i ≡ done x
unfolding char_at
char_at-some string i x e = rw (char_at, e) refl

match_run-miss :
    (fuel : ℕ) (string sub : List ℕ) (sub_len i x c : ℕ)
    → char_at string (i + 0) ≡ done x
    → char_at (c ∷ sub) 0 ≡ done c
    → (x == c) ≡ false
    → match_run (suc fuel) string (c ∷ sub) sub_len i 0 false ≡ done (0, false)
unfolding match_run
match_run-miss fuel string sub sub_len i x c e f n = rw (match_run, e, f, n) refl

strlen-string : (s rest : List ℕ) → IsText s → strlen (s ++ 0 ∷ rest) ≡ done (length s)
unfolding strlen
strlen-string s rest t = rw (strlen, c_str-append s rest t) refl

module _ (rest sub new_str : List ℕ) (c sub_len : ℕ) where
  -- The loop with `a` behind it and `b` before it.
  replace_loop-absent :
      (fuel i n : ℕ) (a b : List ℕ)
      → i ≡ length a
      → n ≡ length a + length b
      → length b < fuel
      → listed c b ≡ false
      → replace_loop fuel (a ++ (b ++ 0 ∷ rest)) (c ∷ sub) sub_len new_str i n
        ≡ done (a ++ (b ++ 0 ∷ rest))
  unfolding replace_loop
  replace_loop-absent zero i n a b hi hn f h = elim f [ ]
  replace_loop-absent (suc fuel) i n a [] hi hn f h =
      let over : ltb i n ≡ false = ground arith in rw over refl
  replace_loop-absent (suc fuel) i n a (x ∷ b) hi hn f h =
      let onward : ltb i n ≡ true = ground arith in
      let other : (x == c) ≡ false = ground arith in
      let miss =
        match_run-miss (length (c ∷ sub)) (a ++ (x ∷ (b ++ 0 ∷ rest))) sub sub_len i x c
          (char_at-some (a ++ (x ∷ (b ++ 0 ∷ rest))) (i + 0) x
            (get_elem?-middle a (b ++ 0 ∷ rest) x (i + 0) (omega arith)))
          (char_at-some (c ∷ sub) 0 c refl) other in
      let block : a ++ (x ∷ (b ++ 0 ∷ rest)) ≡ (a ++ x ∷ []) ++ (b ++ 0 ∷ rest) =
        sym (append_assoc a (x ∷ []) (b ++ 0 ∷ rest)) in
      rw (onward, miss, block)
        (replace_loop-absent fuel (i + 1) n (a ++ x ∷ []) b
          (omega (arith, length-append a (x ∷ []))) (omega (arith, length-append a (x ∷ [])))
          (omega arith) (ground arith))

-- `replaceSubstring` leaves a string as it is that does not hold the first character of the text to
-- be replaced.
pub replace_substring-absent :
    (s rest sub after new_str new_rest : List ℕ) (c : ℕ)
    → IsText s
    → IsText (c ∷ sub)
    → IsText new_str
    → listed c s ≡ false
    → replace_substring (s ++ 0 ∷ rest) (c ∷ (sub ++ 0 ∷ after)) (new_str ++ 0 ∷ new_rest)
      ≡ done (s ++ 0 ∷ rest)
unfolding replace_substring
replace_substring-absent s rest sub after new_str new_rest c ts tc tn h =
    rw (strlen-string s rest ts, strlen-string (c ∷ sub) after tc, c_str-append new_str new_rest tn)
      (replace_loop-absent rest (sub ++ 0 ∷ after) new_str c (length (c ∷ sub)) (suc (length s)) 0
        (length s) [] s refl (omega arith) (omega arith) h)

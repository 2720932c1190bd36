-- ===== src/StringUtil/Lines.antt =====
-- `grep` and `string_fetch_integer` against filters on the words of the text.
use mathlib.Core.List.{append_assoc, append-nil}
use tcp_lib_with_command_par.Prelude.{
  ◌*◌, ◌^◌, ◌-◌, Bool, true, undefined, ◌&&◌, listed, ℕ, zero, suc, ◌+◌, ◌≤◌, ◌<◌, ◌≡◌, refl, sym,
  ap, ◌∙◌, false, List, [], ◌∷◌, ◌++◌, inl, inr, Bool-cases, if◌then◌else◌, length, arith, Option,
  none, some, take, drop, get_elem?, Outcome, done, replicate, length-append, length-replicate, ltb,
  ℤ, pos, negsuc,
}
use tcp_lib_with_command_par.Prelude.Memory.{
  splice, memcpy_in-done, take-append_self, length-splice,
}
use tcp_lib_with_command_par.Prelude.CString.{c_str, codes}
use tcp_lib_with_command_par.StringUtil.{grep, grep_loop, pattern_match}
use tcp_lib_with_command_par.StringUtil.Words.{words, strtok_all-words}

-- The lines that match, each with its newline.
unfoldable pub matching : List ℕ → List (List ℕ) → List ℕ
matching pattern [] = []
matching pattern (w ∷ ws) =
    let rest = matching pattern ws in
    if pattern_match w (length w) pattern then w ++ 10 ∷ rest else rest

-- A write at the end of the string in a block, NUL included.
splice_end :
    (acc rest w : List ℕ)
    → splice (acc ++ 0 ∷ rest) (length acc) (w ++ 10 ∷ 0 ∷ [])
      ≡ (acc ++ (w ++ 10 ∷ []))
        ++ 0 ∷ drop (length acc + length (w ++ 10 ∷ 0 ∷ [])) (acc ++ 0 ∷ rest)
unfolding splice
splice_end acc rest w =
    ap (λ l. l ++ ((w ++ 10 ∷ 0 ∷ []) ++ end)) (take-append_self acc (0 ∷ rest) (length acc) refl)
    ∙ simp (append_assoc)
  where
    end : List ℕ
    end = drop (length acc + length (w ++ 10 ∷ 0 ∷ [])) (acc ++ 0 ∷ rest)

-- The block holds the text written so far, a NUL and anything.
pub record Greps (size : ℕ) (text : List ℕ) (out : Outcome (List ℕ × ℕ)) : Type 0 where
  pub rest : List ℕ
  pub returns : out ≡ done (text ++ 0 ∷ rest, length text)
  pub same_size : length (text ++ 0 ∷ rest) ≡ size

grep_loop-Greps :
    (pattern acc rest : List ℕ) (ws : List (List ℕ))
    → length acc + length (matching pattern ws) < length (acc ++ 0 ∷ rest)
    → Greps
        (length (acc ++ 0 ∷ rest))
        (acc ++ matching pattern ws)
        (grep_loop (acc ++ 0 ∷ rest) (length acc) pattern ws)
unfolding grep_loop matching
grep_loop-Greps pattern acc rest [] h =
    rw (append-nil acc) (record { rest = rest; returns = refl; same_size = refl })
grep_loop-Greps pattern acc rest (w ∷ ws) h =
    elim (Bool-cases (pattern_match w (length w) pattern)) [
      | inr miss ↦ rw miss (grep_loop-Greps pattern acc rest ws (rw miss at h))
      | inl hit ↦
          let acc' : List ℕ = acc ++ (w ++ 10 ∷ []) in
          let rest' : List ℕ = drop (length acc + length (w ++ 10 ∷ 0 ∷ [])) (acc ++ 0 ∷ rest) in
          let k : length acc + length (w ++ 10 ∷ matching pattern ws) < length (acc ++ 0 ∷ rest) =
            rw hit at h in
          let grown : length acc' ≡ length acc + (length w + 1) =
            omega (arith, length-append acc (w ++ 10 ∷ []), length-append w (10 ∷ [])) in
          let room : length acc + length (w ++ 10 ∷ 0 ∷ []) ≤ length (acc ++ 0 ∷ rest) =
            omega
              (arith, length-append w (10 ∷ 0 ∷ []), length-append w (10 ∷ matching pattern ws)) in
          let string : splice (acc ++ 0 ∷ rest) (length acc) (w ++ 10 ∷ 0 ∷ [])
              ≡ acc' ++ 0 ∷ rest' =
            splice_end acc rest w in
          let size : length (acc ++ 0 ∷ rest) ≡ length (acc' ++ 0 ∷ rest') =
            sym (length-splice (acc ++ 0 ∷ rest) (length acc) (w ++ 10 ∷ 0 ∷ []) room)
            ∙ ap length string in
          let text : acc ++ (w ++ 10 ∷ matching pattern ws) ≡ acc' ++ matching pattern ws =
            simp (append_assoc) in
          let again : Greps (length (acc' ++ 0 ∷ rest')) (acc' ++ matching pattern ws)
              (grep_loop (acc' ++ 0 ∷ rest') (length acc') pattern ws) =
            grep_loop-Greps pattern acc' rest' ws
              (omega (arith, length-append w (10 ∷ matching pattern ws))) in
          rw
            (
              hit,
              memcpy_in-done (acc ++ 0 ∷ rest) (length acc) (w ++ 10 ∷ 0 ∷ []) room,
              string,
              ← grown,
              text,
              size,
            )
            again
    ]

-- A number has nothing but the ten digits.
unfoldable pub is_numeric : List ℕ → Bool
is_numeric [] = true
is_numeric (c ∷ w) = listed c (codes "0123456789") && is_numeric w

-- Its value, each digit by its place.
unfoldable pub place_value : List ℕ → ℕ
place_value [] = 0
place_value (c ∷ w) = (c - b'0') * 10 ^ length w + place_value w

-- The words that are numbers.
unfoldable pub numbers : List (List ℕ) → List (List ℕ)
numbers [] = []
numbers (w ∷ ws) = let rest = numbers ws in if is_numeric w then w ∷ rest else rest

-- The value of a number below 2 ^ 31; a larger one is undefined.
abbrev pub fetched : Option (List ℕ) → Outcome ℕ
fetched none = done 0
fetched (some w) = if ltb (place_value w) (2 ^ 31) then done (place_value w) else undefined

-- What the number at an index, counted from 1, is; 0 if there is none.
abbrev pub number_at : ℤ → List (List ℕ) → Outcome ℕ
number_at (pos zero) ws = done 0
number_at (pos (suc j)) ws = fetched (get_elem? (numbers ws) j)
number_at (negsuc k) ws = done 0

-- The text that a block holds within its first bytes.
pub record Holds (block : List ℕ) (n : ℕ) (text : List ℕ) : Type 0 where
  pub inside : n < length block
  pub string : c_str (take (suc n) block) ≡ some text

-- `grep` on a block that holds a text leaves the matching lines in it, each with a newline, and a
-- NUL, and returns their length, if the block has room for them.
pub grep-matching :
    (block : List ℕ) (n : ℕ) (pattern text : List ℕ)
    → Holds block n text
    → length (matching pattern (words 10 text)) < length block
    → Greps (length block) (matching pattern (words 10 text)) (grep block (suc n) pattern)
unfolding grep splice
grep-matching block n pattern text t room =
    let fits : ltb (length block) (suc n) ≡ false = ground (arith, t.inside) in
    let zeros : List ℕ = replicate (suc n) 0 in
    let size : length block ≡ length (splice block 0 zeros) =
      sym
        (length-splice block 0 zeros (omega (arith, length-replicate {0} {A = ℕ} n 0, t.inside))) in
    rw (fits, t.string, strtok_all-words 10 text, size)
      (grep_loop-Greps pattern [] (replicate n 0 ++ drop (0 + length zeros) block) (words 10 text)
        (omega (arith, size)))

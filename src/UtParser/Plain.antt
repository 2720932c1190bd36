-- ===== src/UtParser/Plain.antt =====
-- A line of a test file without stored numbers, as ut_parser.c prepares it.
use mathlib.Core.List.{append_assoc}
use tcp_lib_with_command_par.Prelude.{
  ℕ, zero, suc, ◌+◌, ◌-◌, ◌/◌, ◌%◌, ◌≤◌, ◌≡◌, refl, sym, ap, ◌∙◌, true, false, inl, inr, Bool-cases,
  List, [], ◌∷◌, ◌++◌, Outcome, done, length, drop, listed, length-append, arith, ◌==◌, ltb,
}
use tcp_lib_with_command_par.Prelude.CString.{codes}
use tcp_lib_with_command_par.Prelude.Memory.{memcpy_in-done, splice, length-splice, uninit}
use tcp_lib_with_command_par.Prelude.Blocks.{splice-middle}
use tcp_lib_with_command_par.StringUtil.{span_token}
use tcp_lib_with_command_par.StringUtil.Texts.{IsText, c_str-append}
use tcp_lib_with_command_par.StringUtil.Replace.Absent.{replace_substring-absent}
use tcp_lib_with_command_par.Parser.{decimal, decimal_digits}
use tcp_lib_with_command_par.UtParser.{Host, Run}
use tcp_lib_with_command_par.UtParser.Loop.{line_block, cut_line, substitute, prepare}

decimal_digits-IsText :
    (fuel n : ℕ) (below : List ℕ) → IsText below → IsText (decimal_digits fuel n below)
unfolding decimal_digits
decimal_digits-IsText zero n below t = t
decimal_digits-IsText (suc fuel) n below t = elim (Bool-cases (ltb n 10)) [
  | inl e ↦ rw e (omega arith, t)
  | inr e ↦ rw e (decimal_digits-IsText fuel (n / 10) ((48 + n % 10) ∷ below) (omega arith, t))
]

pub length-decimal_digits :
    (fuel n : ℕ) (below : List ℕ) → length (decimal_digits fuel n below) ≤ fuel + length below
unfolding decimal_digits
length-decimal_digits zero n below = omega arith
length-decimal_digits (suc fuel) n below = elim (Bool-cases (ltb n 10)) [
  | inl e ↦ rw e (omega arith)
  | inr e ↦ rw e (omega (arith, length-decimal_digits fuel (n / 10) ((48 + n % 10) ∷ below)))
]

-- A write at the start of a block, NUL included.
pub splice_start :
    (mem s : List ℕ) → splice mem 0 (s ++ 0 ∷ []) ≡ s ++ 0 ∷ drop (0 + length (s ++ 0 ∷ [])) mem
unfolding splice
splice_start mem s = append_assoc s (0 ∷ []) _

span_token-line : (d : ℕ) (s : List ℕ) → listed d s ≡ false → (span_token d (s ++ d ∷ [])).0 ≡ s
unfolding span_token
span_token-line d [] h = let same : (d == d) ≡ true = ground arith in rw same refl
span_token-line d (c ∷ s) h =
    let other : (c == d) ≡ false = ground arith in
    let later : listed d s ≡ false = ground arith in
    rw other (ap (λ l. c ∷ l) (span_token-line d s later))

-- The block of a line whose newline has been cut off.
cut_line-text :
    (junk : ℕ → ℕ) (s : List ℕ)
    → listed 10 s ≡ false
    → (rest : List ℕ) × (cut_line junk (s ++ 10 ∷ []) ≡ s ++ 0 ∷ rest)
unfolding cut_line line_block
cut_line-text junk s h =
    let more : List ℕ = uninit junk 0 (512 - (length (s ++ 10 ∷ []) + 1)) in
    (
      0 ∷ more,
      rw (span_token-line 10 s h) (
          ap (λ l. splice l (length s) (0 ∷ [])) (simp (append_assoc))
          ∙ splice-middle s (10 ∷ []) (0 ∷ more) (0 ∷ []) refl),
    )

module _ {Q L : Type 0} where
  -- Nothing of the runner but its local buffer has changed.
  pub record Prepared (r : Run Q L) (s : List ℕ) (out : Outcome (Run Q L × List ℕ)) : Type 0 where
    pub buff : List ℕ
    pub returns : out ≡ done (record r { buff = buff }, s)
    pub room : length buff ≡ length r.buff

  substitute-absent :
      (store : ℕ) (r : Run Q L) (name s rest : List ℕ)
      → length r.buff ≡ 128
      → IsText s
      → IsText (b'$' ∷ name)
      → listed b'$' s ≡ false
      → (buff : List ℕ) × (substitute store (b'$' ∷ name) r (s ++ 0 ∷ rest)
          ≡ done (record r { buff = buff }, s ++ 0 ∷ rest))
        × (length buff ≡ 128)
  unfolding substitute decimal
  substitute-absent store r name s rest room t tn h =
      let digits : List ℕ = decimal_digits 10 store [] in
      let fits : 0 + length (digits ++ 0 ∷ []) ≤ length r.buff =
        omega (arith, length-append digits (0 ∷ []), length-decimal_digits 10 store []) in
      let written = memcpy_in-done r.buff 0 (digits ++ 0 ∷ []) fits in
      let kept =
        replace_substring-absent s rest name [] digits (drop (0 + length (digits ++ 0 ∷ [])) r.buff)
          b'$' t tn (decimal_digits-IsText 10 store [] tt) h in
      let buff : List ℕ = digits ++ 0 ∷ drop (0 + length (digits ++ 0 ∷ [])) r.buff in
      (
        buff,
        rw (written, splice_start r.buff digits, kept) refl,
        sym (ap length (splice_start r.buff digits)) ∙ length-splice r.buff 0 _ fits ∙ room,
      )

  -- A line of text that holds no `$` is left as it is, without its newline.
  pub prepare-Prepared :
      (host : Host Q L) (r : Run Q L) (s : List ℕ)
      → length r.buff ≡ 128
      → IsText s
      → listed 10 s ≡ false
      → listed b'$' s ≡ false
      → Prepared r s (prepare host (s ++ 10 ∷ []) r)
  unfolding prepare
  prepare-Prepared host r s room t no_newline no_store =
      let (rest, cut) = cut_line-text host.junk s no_newline in
      let (buff1, one, room1) =
        substitute-absent r.ut.int_store1 r (codes "INT_STORE1") s rest room t (omega arith)
          no_store in
      let (buff2, two, room2) =
        substitute-absent r.ut.int_store2 (record r { buff = buff1 }) (codes "INT_STORE2") s rest
          room1 t (omega arith) no_store in
      let (buff3, three, room3) =
        substitute-absent r.ut.int_store3 (record r { buff = buff2 }) (codes "INT_STORE3") s rest
          room2 t (omega arith) no_store in
      record {
        buff = buff3;
        returns = rw (cut, one, two, three, c_str-append s rest t) refl;
        room = room3 ∙ sym room;
      }

-- ===== src/StringUtil/Texts.antt =====
-- Texts without NUL, and the cells of the table of CommandParser/string_util.c that hold them.
use mathlib.Core.Path.{ap₂, subst}
use tcp_lib_with_command_par.StringUtil.Trim.{string_space_trim-Trims}
use tcp_lib_with_command_par.Prelude.{
  ℕ, zero, suc, ◌+◌, ◌<◌, ◌≡◌, refl, ap, ◌∙◌, List, [], ◌∷◌, ◌++◌, inl, inr, Bool-cases, length,
  arith, ◌==◌, some, map, drop, replicate,
}
use tcp_lib_with_command_par.Prelude.Memory.{splice}
use tcp_lib_with_command_par.Prelude.CString.{c_str}
use tcp_lib_with_command_par.StringUtil.{leaf_value_holder_size, string_space_trim}
use tcp_lib_with_command_par.StringUtil.Words.{words, words_from, flush}
use tcp_lib_with_command_par.StringUtil.Table.{AllFit, cell_of}

abbrev pub IsText : List ℕ → Type 0
IsText [] = Unit
IsText (c ∷ s) = (0 < c) × IsText s

-- The words of a text without NUL have none.
abbrev pub AllText : List (List ℕ) → Type 0
AllText [] = Unit
AllText (w ∷ ws) = IsText w × AllText ws

flush-AllText : (w : List ℕ) (ws : List (List ℕ)) → IsText w → AllText ws → AllText (flush w ws)
flush-AllText [] ws t a = a
flush-AllText (c ∷ w) ws t a = (t, a)

snoc-IsText : (w : List ℕ) (c : ℕ) → IsText w → 0 < c → IsText (w ++ c ∷ [])
snoc-IsText [] c t h = (h, tt)
snoc-IsText (x ∷ w) c t h = (t.0, snoc-IsText w c t.1 h)

pub words_from-AllText : (d : ℕ) (w s : List ℕ) → IsText w → IsText s → AllText (words_from d w s)
unfolding words_from
words_from-AllText d w [] t h = flush-AllText w [] t tt
words_from-AllText d w (c ∷ s) t h = elim (Bool-cases (c == d)) [
  | inl e ↦ rw e (flush-AllText w (words d s) t (words_from-AllText d [] s tt h.1))
  | inr e ↦ rw e (words_from-AllText d (w ++ c ∷ []) s (snoc-IsText w c t h.0) h.1)
]

drop-zeros : (n m : ℕ) → n < m → (r : List ℕ) × (drop n (replicate m 0) ≡ 0 ∷ r)
drop-zeros n zero h = elim h [ ]
drop-zeros zero (suc m) h = (replicate m 0, refl)
drop-zeros (suc n) (suc m) h = drop-zeros n m (omega arith)

pub c_str-append : (w r : List ℕ) → IsText w → c_str (w ++ 0 ∷ r) ≡ some w
unfolding c_str
c_str-append [] r t = refl
c_str-append (c ∷ w) r t = rw (c_str-append w r t.1) (ground arith)

c_str-cell_of :
    (w : List ℕ) → IsText w → length w < leaf_value_holder_size → c_str (cell_of w) ≡ some w
unfolding splice
c_str-cell_of w t h =
    let (r, e) = drop-zeros (0 + length w) leaf_value_holder_size (omega arith) in
    ap (λ l. c_str (w ++ l)) e ∙ c_str-append w r t

pub c_str-cells :
    (ws : List (List ℕ)) → AllText ws → AllFit ws → map c_str (map cell_of ws) ≡ map some ws
c_str-cells [] t h = refl
c_str-cells (w ∷ ws) t h = ap₂ ◌∷◌ (c_str-cell_of w t.0 h.0) (c_str-cells ws t.1 h.1)

IsText-middle : (a b c : List ℕ) → IsText (a ++ (b ++ c)) → IsText b
IsText-middle [] [] c t = tt
IsText-middle [] (x ∷ b) c t = (t.0, IsText-middle [] b c t.1)
IsText-middle (x ∷ a) b c t = IsText-middle a b c t.1

pub string_space_trim-IsText : (s : List ℕ) → IsText s → IsText (string_space_trim s)
string_space_trim-IsText s t =
    let cut = string_space_trim-Trims s in
    IsText-middle cut.front (string_space_trim s) cut.back (subst IsText cut.splits t)

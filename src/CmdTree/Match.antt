-- ===== src/CmdTree/Match.antt =====
-- `find_matching_param` against a specification: an exact name, else the commands that begin with
-- the token, else the last leaf.
use mathlib.Core.Path.{ap₂}
use tcp_lib_with_command_par.Prelude.{
  Bool, pos, negsuc, false, ◌∷◌, ltb, if◌then◌else◌, get_elem?, ℕ, ◌<◌, ◌≡◌, refl, sym, ap, ◌∙◌,
  List, [], inl, inr, length, arith, Option, none, some, done, ℤ, Option-cases,
}
use tcp_lib_with_command_par.CmdTree.{Store, possibility_array_size}
use tcp_lib_with_command_par.CmdTree.Find.{choose, asks, find_matching_param}
use tcp_lib_with_command_par.CmdTree.Choices.{beginning, exactly, last_leaf, visible}
use tcp_lib_with_command_par.CmdTree.MatchLoop.{match_loop-Matches}

-- Among the candidates: without any the fallback, the only one, or of several the one at the index
-- that the user gives, if there is one.
abbrev pub picked : List ℕ → Option ℕ → ℤ → Option ℕ
picked candidates fallback choice =
    if ltb (length candidates) 1
    then fallback
    else if ltb (length candidates) 2
    then get_elem? candidates 0
    else elim choice [ pos k ↦ get_elem? candidates k | negsuc k ↦ none ]

choose-picked : (ps : List ℕ) (l : Option ℕ) (choice : ℤ) → choose ps l choice ≡ picked ps l choice
unfolding choose
choose-picked [] l choice = refl
choose-picked (p ∷ []) l choice = refl
choose-picked (p ∷ q ∷ ps) l choice =
    let several : ltb (length (p ∷ q ∷ ps)) 1 ≡ false = ground arith in
    let many : ltb (length (p ∷ q ∷ ps)) 2 ≡ false = ground arith in
    rw (several, many) (given choice)
  where
    given :
        (choice : ℤ)
        → choose (p ∷ q ∷ ps) l choice
          ≡ elim choice [ pos k ↦ get_elem? (p ∷ q ∷ ps) k | negsuc k ↦ none ]
    given (pos k) = refl
    given (negsuc k) = refl

-- The parameter that a token stands for among some options.
unfoldable pub matched : Store → List ℕ → List ℕ → ℤ → Option ℕ
matched store ps str choice = elim (exactly store str ps) [
  | some p ↦ some p
  | none ↦ picked (beginning store str ps) (last_leaf store ps none) choice
]

-- Whether no command has the token as its name, and several begin with it.
unfoldable pub is_ambiguous : Store → List ℕ → List ℕ → Bool
is_ambiguous store ps str = elim (exactly store str ps) [
  | some p ↦ false
  | none ↦ ltb 1 (length (beginning store str ps))
]

asks-many : (ps : List ℕ) → asks ps ≡ ltb 1 (length ps)
unfolding asks
asks-many [] = refl
asks-many (p ∷ []) = refl
asks-many (p ∷ q ∷ ps) = ground arith

-- With fewer than ten commands that begin with the token, `find_matching_param` returns the first
-- command named exactly so; else the one command that begins with the token, or the user's choice
-- among several (NULL for a choice out of range); else the last leaf; else NULL. It reads a line into
-- `cons_input_buffer` exactly if it asks the user.
pub find_matching_param-matched :
    (store : Store) (options : List (Option ℕ)) (str : List ℕ) (choice : ℤ)
    → length (beginning store str (visible options)) < possibility_array_size
    → find_matching_param store options str choice
      ≡ done (matched store (visible options) str choice, is_ambiguous store (visible options) str)
unfolding find_matching_param matched is_ambiguous choose asks
find_matching_param-matched store options str choice h =
    let m =
      match_loop-Matches store str options (record { leaf_index = none; possibilities = [] })
        (omega arith) in
    rw m.returns (elim (Option-cases (exactly store str (visible options))) [
      | inr (p, e) ↦
          ap (λ ps. done (choose ps m.result.leaf_index choice, asks ps)) (m.exact_wins p e)
          ∙ sym (rw (e, matched, is_ambiguous) refl)
      | inl e ↦
          ap₂ (λ ps l. done (choose ps l choice, asks ps)) (m.collected e) (m.leaf_kept e)
          ∙ ap₂ (λ p asked. done (p, asked))
              (choose-picked (beginning store str (visible options))
                (last_leaf store (visible options) none) choice)
              (asks-many (beginning store str (visible options)))
          ∙ sym (rw (e, matched, is_ambiguous) refl)
    ])

-- ===== src/CmdTree/Find.antt =====
-- `find_matching_param` of CommandParser/parser.c and the functions it calls in cmd_hier.c.
use tcp_lib_with_command_par.Prelude.{
  ℕ, ℤ, pos, negsuc, Bool, true, false, Option, none, some, List, [], ◌∷◌, ◌++◌, Outcome, done,
  aborted, ◌>>=◌, ltb, ◌==◌, if◌then◌else◌, length, get_elem?,
}
use tcp_lib_with_command_par.Prelude.CString.{strncmp_eq}
use tcp_lib_with_command_par.CmdTree.{possibility_array_size, Store, cmd, leaf, no_cmd}

-- `is_cmd_string_match(param, str, ex_match) == 0` for a name: whether `str` is a prefix of it.
unfoldable pub is_cmd_string_match : List ℕ → List ℕ → Bool
is_cmd_string_match name str = strncmp_eq name str (length str)

-- What the loop of `find_matching_param` knows: the last leaf and the possibilities.
pub record Found : Type 0 where
  pub leaf_index : Option ℕ
  pub possibilities : List ℕ

-- The step at a command: an exact match stops the loop, and a full array fails the assertion.
unfoldable pub match_loop : Store → List ℕ → List (Option ℕ) → Found → Outcome Found
match_loop store str [] found = done found
match_loop store str (none ∷ rest) found = done found
match_loop store str (some p ∷ rest) found =
    let as_leaf = match_loop store str rest (record found { leaf_index = some p }) in
    let skipped = match_loop store str rest found in
    let more = found.possibilities ++ p ∷ [] in
    let added = match_loop store str rest (record found { possibilities = more }) in
    let at_name : List ℕ → Outcome Found = λ name.
      if is_cmd_string_match name str
      then (if length str == length name
          then done (record found { possibilities = p ∷ [] })
          else if ltb (length more) possibility_array_size
          then added
          else aborted)
      else skipped in
    elim (store p).kind [ leaf l ↦ as_leaf | cmd name ↦ at_name name | no_cmd name ↦ at_name name ]

-- The choice among the possibilities; `choice` is the number that `scanf` reads.
unfoldable pub choose : List ℕ → Option ℕ → ℤ → Option ℕ
choose [] leaf_index choice = leaf_index
choose (p ∷ []) leaf_index choice = some p
choose (p ∷ q ∷ ps) leaf_index (negsuc k) = none
choose (p ∷ q ∷ ps) leaf_index (pos k) = get_elem? (p ∷ q ∷ ps) k

-- Whether the user is asked; then `fgets` reads the rest of the line of the number.
unfoldable pub asks : List ℕ → Bool
asks [] = false
asks (p ∷ []) = false
asks (p ∷ q ∷ ps) = true

-- The result, and whether a line has been read into `cons_input_buffer`.
unfoldable pub find_matching_param :
    Store → List (Option ℕ) → List ℕ → ℤ → Outcome (Option ℕ × Bool)
find_matching_param store options str choice = do
  found ← match_loop store str options (record { leaf_index = none; possibilities = [] })
  done (choose found.possibilities found.leaf_index choice, asks found.possibilities)

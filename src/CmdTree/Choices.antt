-- ===== src/CmdTree/Choices.antt =====
-- What a token may stand for among the options of a parameter (CommandParser/cmd_hier.c and parser.c).
use tcp_lib_with_command_par.Prelude.{
  true, ◌&&◌, ◌==◌, ℕ, Bool, false, List, [], ◌∷◌, if◌then◌else◌, Option, none, some,
}
use tcp_lib_with_command_par.Prelude.CString.{str_eq}
use tcp_lib_with_command_par.CmdTree.{Store, Kind, cmd, leaf, no_cmd}

-- The options up to the first NULL.
abbrev pub visible : List (Option ℕ) → List ℕ
visible [] = []
visible (none ∷ rest) = []
visible (some p ∷ rest) = p ∷ visible rest

-- The name of a command; a leaf has none.
abbrev pub name_of : Kind → Option (List ℕ)
name_of (cmd name) = some name
name_of (no_cmd name) = some name
name_of (leaf l) = none

abbrev pub named : (List ℕ → Bool) → Option (List ℕ) → Bool
named test none = false
named test (some name) = test name

-- Whether a text begins with another.
unfoldable pub begins_with : List ℕ → List ℕ → Bool
begins_with text [] = true
begins_with [] (c ∷ front) = false
begins_with (x ∷ text) (c ∷ front) = x == c && begins_with text front

-- The commands whose name begins with the token.
unfoldable pub beginning : Store → List ℕ → List ℕ → List ℕ
beginning store str [] = []
beginning store str (p ∷ ps) =
    let rest = beginning store str ps in
    if named (λ name. begins_with name str) (name_of (store p).kind) then p ∷ rest else rest

-- The first command whose name is the token.
unfoldable pub exactly : Store → List ℕ → List ℕ → Option ℕ
exactly store str [] = none
exactly store str (p ∷ ps) =
    let rest = exactly store str ps in
    if named (str_eq str) (name_of (store p).kind) then some p else rest

abbrev pub leaf_or : ℕ → Option (List ℕ) → Option ℕ → Option ℕ
leaf_or p none known = some p
leaf_or p (some name) known = known

-- The last leaf, or the one that is known.
unfoldable pub last_leaf : Store → List ℕ → Option ℕ → Option ℕ
last_leaf store [] known = known
last_leaf store (p ∷ ps) known = last_leaf store ps (leaf_or p (name_of (store p).kind) known)

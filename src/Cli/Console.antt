-- ===== src/Cli/Console.antt =====
-- The console name of a mode against the path to it in the command tree.
use mathlib.Core.List.{reverse_aux, reverse}
use tcp_lib_with_command_par.Prelude.{
  ℕ, zero, suc, ◌≤◌, ◌<◌, ◌≡◌, ◌≢◌, refl, false, ◌==◌, some, List, [], ◌∷◌, ◌++◌, done, aborted,
  arith, length,
}
use tcp_lib_with_command_par.Prelude.CString.{codes}
use tcp_lib_with_command_par.StringUtil.{max_cmd_tree_depth}
use tcp_lib_with_command_par.CmdTree.{Store, root}
use tcp_lib_with_command_par.Cli.{
  Cli, console_part, mode_names, name_console, build_mode_console_name, dashed,
}

-- The parts of the parameters from `p` up to a child of the root.
abbrev pub Leads : Store → ℕ → List (List ℕ) → Type 0
Leads store p [] = ⊥
Leads store p (name ∷ []) =
    (console_part (store p).kind ≡ done name) × ((store p).parent ≡ some root)
Leads store p (name ∷ above ∷ names) =
    (q : ℕ) × (console_part (store p).kind ≡ done name)
    × ((store p).parent ≡ some q)
    × (q ≢ root)
    × Leads store q (above ∷ names)

mode_names-Leads :
    (store : Store) (p rows : ℕ) (names tail : List (List ℕ))
    → Leads store p names
    → length names ≤ rows
    → mode_names rows store p tail ≡ done (reverse_aux names tail)
unfolding mode_names
mode_names-Leads store p rows [] tail l h = elim l [ ]
mode_names-Leads store p zero (name ∷ names) tail l h = elim h [ ]
mode_names-Leads store p (suc rows) (name ∷ []) tail (part, up) h = rw (part, up) refl
mode_names-Leads store p (suc rows) (name ∷ above ∷ names) tail (q, part, up, ne, l) h =
    let away : (q == root) ≡ false = ground arith in
    rw (part, up, away)
      (mode_names-Leads store q rows (above ∷ names) (name ∷ tail) l (omega arith))

mode_names-deep :
    (store : Store) (p rows : ℕ) (names tail : List (List ℕ))
    → Leads store p names
    → rows < length names
    → mode_names rows store p tail ≡ aborted
unfolding mode_names
mode_names-deep store p rows [] tail l h = elim l [ ]
mode_names-deep store p zero (name ∷ names) tail l h = refl
mode_names-deep store p (suc rows) (name ∷ []) tail l h = absurd (omega arith)
mode_names-deep store p (suc rows) (name ∷ above ∷ names) tail (q, part, up, ne, l) h =
    let away : (q == root) ≡ false = ground arith in
    rw (part, up, away) (mode_names-deep store q rows (above ∷ names) (name ∷ tail) l (omega arith))

-- For a parameter at most 16 levels below the root, and a console name with a device name that can
-- be read, `build_mode_console_name` puts the names on the path from the root to it, with dashes
-- between them, behind the device name.
pub build_mode_console_name-Leads :
    (cli named : Cli) (p : ℕ) (names : List (List ℕ))
    → p ≢ root
    → Leads cli.store p names
    → length names ≤ max_cmd_tree_depth
    → name_console cli (codes "> ") ≡ done named
    → build_mode_console_name cli p
      ≡ done (record named { console_name = named.console_name ++ dashed (reverse names) })
unfolding build_mode_console_name
build_mode_console_name-Leads cli named p names ne l h e =
    let below : (p == root) ≡ false = ground arith in
    rw (below, e, mode_names-Leads cli.store p max_cmd_tree_depth names [] l h) refl

-- For a parameter more than 16 levels below the root, and a console name with a device name that
-- can be read, the assertion of `build_mode_console_name` fails.
pub build_mode_console_name-deep :
    (cli named : Cli) (p : ℕ) (names : List (List ℕ))
    → p ≢ root
    → Leads cli.store p names
    → max_cmd_tree_depth < length names
    → name_console cli (codes "> ") ≡ done named
    → build_mode_console_name cli p ≡ aborted
unfolding build_mode_console_name
build_mode_console_name-deep cli named p names ne l h e =
    let below : (p == root) ≡ false = ground arith in
    rw (below, e, mode_names-deep cli.store p max_cmd_tree_depth names [] l h) refl

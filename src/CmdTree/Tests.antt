-- ===== src/CmdTree/Tests.antt =====
-- The theorems on the command tree at concrete stores.
use tcp_lib_with_command_par.Prelude.{
  false, ℕ, ◌≡◌, refl, List, [], ◌∷◌, ◌++◌, done, Option, none, some, pos, negsuc, arith, replicate,
  false, if◌then◌else◌, ◌==◌,
}
use tcp_lib_with_command_par.Prelude.CString.{codes, strncmp_eq}
use tcp_lib_with_command_par.CmdTree.{
  Store, Param, Kind, cmd, leaf, int, libcli_register_param, get_current_branch_hook, root, show,
  children_slots,
}
use tcp_lib_with_command_par.CmdTree.Find.{
  find_matching_param, match_loop, choose, asks, is_cmd_string_match,
}
use tcp_lib_with_command_par.CmdTree.Choices.{begins_with, beginning}
use tcp_lib_with_command_par.CmdTree.Match.{is_ambiguous, matched, find_matching_param-matched}
use tcp_lib_with_command_par.CmdTree.Register.{
  Registered, HasChildren, packed, capabilities, register-Registered,
}
use tcp_lib_with_command_par.CmdTree.Branch.{Under, branch_hook-register}

abbrev bare : Kind → Option ℕ → List (Option ℕ) → Param
bare kind parent options = record {
  kind = kind;
  callback = none;
  ishidden = false;
  help = [];
  options = options;
  parent = parent;
  disp_callback = none;
  cmdcode = negsuc 0;
}

-- `show`, `showcase` and a leaf under the root; the command 20 stands under `show`; 30 is new.
abbrev tree : Store
tree p =
    if p == root
    then bare (cmd (codes "ROOT")) none (packed (capabilities ++ show ∷ 3 ∷ 4 ∷ []) 10)
    else if p == show
    then bare (cmd (codes "show")) (some root) (packed (capabilities ++ 20 ∷ []) 12)
    else if p == 3
    then bare (cmd (codes "showcase")) (some root) (replicate 16 none)
    else if p == 4
    then bare
        (leaf (record {
          leaf_type = int;
          value_holder = [];
          user_validation_cb_fn = none;
          leaf_id = codes "N";
        }))
        (some root) (replicate 16 none)
    else if p == 20
    then bare (cmd (codes "help")) (some show) (replicate 16 none)
    else bare (cmd (codes "new")) none (replicate 16 none)

-- The exact name wins over the longer one that begins with it.
find_runs :
    find_matching_param tree (some show ∷ some 3 ∷ some 4 ∷ none ∷ []) (codes "show") (pos 1)
    ≡ done (some show, false)
unfolding find_matching_param match_loop is_cmd_string_match strncmp_eq choose asks
find_runs = refl

find_matching_param-matched_example :
    find_matching_param tree (some 3 ∷ some show ∷ some 4 ∷ none ∷ []) (codes "sh") (pos 1)
    ≡ done (
      matched tree (3 ∷ show ∷ 4 ∷ []) (codes "sh") (pos 1),
      is_ambiguous tree (3 ∷ show ∷ 4 ∷ []) (codes "sh"),
    )
unfolding beginning begins_with
find_matching_param-matched_example =
    find_matching_param-matched tree (some 3 ∷ some show ∷ some 4 ∷ none ∷ []) (codes "sh") (pos 1)
      (omega arith)

show-HasChildren : HasChildren (tree show) (20 ∷ [])
show-HasChildren = HasChildren.grown 12 (omega arith) refl

register-Registered_example :
    Registered tree show 30 (20 ∷ []) (libcli_register_param tree (some show) 30)
register-Registered_example =
    register-Registered tree show 30 (20 ∷ []) show-HasChildren (omega arith) (omega arith)

abbrev crowd : List ℕ
crowd = replicate children_slots 20

abbrev crowded : Store
crowded p = bare (cmd (codes "show")) (some root) (packed (capabilities ++ crowd) 0)

help-Under : Under tree show 20 1
help-Under = (show, refl, omega arith, (refl, refl))

abbrev registered : Registered tree show 30 (20 ∷ []) (libcli_register_param tree (some show) 30)
registered = register-Registered tree show 30 (20 ∷ []) show-HasChildren (omega arith) (omega arith)

branch_hook-register_example :
    (get_current_branch_hook 5 registered.after 30 ≡ done show)
    × (get_current_branch_hook 5 registered.after show ≡ done show)
branch_hook-register_example =
    branch_hook-register tree show 30 show 0 5 (20 ∷ []) registered refl (refl, refl) (omega arith)
      (omega arith) (omega arith)

-- ===== src/CmdTree/Negation.antt =====
-- `support_cmd_negation` of CommandParser/cmd_hier.c, the negation of the commands below a hook.
use tcp_lib_with_command_par.Prelude.{
  [], ℕ, zero, suc, ◌+◌, ℤ, Bool, true, false, Option, none, some, List, ◌∷◌, Outcome, done,
  aborted, ◌>>=◌, ◌==◌, if◌then◌else◌, replicate, set, get_elem?,
}
use tcp_lib_with_command_par.Prelude.CString.{codes}
use tcp_lib_with_command_par.CmdTree.{
  Store, write, init_param, negation, no_cmd, negate_callback, suboptions_param,
  cmd_expansion_param, children_start_index, children_slots, config, get_current_branch_hook,
}
use tcp_lib_with_command_par.CmdTree.Find.{find_matching_param}

-- The loop of `support_cmd_negation` that shares the children up to the first free slot with the
-- new parameter, whose options are `copy`.
unfoldable pub share_children :
    List (Option ℕ) → List (Option ℕ) → ℕ → ℕ → List (Option ℕ) × Option ℕ
share_children options copy i zero = (copy, none)
share_children options copy i (suc n) = elim (get_elem? options i) [
  | none ↦ (copy, some i)
  | some slot ↦ elim slot [
    | none ↦ (copy, some i)
    | some child ↦ share_children options (set copy i (some child)) (i + 1) n
  ]
]

-- Whether the parameter has a negation already: what `NEGATE_CHARACTER` matches is one.
unfoldable pub is_negation : Store → Option ℕ → Bool
is_negation store none = false
is_negation store (some p) = elim (store p).kind [ no_cmd name ↦ true | _ ↦ false ]

-- `fresh` is the address of the cleared memory that `calloc` returns.
unfoldable pub support_cmd_negation : ℕ → Store → ℕ → ℕ → ℤ → Outcome Store
support_cmd_negation fuel store at fresh choice = do
  hook ← get_current_branch_hook fuel store at
  if hook == config
      then (do
        negated ← find_matching_param store (store at).options (codes "no") choice
        if is_negation store negated.0
            then done store
            else let cleared : Store = write store fresh (record (store fresh) { help = [] }) in
              let store' : Store =
                init_param cleared fresh negation (some negate_callback)
                  (codes "Command Negation") in
              let copy =
                some suboptions_param
                ∷ some suboptions_param
                ∷ some cmd_expansion_param
                ∷ replicate children_slots none in
              let (shared, slot) =
                share_children (store at).options copy children_start_index children_slots in
              elim slot [
                | none ↦ aborted
                | some i ↦
                    let with_child : Store =
                      write store' at
                        (record (store' at) { options = set (store' at).options i (some fresh) }) in
                    done (
                      write with_child fresh
                        (record (with_child fresh) { options = shared; parent = some at }))
              ])
      else aborted

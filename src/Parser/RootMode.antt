-- ===== src/Parser/RootMode.antt =====
-- The mode character at the root, on the tree that `init_libcli` of CommandParser/cmd_hier.c builds.
use tcp_lib_with_command_par.Prelude.{
  ◌≡◌, refl, ap, ◌∙◌, subst, true, false, [], ◌∷◌, some, Outcome, done, aborted,
}
use tcp_lib_with_command_par.Prelude.CString.{codes, strncmp_eq}
use tcp_lib_with_command_par.CmdTree.{
  Store, cmd, root, mode_param, get_current_branch_hook, init_param, libcli_register_param,
  set_param_cmd_code, hide_param, with_capabilities, fill_option, free_slot, attach, command_named,
  leaf_named,
}
use tcp_lib_with_command_par.CmdTree.Find.{
  find_matching_param, match_loop, choose, asks, is_cmd_string_match,
}
use tcp_lib_with_command_par.CmdTree.Boot.{
  add, add_coded, add_hidden, init_capabilities, init_show, init_debug, init_config, init_run,
  init_do_hook, init_console, init_libcli,
}
use tcp_lib_with_command_par.Cli.{Cli, OpMode, mode_unknown}
use tcp_lib_with_command_par.Cli.Handlers.{Env, has_callback}
use tcp_lib_with_command_par.Parser.{
  build_tlv_buffer, discard_line, walk_tokens, finish_walk, dispatch, run_mode, completed,
}

-- What the parser meets when it looks the mode character up at the root.
record IsFound (store : Store) : Type 0 where
  found :
      (choice : _)
      → find_matching_param store (store root).options (codes "/") choice
        ≡ done (some mode_param, false)
  named : (store mode_param).kind ≡ cmd (codes "/")
  handled : has_callback store mode_param ≡ true

abbrev get_store : Store → Outcome Store → Store
get_store store (done s) = s
get_store store _ = store

init_libcli-IsFound : (before : Store) → IsFound (get_store before (init_libcli before))
unfolding init_libcli init_capabilities init_show init_debug init_config init_run init_do_hook
    init_console add add_coded add_hidden command_named leaf_named init_param libcli_register_param
    set_param_cmd_code hide_param with_capabilities fill_option free_slot attach find_matching_param
    match_loop choose asks is_cmd_string_match strncmp_eq has_callback
init_libcli-IsFound before = record { found = λ choice. refl; named = refl; handled = refl }

run_mode-root : (env : Env) (cli : Cli) (mode : OpMode) → run_mode env cli root mode ≡ aborted
unfolding run_mode get_current_branch_hook
run_mode-root env cli mode = refl

found-aborts :
    (env : Env) (cli : Cli)
    → cli.cursor ≡ root
    → IsFound cli.store
    → build_tlv_buffer env cli (codes "/" ∷ []) ≡ aborted
unfolding build_tlv_buffer walk_tokens finish_walk dispatch
found-aborts env cli at f =
    let read : Cli = discard_line env 0 false cli in
    rw (at, f.found (env.choices 0), f.named, f.handled)
      (ap (λ c. completed (run_mode env read c mode_unknown)) at
        ∙ ap completed (run_mode-root env read mode_unknown))

-- On the tree of `init_libcli`, whatever the memory held before it, the mode character typed alone at
-- the root is the command of that name, and its processing fails an assertion.
pub root_mode_aborts :
    (env : Env) (cli : Cli) (before : Store)
    → init_libcli before ≡ done cli.store
    → cli.cursor ≡ root
    → build_tlv_buffer env cli (codes "/" ∷ []) ≡ aborted
root_mode_aborts env cli before booted at =
    found-aborts env cli at
      (subst (λ out. IsFound (get_store before out)) booted (init_libcli-IsFound before))

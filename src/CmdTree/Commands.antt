-- ===== src/CmdTree/Commands.antt =====
-- The tree that `init_libcli` builds.
use tcp_lib_with_command_par.Prelude.{ℕ, ◌≡◌, refl, List, [], ◌∷◌, Outcome, done, replicate}
use tcp_lib_with_command_par.CmdTree.{
  Store, root, do_hook, debug_show, show, debug, config, clear, run, repeat, mode_param,
  suboptions_param, cmd_expansion_param, get_current_branch_hook, branch_hook_loop, init_param,
  libcli_register_param, set_param_cmd_code, hide_param, with_capabilities, fill_option, free_slot,
  attach, command_named, leaf_named,
}
use tcp_lib_with_command_par.CmdTree.Choices.{visible}
use tcp_lib_with_command_par.CmdTree.Boot.{
  help, show_history, no_of_commands, show_resgistered, show_resgistered_cmds, debug_ut,
  debug_ut_enable, debug_show_cmdtree, load, file_name, supportsave, supportsave_enable, terminate,
  run_ut, ut_file_path, tc_no, config_console, config_console_name, config_console_name_name, cls,
  exit_cmd, end_cmd, add, add_coded, add_hidden, init_capabilities, init_show, init_debug,
  init_config, init_run, init_do_hook, init_console, init_libcli,
}

-- The branches of the parameters in a list, with fuel for eight levels.
abbrev pub branches : Store → List ℕ → List (Outcome ℕ)
branches store [] = []
branches store (p ∷ ps) = get_current_branch_hook 8 store p ∷ branches store ps

abbrev pub below_show : List ℕ
below_show =
    show ∷ help ∷ show_history ∷ no_of_commands ∷ show_resgistered ∷ show_resgistered_cmds ∷ []

abbrev pub below_debug : List ℕ
below_debug = debug ∷ debug_ut ∷ debug_ut_enable ∷ debug_show ∷ debug_show_cmdtree ∷ []

abbrev pub below_config : List ℕ
below_config =
    config ∷ load ∷ file_name ∷ supportsave ∷ supportsave_enable ∷ config_console
    ∷ config_console_name ∷ config_console_name_name ∷ []

abbrev pub below_run : List ℕ
below_run = run ∷ terminate ∷ run_ut ∷ ut_file_path ∷ tc_no ∷ []

abbrev pub top_level : List ℕ
top_level = show ∷ debug ∷ config ∷ clear ∷ run ∷ repeat ∷ cls ∷ exit_cmd ∷ end_cmd ∷ []

-- The call has returned. The root then has its three capabilities and the nine commands of the
-- top level as options, in order, the `do` hook leads to `show`, `debug` and `clear`, and each
-- parameter registered below `show`, `debug`, `config` and `run` is found to be in that branch.
pub record IsBooted (out : Outcome Store) : Type 0 where
  pub store : Store
  pub returns : out ≡ done store
  pub at_root :
      visible (store root).options ≡ mode_param ∷ suboptions_param ∷ cmd_expansion_param ∷ top_level
  pub at_do_hook :
      visible (store do_hook).options
      ≡ suboptions_param ∷ suboptions_param ∷ cmd_expansion_param ∷ show ∷ debug ∷ clear ∷ []
  pub in_show : branches store below_show ≡ replicate 6 (done show)
  pub in_debug : branches store below_debug ≡ replicate 5 (done debug)
  pub in_config : branches store below_config ≡ replicate 8 (done config)
  pub in_run : branches store below_run ≡ replicate 5 (done run)

abbrev get_store : Store → Outcome Store → Store
get_store store (done s) = s
get_store store _ = store

-- Whatever the memory holds before, `init_libcli` returns with the tree of `IsBooted`.
pub init_libcli-IsBooted : (store : Store) → IsBooted (init_libcli store)
unfolding init_libcli init_capabilities init_show init_debug init_config init_run init_do_hook
    init_console add add_coded add_hidden command_named leaf_named init_param libcli_register_param
    set_param_cmd_code hide_param with_capabilities fill_option free_slot attach
    get_current_branch_hook branch_hook_loop
init_libcli-IsBooted store = record {
  store = get_store store (init_libcli store);
  returns = refl;
  at_root = refl;
  at_do_hook = refl;
  in_show = refl;
  in_debug = refl;
  in_config = refl;
  in_run = refl;
}

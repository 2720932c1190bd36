-- ===== src/App/Commands.antt =====
-- The tree of commands with those of the application (src/main.cpp) added to the library's.
use tcp_lib_with_command_par.Prelude.{
  ℕ, ℤ, ◌≡◌, refl, List, [], ◌∷◌, ◌++◌, Outcome, done, ◌>>=◌, replicate,
}
use tcp_lib_with_command_par.Prelude.CString.{strncmp_eq}
use tcp_lib_with_command_par.CmdTree.{
  Store, show, config, mode_param, suboptions_param, cmd_expansion_param, get_current_branch_hook,
  branch_hook_loop, init_param, libcli_register_param, set_param_cmd_code, hide_param,
  with_capabilities, fill_option, free_slot, attach, command_named, leaf_named,
}
use tcp_lib_with_command_par.CmdTree.Find.{
  find_matching_param, match_loop, choose, asks, is_cmd_string_match,
}
use tcp_lib_with_command_par.CmdTree.Negation.{share_children, is_negation, support_cmd_negation}
use tcp_lib_with_command_par.CmdTree.Choices.{visible}
use tcp_lib_with_command_par.CmdTree.Boot.{
  init_capabilities, init_show, init_debug, init_config, init_run, init_do_hook, init_console,
  init_libcli, add, add_coded, add_hidden, load, supportsave, config_console,
}
use tcp_lib_with_command_par.CmdTree.Commands.{branches}
use tcp_lib_with_command_par.App.Tree.{
  tcp_server, server_name, connect, remote_machine_addr, remote_machine_port, dis_conn_accept,
  disable_client_listen, tcp_server_addr, tcp_server_port, start_server, show_tcp_server,
  show_server_name, tcp_build_config_cli_tree, tcp_build_show_cli_tree, tcp_build_cli,
}

abbrev pub of_config : List ℕ
of_config =
    tcp_server ∷ server_name ∷ connect ∷ remote_machine_addr ∷ remote_machine_port ∷ dis_conn_accept
    ∷ disable_client_listen ∷ tcp_server_addr ∷ tcp_server_port ∷ start_server ∷ []

abbrev pub capabilities : List ℕ
capabilities = mode_param ∷ suboptions_param ∷ cmd_expansion_param ∷ []

abbrev pub below_name : List ℕ
below_name = connect ∷ dis_conn_accept ∷ disable_client_listen ∷ tcp_server_addr ∷ start_server ∷ []

-- The call has returned, the ten parameters of `config tcp-server` are in the branch of `config`, and
-- those of `show tcp-server` in that of `show`. The negations, at the pointers `no1` and `no2`, are the
-- last option of the server's name and of `config`, and have its other commands as theirs.
pub record IsBuilt (no1 no2 : ℕ) (out : Outcome Store) : Type 0 where
  pub store : Store
  pub returns : out ≡ done store
  pub in_config : branches store of_config ≡ replicate 10 (done config)
  pub in_show : branches store (show_tcp_server ∷ show_server_name ∷ []) ≡ replicate 2 (done show)
  pub at_config :
      visible (store config).options
      ≡ capabilities ++ (load ∷ supportsave ∷ config_console ∷ tcp_server ∷ no2 ∷ [])
  pub at_name : visible (store server_name).options ≡ capabilities ++ (below_name ++ no1 ∷ [])
  pub at_negation :
      visible (store no1).options
      ≡ suboptions_param ∷ suboptions_param ∷ cmd_expansion_param ∷ below_name

abbrev get_store : Store → Outcome Store → Store
get_store store (done s) = s
get_store store _ = store

abbrev pub whole : Store → ℤ → Outcome Store
whole store choice = do booted ← init_libcli store; tcp_build_cli 8 70 71 choice booted

-- Whatever the memory holds before and whatever number is typed, `init_libcli` and then `tcp_build_cli`
-- return with the tree of `IsBuilt`.
pub tcp_build_cli-IsBuilt : (store : Store) (choice : ℤ) → IsBuilt 70 71 (whole store choice)
unfolding init_libcli init_capabilities init_show init_debug init_config init_run init_do_hook
    init_console add add_coded add_hidden command_named leaf_named init_param libcli_register_param
    set_param_cmd_code hide_param with_capabilities fill_option free_slot attach
    get_current_branch_hook branch_hook_loop find_matching_param match_loop choose asks
    is_cmd_string_match share_children is_negation support_cmd_negation tcp_build_config_cli_tree
    tcp_build_show_cli_tree tcp_build_cli strncmp_eq
tcp_build_cli-IsBuilt store choice = record {
  store = get_store store (whole store choice);
  returns = refl;
  in_config = refl;
  in_show = refl;
  at_config = refl;
  at_name = refl;
  at_negation = refl;
}

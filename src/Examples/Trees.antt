-- ===== src/Examples/Trees.antt =====
-- The trees of commands that the example applications register.
use tcp_lib_with_command_par.Prelude.{
  ℕ, ℤ, pos, negsuc, ◌≡◌, refl, List, [], ◌∷◌, Outcome, done, ◌>>=◌, replicate,
}
use tcp_lib_with_command_par.Prelude.CString.{strncmp_eq}
use tcp_lib_with_command_par.CmdTree.{
  Store, show, config, get_current_branch_hook, branch_hook_loop, init_param, libcli_register_param,
  libcli_register_display_callback, set_param_cmd_code, hide_param, with_capabilities, fill_option,
  free_slot, attach, command_named, leaf_named,
}
use tcp_lib_with_command_par.CmdTree.Find.{
  find_matching_param, match_loop, choose, asks, is_cmd_string_match,
}
use tcp_lib_with_command_par.CmdTree.Negation.{share_children, is_negation, support_cmd_negation}
use tcp_lib_with_command_par.CmdTree.Boot.{
  init_capabilities, init_show, init_debug, init_config, init_run, init_do_hook, init_console,
  init_libcli, add, add_coded, add_hidden,
}
use tcp_lib_with_command_par.CmdTree.Commands.{branches}
use tcp_lib_with_command_par.Examples.Nodes.{
  node, node_name, loopback, loopback_address, config_node, config_node_name, config_loopback,
  config_loopback_address, main2_commands, show_node_commands, main3_commands, config_node_commands,
  main4_commands,
}
use tcp_lib_with_command_par.Examples.Routers.{
  ip, ip_v6, config_router, config_router_name, igmp, igmp_config, config_router_name_name, groups,
  groups_vlan, groups_vlan_vlan, groups_group_ip, group_ip_vlan, group_ip_vlan_id, mtrace, source,
  source_ip, destination, dest_ip, group, group_ip, group2, group_ip2, show_ip_commands,
  igmp_commands, mtrace_commands, testapp_commands,
}

abbrev codes_of : Store → List ℕ → List ℤ
codes_of store [] = []
codes_of store (p ∷ ps) = (store p).cmdcode ∷ codes_of store ps

-- The program has registered its commands, those in the first list below `show` and those in the second
-- below `config`, and the third list has these codes.
pub record Registers (in_show in_config coded : List ℕ) (shows configs : List (Outcome ℕ))
    (codes : List ℤ) (out : Outcome Store) : Type 0 where
  pub store : Store
  pub returns : out ≡ done store
  pub below_show : branches store in_show ≡ shows
  pub below_config : branches store in_config ≡ configs
  pub with_codes : codes_of store coded ≡ codes

abbrev get_store : Store → Outcome Store → Store
get_store store (done s) = s
get_store store _ = store

abbrev pub booted : Store → (Store → Outcome Store) → Outcome Store
booted store commands = do s ← init_libcli store; commands s

abbrev pub show_node : List ℕ
show_node = node ∷ node_name ∷ loopback ∷ loopback_address ∷ []

abbrev pub configure_node : List ℕ
configure_node = config_node ∷ config_node_name ∷ config_loopback ∷ config_loopback_address ∷ []

-- In main2.c the second code goes to the name of the node, and the address keeps the code -1.
main2_commands-Registers :
    (store : Store) (choice : ℤ)
    → Registers show_node []
        (node_name ∷ loopback_address ∷ [])
        (replicate 4 (done show))
        []
        (pos 2 ∷ negsuc 0 ∷ [])
        (booted store (main2_commands 8 80 choice))
unfolding init_libcli init_capabilities init_show init_debug init_config init_run init_do_hook
    init_console add add_coded add_hidden command_named leaf_named init_param libcli_register_param
    set_param_cmd_code hide_param with_capabilities fill_option free_slot attach
    get_current_branch_hook branch_hook_loop find_matching_param match_loop choose asks
    is_cmd_string_match share_children is_negation support_cmd_negation strncmp_eq main2_commands
main2_commands-Registers store choice = record {
  store = get_store store (booted store (main2_commands 8 80 choice));
  returns = refl;
  below_show = refl;
  below_config = refl;
  with_codes = refl;
}

-- In main3.c each handler has its code.
main3_commands-Registers :
    (store : Store) (choice : ℤ)
    → Registers show_node []
        (node_name ∷ loopback_address ∷ [])
        (replicate 4 (done show))
        []
        (pos 1 ∷ pos 2 ∷ [])
        (booted store (main3_commands 8 80 choice))
unfolding init_libcli init_capabilities init_show init_debug init_config init_run init_do_hook
    init_console add add_coded add_hidden command_named leaf_named init_param libcli_register_param
    set_param_cmd_code hide_param with_capabilities fill_option free_slot attach
    get_current_branch_hook branch_hook_loop find_matching_param match_loop choose asks
    is_cmd_string_match share_children is_negation support_cmd_negation strncmp_eq main3_commands
    show_node_commands
main3_commands-Registers store choice = record {
  store = get_store store (booted store (main3_commands 8 80 choice));
  returns = refl;
  below_show = refl;
  below_config = refl;
  with_codes = refl;
}

-- In main4.c a third code is that of `config node`.
main4_commands-Registers :
    (store : Store) (choice : ℤ)
    → Registers show_node configure_node
        (node_name ∷ loopback_address ∷ config_loopback_address ∷ [])
        (replicate 4 (done show))
        (replicate 4 (done config))
        (pos 1 ∷ pos 2 ∷ pos 3 ∷ [])
        (booted store (main4_commands 8 80 choice))
unfolding init_libcli init_capabilities init_show init_debug init_config init_run init_do_hook
    init_console add add_coded add_hidden command_named leaf_named init_param libcli_register_param
    set_param_cmd_code hide_param with_capabilities fill_option free_slot attach
    get_current_branch_hook branch_hook_loop find_matching_param match_loop choose asks
    is_cmd_string_match share_children is_negation support_cmd_negation strncmp_eq main4_commands
    show_node_commands config_node_commands
main4_commands-Registers store choice = record {
  store = get_store store (booted store (main4_commands 8 80 choice));
  returns = refl;
  below_show = refl;
  below_config = refl;
  with_codes = refl;
}

abbrev pub show_ip : List ℕ
show_ip =
    ip ∷ ip_v6 ∷ igmp ∷ igmp_config ∷ groups ∷ groups_vlan ∷ groups_vlan_vlan ∷ groups_group_ip
    ∷ group_ip_vlan ∷ group_ip_vlan_id ∷ []

abbrev pub routers : List ℕ
routers =
    config_router ∷ config_router_name ∷ config_router_name_name ∷ mtrace ∷ source ∷ source_ip
    ∷ destination ∷ dest_ip ∷ group ∷ group_ip ∷ group2 ∷ group_ip2 ∷ []

-- In testapp.c the four commands on multicast traces have the codes 1 to 4.
testapp_commands-Registers :
    (store : Store) (choice : ℤ)
    → Registers show_ip routers
        (source_ip ∷ dest_ip ∷ group_ip ∷ group_ip2 ∷ [])
        (replicate 10 (done show))
        (replicate 12 (done config))
        (pos 1 ∷ pos 2 ∷ pos 4 ∷ pos 3 ∷ [])
        (booted store (testapp_commands 8 80 choice))
unfolding init_libcli init_capabilities init_show init_debug init_config init_run init_do_hook
    init_console add add_coded add_hidden command_named leaf_named init_param libcli_register_param
    libcli_register_display_callback set_param_cmd_code hide_param with_capabilities fill_option
    free_slot attach get_current_branch_hook branch_hook_loop find_matching_param match_loop choose
    asks is_cmd_string_match share_children is_negation support_cmd_negation strncmp_eq
    testapp_commands show_ip_commands igmp_commands mtrace_commands
testapp_commands-Registers store choice = record {
  store = get_store store (booted store (testapp_commands 8 80 choice));
  returns = refl;
  below_show = refl;
  below_config = refl;
  with_codes = refl;
}

-- ===== src/CmdTree/Boot.antt =====
-- `init_libcli` of cmd_hier.c: the tree that the library starts with. The handlers of the leaf
-- types, the token table and the signal handler are set up elsewhere.
use Prim.Native.String.{String}
use tcp_lib_with_command_par.Prelude.{ℕ, Option, none, some, ◌∷◌, Outcome, done, ◌>>=◌, replicate}
use tcp_lib_with_command_par.Prelude.CString.{codes}
use tcp_lib_with_command_par.CmdTree.{
  Store, Kind, Callback, show_help_handler, show_history_callback, show_registered_cmd_handler,
  ut_test_handler, show_cmd_tree, config_mode_enter_handler, load_file_handler, supportsave_handler,
  cli_terminate_handler, repeat_last_command, config_console_name_handler, clear_screen_handler,
  exit_cmd_handler, end_cmd_handler, show_extension_param_handler, mode_enter_callback,
  display_sub_options_callback, display_cmd_expansion_callback, int, string,
  enable_disable_validation_handler, command_named, leaf_named, write, init_param,
  libcli_register_param, set_param_cmd_code, hide_param, root, do_hook, show, debug, debug_show,
  config, clear, run, repeat, show_brief_extension, mode_param, suboptions_param,
  cmd_expansion_param,
}

-- The statics of the blocks of `init_libcli`, in order.
abbrev pub help : ℕ
help = 13

abbrev pub show_history : ℕ
show_history = 14

abbrev pub no_of_commands : ℕ
no_of_commands = 15

abbrev pub show_resgistered : ℕ
show_resgistered = 16

abbrev pub show_resgistered_cmds : ℕ
show_resgistered_cmds = 17

abbrev pub debug_ut : ℕ
debug_ut = 18

abbrev pub debug_ut_enable : ℕ
debug_ut_enable = 19

abbrev pub debug_show_cmdtree : ℕ
debug_show_cmdtree = 20

abbrev pub load : ℕ
load = 21

abbrev pub file_name : ℕ
file_name = 22

abbrev pub supportsave : ℕ
supportsave = 23

abbrev pub supportsave_enable : ℕ
supportsave_enable = 24

abbrev pub terminate : ℕ
terminate = 25

abbrev pub run_ut : ℕ
run_ut = 26

abbrev pub ut_file_path : ℕ
ut_file_path = 27

abbrev pub tc_no : ℕ
tc_no = 28

abbrev pub config_console : ℕ
config_console = 29

abbrev pub config_console_name : ℕ
config_console_name = 30

abbrev pub config_console_name_name : ℕ
config_console_name_name = 31

abbrev pub cls : ℕ
cls = 32

abbrev pub exit_cmd : ℕ
exit_cmd = 33

abbrev pub end_cmd : ℕ
end_cmd = 34

-- `init_param` and `libcli_register_param` of one parameter.
unfoldable pub add : ℕ → ℕ → Kind → Option Callback → String → Store → Outcome Store
add parent at kind callback text store =
    libcli_register_param (init_param store at kind callback (codes text)) (some parent) at

-- The same, and `set_param_cmd_code`.
unfoldable pub add_coded : ℕ → ℕ → Kind → Callback → String → ℕ → Store → Outcome Store
add_coded parent at kind callback text code store = do
  store' ← add parent at kind (some callback) text store
  set_param_cmd_code store' at code

-- The same, with `HIDE_PARAM` before the registration.
unfoldable pub add_hidden : ℕ → ℕ → Kind → Callback → String → Store → Outcome Store
add_hidden parent at kind callback text store =
    libcli_register_param (hide_param (init_param store at kind (some callback) (codes text)) at)
      (some parent) at

abbrev pub named : String → Kind
named name = command_named (codes name)

unfoldable pub init_capabilities : Store → Store
init_capabilities store =
    let rooted = init_param store root (named "ROOT") none (codes "ROOT") in
    let mode =
      init_param rooted mode_param (named "/") (some mode_enter_callback) (codes "ENTER MODE") in
    let sub =
      init_param mode suboptions_param (named "?") (some display_sub_options_callback)
        (codes "Sub-Options") in
    init_param sub cmd_expansion_param (named ".") (some display_cmd_expansion_callback)
      (codes "All possible Command expansions")

unfoldable pub init_show : Store → Outcome Store
init_show s0 = do
  s1 ← add root show (named "show") none "show cmds" s0
  s2 ← add_coded show help (named "help") show_help_handler "help how to use this CLI" 1 s1
  s3 ← add_coded show show_history (named "history") show_history_callback "Command history" 2 s2
  s4 ←
      add_coded show_history no_of_commands (leaf_named int (codes "N") none) show_history_callback
        "No Of Commands to fetch" 3 s3
  s5 ← add show show_resgistered (named "registered") none "registered" s4
  add_coded show_resgistered show_resgistered_cmds (named "commands") show_registered_cmd_handler
      "commands" 4 s5

unfoldable pub init_debug : Store → Outcome Store
init_debug s0 = do
  s1 ← add root debug (named "debug") none "debug cmds" s0
  s2 ← add debug debug_ut (named "ut") none "debug ut" s1
  s3 ←
      add_coded debug_ut debug_ut_enable
        (leaf_named string (codes "ut-enable") (some enable_disable_validation_handler))
        ut_test_handler "enable | disable" 10 s2
  s4 ← add debug debug_show (named "show") none "debug show commands" s3
  add_coded debug_show debug_show_cmdtree (named "cmdtree") show_cmd_tree "Display command tree" 7
      s4

unfoldable pub init_config : Store → Outcome Store
init_config s0 = do
  s1 ← add root config (named "config") (some config_mode_enter_handler) "config cmds" s0
  s2 ← add config load (named "load") none "load cmds" s1
  s3 ←
      add_coded load file_name (leaf_named string (codes "file-name") none) load_file_handler
        "Name of the file" 8 s2
  s4 ← add config supportsave (named "supportsave") none "Collect Support Save Data" s3
  add_coded supportsave supportsave_enable (named "enable") supportsave_handler
      "enable/disable Support Save Data Collection" 5 s4

unfoldable pub init_run : Store → Outcome Store
init_run s0 = do
  s1 ← add root clear (named "clear") none "clear cmds" s0
  s2 ← add root run (named "run") none "run cmds" s1
  s3 ← add run terminate (named "term") (some cli_terminate_handler) "Terminate appln" s2
  s4 ← add run run_ut (named "ut") none "Unit Test" s3
  s5 ←
      add run_ut ut_file_path (leaf_named string (codes "ut-file-name") none) none "UT file name" s4
  add_coded ut_file_path tc_no (leaf_named int (codes "tc-no") none) ut_test_handler
      "Test Case Number" 9 s5

-- The `do` hook is no child of the root; its first slot holds the sub-options by a hack.
unfoldable pub init_do_hook : Store → Store
init_do_hook store =
    let store' =
      init_param store do_hook (named "DO_HOOK") none (codes "operational commands shortcut") in
    let options =
      some suboptions_param
      ∷ some suboptions_param
      ∷ some cmd_expansion_param
      ∷ some show
      ∷ some debug
      ∷ some clear
      ∷ replicate 10 none in
    write store' do_hook (record (store' do_hook) { options = options })

unfoldable pub init_console : Store → Outcome Store
init_console s0 = do
  s1 ← add root repeat (named "repeat") (some repeat_last_command) "repeat" s0
  s2 ← add config config_console (named "console") none "console" s1
  s3 ← add config_console config_console_name (named "name") none "name" s2
  s4 ←
      add_coded config_console_name config_console_name_name
        (leaf_named string (codes "cons-name") none) config_console_name_handler "Name of Console" 6
        s3
  s5 ← add_hidden root cls (named "cls") clear_screen_handler "clear screen" s4
  s6 ← add_hidden root exit_cmd (named "cd..") exit_cmd_handler "Move One Level Up" s5
  s7 ← add_hidden root end_cmd (named "cd") end_cmd_handler "Goto Top level" s6
  done (
      init_param s7 show_brief_extension (named "brief") (some show_extension_param_handler)
        (codes "brief output"))

unfoldable pub init_libcli : Store → Outcome Store
init_libcli store = do
  s1 ← init_show (init_capabilities store)
  s2 ← init_debug s1
  s3 ← init_config s2
  s4 ← init_run s3
  init_console (init_do_hook s4)

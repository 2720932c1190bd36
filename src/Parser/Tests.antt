-- ===== src/Parser/Tests.antt =====
-- The theorems on parser.c at a concrete tree.
use tcp_lib_with_command_par.Prelude.{
  Outcome, ℕ, ◌≤◌, ◌≡◌, ◌⊎◌, inl, inr, refl, false, true, Bool-cases, Option, none, some, List, [],
  ◌∷◌, ◌++◌, done, aborted, arith, replicate, negsuc, pos, ◌==◌, if◌then◌else◌, length, Bool,
}
use tcp_lib_with_command_par.Prelude.CString.{codes, strncmp_eq, c_str, isspace}
use tcp_lib_with_command_par.Prelude.Memory.{memcpy_in, splice}
use tcp_lib_with_command_par.SerBuf.{reset_serialize_buffer}
use tcp_lib_with_command_par.StringUtil.{
  init_token_array, tokenizer, tokenizer_loop, string_space_trim, trim_end, skip_spaces, strtok_all,
  strtok_from, strtok, skip_delim, span_token, untokenize, store_token, get_token, re_init_tokens,
}
use tcp_lib_with_command_par.CmdTree.{
  Store, Kind, cmd, leaf, boolean, root, mode_param, mode_enter_callback,
}
use tcp_lib_with_command_par.CmdTree.Choices.{begins_with, beginning, visible, name_of, named}
use tcp_lib_with_command_par.Tlv.{blank_tlv}
use tcp_lib_with_command_par.Cli.{Cli}
use tcp_lib_with_command_par.Cli.Handlers.{Env, leaf_validation, boolean_validation_handler}
use tcp_lib_with_command_par.Parser.{build_tlv_buffer}
use tcp_lib_with_command_par.Parser.Line.{settle, Outside, tokenize_line, parse_input_cmd, run_line}
use tcp_lib_with_command_par.Parser.Keeps.{WellFormed, IsHandled, type_of}
use tcp_lib_with_command_par.Parser.Settle.{AtPrompt, Accepts, Rejects, build_tlv_buffer-Rejects}
use tcp_lib_with_command_par.Parser.Prompt.{
  Prompt, record_command, is_repeat_cmd, remember, prompt_line, command_parser,
}
use tcp_lib_with_command_par.Parser.RootMode.{root_mode_aborts}
use tcp_lib_with_command_par.CmdTree.{
  init_param, libcli_register_param, set_param_cmd_code, hide_param, with_capabilities, fill_option,
  free_slot, attach, command_named, leaf_named,
}
use tcp_lib_with_command_par.CmdTree.Boot.{
  add, add_coded, add_hidden, init_capabilities, init_show, init_debug, init_config, init_run,
  init_do_hook, init_console, init_libcli,
}

-- The children of every parameter: `/`, `set` and a Boolean leaf, 40.
abbrev children : List (Option ℕ)
children = some mode_param ∷ some 41 ∷ some 40 ∷ replicate 13 none

abbrev kind_at : Bool → Bool → Kind
kind_at true b = leaf (record {
  leaf_type = boolean;
  value_holder = [];
  user_validation_cb_fn = none;
  leaf_id = codes "state";
})
kind_at false true = cmd (codes "/")
kind_at false false = cmd (codes "set")

abbrev tree : Store
tree p = record {
  kind = kind_at (p == 40) (p == mode_param);
  callback = if p == mode_param then some mode_enter_callback else none;
  ishidden = false;
  help = [];
  options = children;
  parent = some root;
  disp_callback = none;
  cmdcode = negsuc 0;
}

abbrev env : Env
env = record {
  junk = λ i. 7;
  fuel = 5;
  invoke = λ callback p mode cli. done cli;
  display = λ callback p cli. done cli;
  validate = λ f token. true;
  choices = λ i. pos 0;
  discarded = λ i. some (10 ∷ []);
}

abbrev at_root : Cli
at_root = record {
  store = tree;
  cursor = root;
  tlv_buff = record { b = replicate 8 0; size = 8; next = 0; checkpoint = 0 };
  console_name = codes "dev>";
  tokens = init_token_array;
  command_code_tlv = blank_tlv;
  cmd_recording_enabled = true;
  cons_input_buffer = [];
}

-- In a mode with three bytes of values.
abbrev in_mode : Cli
in_mode = record at_root {
  cursor = 41;
  tlv_buff = record { b = replicate 8 1; size = 8; next = 3; checkpoint = 3 };
}

length-beginning :
    (store : Store) (token : List ℕ) (ps : List ℕ) → length (beginning store token ps) ≤ length ps
unfolding beginning
length-beginning store token [] = omega arith
length-beginning store token (p ∷ ps) =
    elim (Bool-cases (named (λ name. begins_with name token) (name_of (store p).kind))) [
      | inl h ↦ rw h (omega (arith, length-beginning store token ps))
      | inr h ↦ rw h (omega (arith, length-beginning store token ps))
    ]

tree-handled : (a b : Bool) → IsHandled (type_of (kind_at a b))
unfolding leaf_validation
tree-handled true b = λ token. (boolean_validation_handler token, refl)
tree-handled false true = tt
tree-handled false false = tt

tree-WellFormed : WellFormed tree
tree-WellFormed = record {
  few = λ p token h. omega (arith, length-beginning tree token (visible children));
  handled = λ p. tree-handled (p == 40) (p == mode_param);
}

in_mode-AtPrompt : AtPrompt in_mode
in_mode-AtPrompt = record {
  valid = record {
    block = refl;
    nonempty = omega arith;
    in_range = omega arith;
    fits = omega arith;
    marked = omega arith;
  };
  marked = refl;
  home = inl refl;
}

abbrev words : List (List ℕ)
words = codes "set" ∷ codes "true" ∷ []

build_tlv_buffer-Rejects_example :
    Accepts env in_mode (build_tlv_buffer env in_mode words)
    ⊎ Rejects in_mode (build_tlv_buffer env in_mode words)
build_tlv_buffer-Rejects_example =
    build_tlv_buffer-Rejects env in_mode words tree-WellFormed in_mode-AtPrompt
      (omega arith, omega arith, (omega arith, omega arith, tt)) (omega arith)

abbrev get_store : Outcome Store → Store
get_store (done store) = store
get_store _ = tree

abbrev at_start : Cli
at_start = record at_root { store = get_store (init_libcli tree) }

booted : init_libcli tree ≡ done at_start.store
unfolding init_libcli init_capabilities init_show init_debug init_config init_run init_do_hook
    init_console add add_coded add_hidden command_named leaf_named init_param libcli_register_param
    set_param_cmd_code hide_param with_capabilities fill_option free_slot attach
booted = refl

root_mode_aborts_example : build_tlv_buffer env at_start (codes "/" ∷ []) ≡ aborted
root_mode_aborts_example = root_mode_aborts env at_start tree booted refl

abbrev outside : Outside
outside = record { file = λ name. none; run_test_case = λ name tc cli. done cli }

abbrev prompt : Prompt
prompt = record { cli = at_root; last_command = []; history = []; cmd_counter = 0 }

-- The line `cls`, and an empty one.
abbrev typed : List (List ℕ)
typed = (codes "cls" ++ 10 ∷ []) ∷ (10 ∷ []) ∷ []

abbrev after_typing : Prompt
after_typing = record prompt {
  last_command = codes "cls";
  history = codes "cls" ∷ [];
  cmd_counter = 1;
}

typing : command_parser env outside prompt typed ≡ done after_typing
unfolding command_parser prompt_line is_repeat_cmd tokenize_line parse_input_cmd run_line settle
    remember record_command tokenizer tokenizer_loop string_space_trim trim_end skip_spaces
    strtok_all strtok_from strtok skip_delim span_token untokenize store_token get_token
    re_init_tokens init_token_array strncmp_eq c_str isspace reset_serialize_buffer memcpy_in splice
typing = refl

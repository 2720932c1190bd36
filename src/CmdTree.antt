-- ===== src/CmdTree.antt =====
-- CommandParser/cmd_hier.h and cmd_hier.c: the tree of commands.
-- A `param_t *` is a number, the store maps it to its record, and NULL is `none`. The string in a
-- buffer is the list of its bytes before the NUL; the statics begin as zeros.
pub mod Register
pub mod Find
pub mod Choices
pub mod MatchLoop
pub mod Match
pub mod Branch
pub mod Negation
pub mod Boot
pub mod Commands
mod Tests
use tcp_lib_with_command_par.Prelude.{
  drop, ℕ, zero, suc, ◌+◌, ℤ, pos, negsuc, Bool, true, false, Option, none, some, List, [], ◌∷◌,
  ◌++◌, Outcome, done, aborted, undefined, out_of_fuel, ◌>>=◌, ltb, ◌==◌, if◌then◌else◌, length,
  take, replicate, set, get_elem?,
}
use tcp_lib_with_command_par.Prelude.CString.{strncmp_eq, codes}

-- MAX_OPTION_SIZE, CHILDREN_START_INDEX and the number of slots for children
abbrev pub max_option_size : ℕ
max_option_size = 16

abbrev pub children_start_index : ℕ
children_start_index = 3

abbrev pub children_slots : ℕ
children_slots = 13

abbrev pub mode_param_index : ℕ
mode_param_index = 0

abbrev pub suboptions_index : ℕ
suboptions_index = 1

abbrev pub cmd_expansion_index : ℕ
cmd_expansion_index = 2

-- POSSIBILITY_ARRAY_SIZE
abbrev pub possibility_array_size : ℕ
possibility_array_size = 10

-- `leaf_type_t`
pub data LeafType : Type 0 where
  int string ipv4 float ipv6 boolean invalid leaf_max : LeafType

-- The handlers of the library by name, and those of an application by number.
pub data Callback : Type 0 where
  show_help_handler show_history_callback show_registered_cmd_handler ut_test_handler : Callback
  show_cmd_tree config_mode_enter_handler load_file_handler supportsave_handler : Callback
  cli_terminate_handler repeat_last_command config_console_name_handler : Callback
  clear_screen_handler exit_cmd_handler end_cmd_handler show_extension_param_handler : Callback
  mode_enter_callback display_sub_options_callback display_cmd_expansion_callback : Callback
  negate_callback : Callback
  application : ℕ → Callback

pub data UserValidation : Type 0 where
  enable_disable_validation_handler grep_pattern_validation : UserValidation
  application_validation : ℕ → UserValidation

-- `leaf_t`
pub record Leaf : Type 0 where
  pub leaf_type : LeafType
  pub value_holder : List ℕ
  pub user_validation_cb_fn : Option UserValidation
  pub leaf_id : List ℕ

-- `param_type` with the member of the union that it selects.
pub data Kind : Type 0 where
  cmd : List ℕ → Kind
  leaf : Leaf → Kind
  no_cmd : List ℕ → Kind

pub record Param : Type 0 where
  pub kind : Kind
  pub callback : Option Callback
  pub ishidden : Bool
  pub help : List ℕ
  pub options : List (Option ℕ)
  pub parent : Option ℕ
  pub disp_callback : Option ℕ
  pub cmdcode : ℤ

abbrev pub Store : Type 0
Store = ℕ → Param

abbrev pub write : Store → ℕ → Param → Store
write store at p i = if i == at then p else store i

-- The statics of cmd_hier.c.
abbrev pub root : ℕ
root = 0

abbrev pub do_hook : ℕ
do_hook = 1

abbrev pub show : ℕ
show = 2

abbrev pub debug : ℕ
debug = 3

abbrev pub debug_show : ℕ
debug_show = 4

abbrev pub config : ℕ
config = 5

abbrev pub clear : ℕ
clear = 6

abbrev pub run : ℕ
run = 7

abbrev pub repeat : ℕ
repeat = 8

abbrev pub show_brief_extension : ℕ
show_brief_extension = 9

abbrev pub mode_param : ℕ
mode_param = 10

abbrev pub suboptions_param : ℕ
suboptions_param = 11

abbrev pub cmd_expansion_param : ℕ
cmd_expansion_param = 12

-- The arguments of `init_param` that depend on the type; a name is cut to fit its buffer.
unfoldable pub command_named : List ℕ → Kind
command_named name = cmd (take 31 name)

unfoldable pub leaf_named : LeafType → List ℕ → Option UserValidation → Kind
leaf_named type id validation = leaf (record {
  leaf_type = type;
  value_holder = [];
  user_validation_cb_fn = validation;
  leaf_id = take 31 id;
})

-- NEGATE_CHARACTER
abbrev pub negation : Kind
negation = no_cmd (codes "no")

-- The help text is copied without a NUL, so the end of a longer one that was there stays.
unfoldable pub init_param : Store → ℕ → Kind → Option Callback → List ℕ → Store
init_param store at kind callback help = write store at (record {
  kind = kind;
  callback = callback;
  ishidden = false;
  help = take 63 (help ++ drop (length help) (store at).help);
  options = replicate max_option_size none;
  parent = none;
  disp_callback = none;
  cmdcode = negsuc 0;
})

unfoldable pub set_param_cmd_code : Store → ℕ → ℕ → Outcome Store
set_param_cmd_code store at code = elim (store at).callback [
  | none ↦ aborted
  | some handler ↦ done (write store at (record (store at) { cmdcode = pos code }))
]

-- HIDE_PARAM
unfoldable pub hide_param : Store → ℕ → Store
hide_param store at = write store at (record (store at) { ishidden = true })

unfoldable pub libcli_register_display_callback : Store → ℕ → ℕ → Outcome Store
libcli_register_display_callback store at callback = elim (store at).kind [
  | no_cmd name ↦ aborted
  | _ ↦ done (write store at (record (store at) { disp_callback = some callback }))
]

-- `if (!options[i]) options[i] = p`
unfoldable pub fill_option : List (Option ℕ) → ℕ → ℕ → List (Option ℕ)
fill_option options i p = elim (get_elem? options i) [
  | none ↦ options
  | some slot ↦ elim slot [ none ↦ set options i (some p) | some q ↦ options ]
]

-- The loop for a free slot, from `i` on with `n` slots left.
unfoldable pub free_slot : List (Option ℕ) → ℕ → ℕ → Option ℕ
free_slot options i zero = none
free_slot options i (suc n) =
    let later = free_slot options (i + 1) n in
    elim (get_elem? options i) [
      | none ↦ later
      | some slot ↦ elim slot [ none ↦ some i | some q ↦ later ]
    ]

-- The options of a parent once its three capabilities are in place.
unfoldable pub with_capabilities : List (Option ℕ) → List (Option ℕ)
with_capabilities options =
    fill_option
      (fill_option (fill_option options mode_param_index mode_param) suboptions_index
        suboptions_param)
      cmd_expansion_index cmd_expansion_param

-- The writes of a registration: the options of the parent, then the parent of the child.
unfoldable pub attach : Store → ℕ → List (Option ℕ) → ℕ → Store
attach store at options child =
    let store' : Store = write store at (record (store at) { options = options }) in
    write store' child (record (store' child) { parent = some at })

abbrev pub place : Store → ℕ → List (Option ℕ) → ℕ → Option ℕ → Outcome Store
place store at options child none = aborted
place store at options child (some i) = done (attach store at (set options i (some child)) child)

unfoldable pub libcli_register_param : Store → Option ℕ → ℕ → Outcome Store
libcli_register_param store parent child =
    let at : ℕ = elim parent [ none ↦ root | some p ↦ p ] in
    let options = with_capabilities (store at).options in
    place store at options child (free_slot options children_start_index children_slots)

unfoldable pub enable_show_extension_param_brief : Store → ℕ → Outcome Store
enable_show_extension_param_brief store at = elim (store at).callback [
  | none ↦ aborted
  | some handler ↦ libcli_register_param store (some at) show_brief_extension
]

-- The loop of `get_current_branch_hook`: a chain of parents that does not meet the root ends at a
-- NULL, or runs for ever.
unfoldable pub branch_hook_loop : ℕ → Store → ℕ → Outcome ℕ
branch_hook_loop zero store p = out_of_fuel
branch_hook_loop (suc fuel) store p = elim (store p).parent [
  | none ↦ undefined
  | some q ↦ let above = branch_hook_loop fuel store q in if q == root then done p else above
]

unfoldable pub get_current_branch_hook : ℕ → Store → ℕ → Outcome ℕ
get_current_branch_hook fuel store p =
    let hook = branch_hook_loop fuel store p in if p == root then aborted else hook

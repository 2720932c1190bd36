-- ===== src/Cli/Up.antt =====
-- `go_one_level_up_cmd_tree` of CommandParser/cmd_hier.c from the mode of a leaf.
use tcp_lib_with_command_par.Prelude.{
  ℕ, suc, ◌≡◌, ◌≢◌, ◌==◌, if◌then◌else◌, some, List, [], ◌++◌, Outcome, done, ◌>>=◌, length,
}
use tcp_lib_with_command_par.Prelude.CString.{codes}
use tcp_lib_with_command_par.SerBuf.{reset_serialize_buffer}
use tcp_lib_with_command_par.SerBuf.Append.{IsValid, contents}
use tcp_lib_with_command_par.StringUtil.{Tokens, tokenizer, get_token}
use tcp_lib_with_command_par.CmdTree.{Store, Leaf, leaf, write, root}
use tcp_lib_with_command_par.Cli.{Cli, name_console, build_mode_console_name}

-- The parameters with the value of one leaf cleared.
abbrev pub without_value : Store → ℕ → Leaf → Store
without_value store p l =
    write store p (record (store p) { kind = leaf (record l { value_holder = [] }) })

-- The cursor is at the leaf `p` below `q`, and its record is the last in the TLV buffer.
pub record InLeaf (cli : Cli) (p q : ℕ) (l : Leaf) (held unit : List ℕ) : Type 0 where
  pub at_leaf : (cli.store p).kind ≡ leaf l
  pub below : (cli.store p).parent ≡ some q
  pub start : p ≢ root
  pub inner : q ≢ root
  pub valid : IsValid cli.tlv_buff
  pub holds : contents cli.tlv_buff ≡ held ++ unit
  pub sized : length unit ≡ 100

-- The console name begins with a device name that can be read.
pub record Named (cli : Cli) (device : List ℕ) : Type 0 where
  pub table : Tokens
  pub more : ℕ
  pub read : tokenizer cli.tokens cli.console_name 62 ≡ done (table, suc more)
  pub first : get_token table 0 ≡ done device

-- The call has returned: the cursor is at `q`, the leaf has lost its value, the buffer ends before its
-- record, with the checkpoint there, and the console name is that of the mode `q`.
pub record Leaves (cli : Cli) (p q : ℕ) (l : Leaf) (held console : List ℕ) (out : Outcome Cli)
    : Type 0 where
  pub after : Cli
  pub returns : out ≡ done after
  pub cursor_up : after.cursor ≡ q
  pub cleared : after.store ≡ without_value cli.store p l
  pub valid : IsValid after.tlv_buff
  pub kept : contents after.tlv_buff ≡ held
  pub marked : after.tlv_buff.checkpoint ≡ after.tlv_buff.next
  pub named : after.console_name ≡ console

-- What is left of the call behind the leaf.
climb : Cli → Outcome Cli
climb up =
    if up.cursor == root
    then (do
      named ← name_console up (codes ">")
      done (record named { tlv_buff = reset_serialize_buffer named.tlv_buff }))
    else build_mode_console_name up up.cursor

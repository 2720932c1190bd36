-- ===== src/UtParser/Handler.antt =====
-- CommandParser/ut/utinfra/ut_parser.c: `ut_test_handler`, the handler of the commands of the runner.
use tcp_lib_with_command_par.Prelude.{
  ℕ, zero, suc, ◌+◌, ◌-◌, ℤ, pos, negsuc, Option, none, some, List, Outcome, done, ◌>>=◌, ◌==◌,
  if◌then◌else◌,
}
use tcp_lib_with_command_par.Prelude.CString.{codes}
use tcp_lib_with_command_par.SerBuf.{SerBuff}
use tcp_lib_with_command_par.Tlv.{tlv_unit, tlv_units}
use tcp_lib_with_command_par.Cli.{Cli}
use tcp_lib_with_command_par.App.Atoi.{atoi_int}
use tcp_lib_with_command_par.App.Reading.{
  to_u16, extract_cmd_code, is_leaf, leaf_id_of, value_of, text,
}
use tcp_lib_with_command_par.UtParser.{Host, Ut, set_ut_debug_flag}
use tcp_lib_with_command_par.UtParser.Loop.{run_test_case}

-- The variables of `ut_test_handler`.
pub record UtArgs : Type 0 where
  pub ut_file_name : Option (List ℕ)
  pub tc_no : ℤ
  pub ut_enable_flag : Option (List ℕ)

abbrev pub no_ut_args : UtArgs
no_ut_args = record { ut_file_name = none; tc_no = pos 0; ut_enable_flag = none }

unfoldable pub read_ut_arg : UtArgs → List ℕ → List ℕ → Outcome UtArgs
read_ut_arg args leaf_id value =
    if is_leaf leaf_id (codes "ut-file-name")
    then done (record args { ut_file_name = some value })
    else if is_leaf leaf_id (codes "tc-no")
    then (do s ← text (some value); n ← atoi_int s; done (record args { tc_no = n }))
    else if is_leaf leaf_id (codes "ut-enable")
    then done (record args { ut_enable_flag = some value })
    else done args

-- TLV_LOOP_BEGIN, with `n` records left.
unfoldable pub read_ut_args : SerBuff → ℕ → ℕ → UtArgs → Outcome UtArgs
read_ut_args tlv_buf i zero args = done args
read_ut_args tlv_buf i (suc n) args = do
  unit ← tlv_unit tlv_buf i
  args' ← read_ut_arg args (leaf_id_of unit) (value_of unit)
  read_ut_args tlv_buf (i + 1) n args'

abbrev pub cmdcode_run_ut_tc : ℕ
cmdcode_run_ut_tc = 9

abbrev pub cmdcode_debug_ut : ℕ
cmdcode_debug_ut = 10

module _ {Q L : Type 0} where
  unfoldable pub ut_test_handler : Host Q L → Ut Q → Cli → SerBuff → Outcome (Ut Q × Cli)
  ut_test_handler host ut cli tlv_buf = do
    cmdcode ← extract_cmd_code tlv_buf
    args ← read_ut_args tlv_buf 0 (tlv_units tlv_buf - 1) no_ut_args
    elim cmdcode [
      | negsuc n ↦ done (ut, cli)
      | pos code ↦
          if code == cmdcode_run_ut_tc
          then (do
            file_name ← text args.ut_file_name
            ran ← run_test_case host ut cli file_name (to_u16 args.tc_no)
            done ran.0)
          else if code == cmdcode_debug_ut
          then (do flag ← text args.ut_enable_flag; done (set_ut_debug_flag flag ut, cli))
          else done (ut, cli)
    ]

-- ===== src/App/Records.antt =====
-- The handler of src/main.cpp on a buffer of records (CommandParser/cmdtlv.h), as the parser leaves it.
use mathlib.Core.List.{append_assoc}
use tcp_lib_with_command_par.Prelude.{
  ℕ, suc, ◌+◌, ◌-◌, ◌≡◌, refl, sym, ap, subst, ◌∙◌, aborted, out_of_fuel, ℤ, pos, negsuc, some,
  List, [], ◌∷◌, ◌++◌, Outcome, done, undefined, ◌>>=◌, arith, length, length-append, get_elem?,
}
use tcp_lib_with_command_par.Prelude.Memory.{take-append_self, drop-append}
use tcp_lib_with_command_par.SerBuf.{SerBuff, le_bytes, get_serialize_buffer_size}
use tcp_lib_with_command_par.Cli.{OpMode}
use tcp_lib_with_command_par.Tlv.{Tlv, tlv_bytes, tlv_unit, tlv_units, leaf_id_size}
use tcp_lib_with_command_par.Tlv.Units.{
  IsTlv, AllTlv, Collected, tlv_unit-Collected, next-Collected,
}
use tcp_lib_with_command_par.App.Atoi.{atoi_int}
use tcp_lib_with_command_par.App.{Net, App, run_command, config_tcp_server_handler}
use tcp_lib_with_command_par.App.Reading.{
  Args, no_args, text, leaf_id_of, value_of, extract_cmd_code, code_in_last, read_arg, read_args,
}

-- The arguments in a list of records.
abbrev pub args_of : List Tlv → Args → Outcome Args
args_of [] args = done args
args_of (t ∷ ts) args = do args' ← read_arg args t.leaf_id t.value; args_of ts args'

-- The command code in a record.
abbrev pub code_of : Tlv → Outcome ℤ
code_of t = do s ← text (some t.value); atoi_int s

leaf_id_of-tlv_bytes : (t : Tlv) → IsTlv t → leaf_id_of (tlv_bytes t) ≡ t.leaf_id
unfolding leaf_id_of tlv_bytes le_bytes
leaf_id_of-tlv_bytes t h = take-append_self t.leaf_id t.value leaf_id_size (sym h.0)

value_of-tlv_bytes : (t : Tlv) → IsTlv t → value_of (tlv_bytes t) ≡ t.value
unfolding value_of tlv_bytes le_bytes
value_of-tlv_bytes t h = drop-append t.leaf_id t.value leaf_id_size (sym h.0)

get_elem?-middle :
    (before : List Tlv) (t : Tlv) (after : List Tlv)
    → get_elem? (before ++ t ∷ after) (length before) ≡ some t
get_elem?-middle [] t after = refl
get_elem?-middle (u ∷ us) t after = get_elem?-middle us t after

AllTlv-middle :
    (before : List Tlv) (t : Tlv) (after : List Tlv) → AllTlv (before ++ t ∷ after) → IsTlv t
AllTlv-middle [] t after h = h.0
AllTlv-middle (u ∷ us) t after h = AllTlv-middle us t after h.1

tlv_units-Collected : (buf : SerBuff) (ts : List Tlv) → Collected buf ts → tlv_units buf ≡ length ts
unfolding tlv_units get_serialize_buffer_size
tlv_units-Collected buf ts c = ground (arith, next-Collected buf ts c)

read_args-suc :
    (buf : SerBuff) (i n : ℕ) (args : Args) (t : Tlv)
    → IsTlv t
    → tlv_unit buf i ≡ done (tlv_bytes t)
    → read_args buf i (suc n) args
      ≡ (do args' ← read_arg args t.leaf_id t.value; read_args buf (i + 1) n args')
unfolding read_args
read_args-suc buf i n args t h e =
    rw (e, read_args, leaf_id_of-tlv_bytes t h, value_of-tlv_bytes t h) refl

read_args-args_of :
    (buf : SerBuff) (before ts after : List Tlv) (args : Args)
    → Collected buf (before ++ (ts ++ after))
    → read_args buf (length before) (length ts) args ≡ args_of ts args
unfolding read_args
read_args-args_of buf before [] after args c = refl
read_args-args_of buf before (t ∷ ts) after args c =
    let later : (args' : Args)
        → read_args buf (length before + 1) (length ts) args' ≡ args_of ts args' =
      λ args'.
        ap (λ i. read_args buf i (length ts) args') {y = length (before ++ t ∷ [])}
          (sym (length-append before (t ∷ [])))
        ∙ read_args-args_of buf (before ++ t ∷ []) ts after args'
            (subst (Collected buf) (sym (append_assoc before (t ∷ []) (ts ++ after))) c) in
    read_args-suc buf (length before) (length ts) args t
      (AllTlv-middle before t (ts ++ after) c.all)
      (tlv_unit-Collected buf (before ++ t ∷ (ts ++ after)) (length before) t c
        (get_elem?-middle before t (ts ++ after)))
    ∙ bind_same (read_arg args t.leaf_id t.value) later
  where
    bind_same :
        {f g : Args → Outcome Args} (o : Outcome Args)
        → ((a : Args) → f a ≡ g a)
        → (o >>= f) ≡ (o >>= g)
    bind_same (done a) h = h a
    bind_same aborted h = refl
    bind_same undefined h = refl
    bind_same out_of_fuel h = refl

extract_cmd_code-code_of :
    (buf : SerBuff) (ts : List Tlv) (t : Tlv)
    → Collected buf (ts ++ t ∷ [])
    → extract_cmd_code buf ≡ code_of t
unfolding extract_cmd_code code_in_last
extract_cmd_code-code_of buf ts t c =
    let count : tlv_units buf ≡ suc (length ts) =
      tlv_units-Collected buf (ts ++ t ∷ []) c ∙ length-append ts (t ∷ []) ∙ omega arith in
    rw
      (
        count,
        tlv_unit-Collected buf (ts ++ t ∷ []) (length ts) t c (get_elem?-middle ts t []),
        value_of-tlv_bytes t (AllTlv-middle ts t [] c.all),
      )
      refl

-- On a buffer that holds records, at least one, the handler takes the command code from the last one
-- and its arguments from the others, in order, and then runs the command.
pub config_tcp_server_handler-records :
    (net : Net) (fresh : ℕ) (app : App) (buf : SerBuff) (ts : List Tlv) (t : Tlv) (mode : OpMode)
    → Collected buf (ts ++ t ∷ [])
    → config_tcp_server_handler net fresh app buf mode ≡ (do
      code ← code_of t
      args ← args_of ts no_args
      elim code [ pos k ↦ run_command net fresh app k args mode | negsuc k ↦ done (app, pos 0) ])
unfolding config_tcp_server_handler
config_tcp_server_handler-records net fresh app buf ts t mode c =
    let count : tlv_units buf - 1 ≡ length ts =
      ap (λ n. n - 1) (tlv_units-Collected buf (ts ++ t ∷ []) c)
      ∙ ap (λ n. n - 1) (length-append ts (t ∷ []))
      ∙ omega arith in
    rw (extract_cmd_code-code_of buf ts t c, count, read_args-args_of buf [] ts (t ∷ []) no_args c)
      refl

-- ===== src/Tlv.antt =====
-- CommandParser/cmdtlv.h: the packed TLV records of leaf values, and the buffer of them. The unit
-- `swap_tlv_units` and the walk over the leaves of a branch are those of cmd_hier.c.
pub mod Units
pub mod Branch
pub mod Reverse
pub mod Leaves
mod Tests
use tcp_lib_with_command_par.Prelude.{
  ℕ, zero, suc, ◌+◌, ◌-◌, ◌*◌, ◌/◌, Bool, ◌&&◌, none, some, List, [], ◌∷◌, ◌++◌, Outcome, done,
  aborted, undefined, out_of_fuel, ◌>>=◌, ltb, ◌==◌, if◌then◌else◌, length, take, drop, replicate,
}
use tcp_lib_with_command_par.Prelude.Memory.{splice, memcpy_in, memcpy_out}
use tcp_lib_with_command_par.Prelude.CString.{c_str, codes, strncmp_eq}
use tcp_lib_with_command_par.SerBuf.{
  SerBuff, serialize_string, reset_serialize_buffer, get_serialize_buffer_size, le_bytes,
}
use tcp_lib_with_command_par.CmdTree.{
  Store, Leaf, LeafType, int, string, ipv4, float, ipv6, boolean, invalid, leaf_max, cmd, no_cmd,
  leaf,
}

-- The number of an enumerator of `leaf_type_t`.
abbrev pub leaf_code : LeafType → ℕ
leaf_code int = 0
leaf_code string = 1
leaf_code ipv4 = 2
leaf_code float = 3
leaf_code ipv6 = 4
leaf_code boolean = 5
leaf_code invalid = 6
leaf_code leaf_max = 7

abbrev pub leaf_id_size : ℕ
leaf_id_size = 32

abbrev pub value_size : ℕ
value_size = 64

-- `sizeof(tlv_struct_t)`, packed
abbrev pub tlv_size : ℕ
tlv_size = 100

-- `tlv_struct_t`; the arrays are blocks of bytes.
pub record Tlv : Type 0 where
  pub leaf_type : ℕ
  pub leaf_id : List ℕ
  pub value : List ℕ

-- `memset(&tlv, 0, sizeof(tlv))`
abbrev pub blank_tlv : Tlv
blank_tlv = record {
  leaf_type = 0;
  leaf_id = replicate leaf_id_size 0;
  value = replicate value_size 0;
}

unfoldable pub tlv_bytes : Tlv → List ℕ
tlv_bytes tlv = le_bytes 4 tlv.leaf_type ++ (tlv.leaf_id ++ tlv.value)

unfoldable pub prepare_tlv_from_leaf : Leaf → Tlv → Tlv
prepare_tlv_from_leaf l tlv = record tlv {
  leaf_type = leaf_code l.leaf_type;
  leaf_id = splice tlv.leaf_id 0 (take leaf_id_size l.leaf_id);
}

unfoldable pub put_value_in_tlv : Tlv → List ℕ → Tlv
put_value_in_tlv tlv val = record tlv { value = splice tlv.value 0 (take value_size val) }

unfoldable pub collect_tlv : (ℕ → ℕ) → SerBuff → Tlv → Outcome SerBuff
collect_tlv junk buf tlv = serialize_string junk buf (tlv_bytes tlv)

-- The bytes of the unit with an index, as `(tlv_struct_t *)(b->b) + i` reads them.
unfoldable pub tlv_unit : SerBuff → ℕ → Outcome (List ℕ)
tlv_unit buf i = memcpy_out buf.b (tlv_size * i) tlv_size

unfoldable pub tlv_units : SerBuff → ℕ
tlv_units buf = get_serialize_buffer_size buf / tlv_size

unfoldable pub swap_tlv_units : SerBuff → ℕ → ℕ → Outcome SerBuff
swap_tlv_units buf i j = do
  first ← tlv_unit buf i
  second ← tlv_unit buf j
  b1 ← memcpy_in buf.b (tlv_size * i) second
  b2 ← memcpy_in b1 (tlv_size * j) first
  done (record buf { b = b2 })

-- `for (; i < (tlv_units >> 1); i++, j--) swap`, with the number of rounds left.
unfoldable pub reverse_units : ℕ → SerBuff → ℕ → ℕ → Outcome SerBuff
reverse_units zero buf i j = done buf
reverse_units (suc n) buf i j = do
  swapped ← swap_tlv_units buf i j
  reverse_units n swapped (i + 1) (j - 1)

-- A leaf and its value as a record.
unfoldable pub tlv_of_leaf : Leaf → Tlv
tlv_of_leaf l = put_value_in_tlv (prepare_tlv_from_leaf l blank_tlv) l.value_holder

-- The walk of `build_cmd_tree_leaves_data` up from `dst` to `src`. The function's test is
-- IS_PARAM_CMD, so a negation is read as a leaf, through the wrong member of the union.
unfoldable pub collect_leaves : ℕ → (ℕ → ℕ) → Store → SerBuff → ℕ → ℕ → Outcome SerBuff
collect_leaves zero junk store buf src dst = out_of_fuel
collect_leaves (suc fuel) junk store buf src dst =
    let above : SerBuff → Outcome SerBuff = λ b. elim (store dst).parent [
      | none ↦ undefined
      | some p ↦ collect_leaves fuel junk store b src p
    ] in
    let collected : Outcome SerBuff = elim (store dst).kind [
      | cmd name ↦ above buf
      | no_cmd name ↦ undefined
      | leaf l ↦ do b ← collect_tlv junk buf (tlv_of_leaf l); above b
    ] in
    let last : Outcome SerBuff = elim (store dst).kind [
      | leaf l ↦ collect_tlv junk buf (tlv_of_leaf l)
      | _ ↦ done buf
    ] in
    if dst == src then last else collected

unfoldable pub build_cmd_tree_leaves_data : ℕ → (ℕ → ℕ) → Store → SerBuff → ℕ → ℕ → Outcome SerBuff
build_cmd_tree_leaves_data fuel junk store buf src dst = do
  b ← collect_leaves fuel junk store (reset_serialize_buffer buf) src dst
  if ltb (get_serialize_buffer_size b) (2 * tlv_size)
      then done b
      else reverse_units (tlv_units b / 2) b 0 (tlv_units b - 1)

-- `show_ext_t`
pub data ShowExt : Type 0 where
  brief detail extensive none_ext : ShowExt

-- The fields of a unit that begin at an offset, read as a string.
abbrev pub field_string : List ℕ → ℕ → List ℕ
field_string unit at = elim (c_str (drop at unit)) [ none ↦ drop at unit | some s ↦ s ]

unfoldable pub show_extension_of : List ℕ → Outcome ShowExt
show_extension_of unit =
    let value = field_string unit 36 in
    if strncmp_eq (field_string unit 4) (codes "SHOW_EXTENSIONS") 15
    then (if strncmp_eq value (codes "SHOW_BRIEF") 10
        then done brief
        else if strncmp_eq value (codes "SHOW_DETAIL") 11
        then done detail
        else if strncmp_eq value (codes "SHOW_EXTENSIVE") 14
        then done extensive
        else aborted)
    else done none_ext

unfoldable pub get_show_extension_type : SerBuff → Outcome ShowExt
get_show_extension_type buf = if tlv_units buf == 0 then done none_ext else do
  unit ← tlv_unit buf (if tlv_units buf == 1 then 0 else tlv_units buf - 2)
  show_extension_of unit

-- `parser_match_leaf_id`
unfoldable pub parser_match_leaf_id : List ℕ → List ℕ → Bool
parser_match_leaf_id tlv_leaf_id leaf_id_manual =
    length tlv_leaf_id == length leaf_id_manual
    && strncmp_eq tlv_leaf_id leaf_id_manual (length tlv_leaf_id)

-- The copy of the string in a field to a block, with its NUL.
unfoldable pub copy_string : List ℕ → List ℕ → Outcome (List ℕ)
copy_string field dst = elim (c_str field) [
  | none ↦ undefined
  | some s ↦ memcpy_in dst 0 (s ++ 0 ∷ [])
]

unfoldable pub tlv_copy_leaf_id : Tlv → List ℕ → Outcome (List ℕ)
tlv_copy_leaf_id tlv dst = copy_string tlv.leaf_id dst

unfoldable pub tlv_copy_leaf_value : Tlv → List ℕ → Outcome (List ℕ)
tlv_copy_leaf_value tlv dst = copy_string tlv.value dst

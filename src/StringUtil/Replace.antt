-- ===== src/StringUtil/Replace.antt =====
-- `replaceSubstring` of CommandParser/string_util.c, which edits a block of memory in place.
-- The block of `sub` ends with its NUL, as that of a literal does.
pub mod Absent
use tcp_lib_with_command_par.Prelude.{
  ℕ, zero, suc, ◌+◌, ◌-◌, Bool, false, ◌||◌, none, some, List, [], ◌∷◌, Outcome, done, undefined,
  out_of_fuel, ◌>>=◌, ltb, ◌==◌, if◌then◌else◌, length, get_elem?,
}
use tcp_lib_with_command_par.Prelude.Memory.{memcpy_in}
use tcp_lib_with_command_par.Prelude.CString.{c_str}

-- A character of a block; one behind its end is undefined.
unfoldable pub char_at : List ℕ → ℕ → Outcome ℕ
char_at block i = elim (get_elem? block i) [ none ↦ undefined | some c ↦ done c ]

unfoldable pub strlen : List ℕ → Outcome ℕ
strlen block = elim (c_str block) [ none ↦ undefined | some s ↦ done (length s) ]

-- `for (j = 0; string[i] == sub[j]; j++, i++)`: the values of `j` and `flag`; `i` is `start + j`.
unfoldable pub match_run : ℕ → List ℕ → List ℕ → ℕ → ℕ → ℕ → Bool → Outcome (ℕ × Bool)
match_run zero string sub sub_len start j flag = out_of_fuel
match_run (suc fuel) string sub sub_len start j flag = do
  a ← char_at string (start + j)
  b ← char_at sub j
  let on = match_run fuel string sub sub_len start (j + 1) (flag || j + 1 == sub_len) in
      if a == b then on else done (j, flag)

-- `for (k = start; k < stringLen; k++) string[k] = string[k + 1]`, with `n` rounds left.
unfoldable pub close_gap : ℕ → List ℕ → ℕ → Outcome (List ℕ)
close_gap zero string k = done string
close_gap (suc n) string k = do
  c ← char_at string (k + 1)
  string' ← memcpy_in string k (c ∷ [])
  close_gap n string' (k + 1)

-- The loop that removes `n` characters at `start`.
unfoldable pub remove_chars : ℕ → List ℕ → ℕ → ℕ → Outcome (List ℕ × ℕ)
remove_chars zero string start string_len = done (string, string_len)
remove_chars (suc n) string start string_len = do
  string' ← close_gap (string_len - start) string start
  remove_chars n string' start (string_len - 1)

-- `for (k = stringLen; k >= j; k--) string[k + 1] = string[k]`, from `j + n - 1` down.
unfoldable pub open_gap : ℕ → List ℕ → ℕ → Outcome (List ℕ)
open_gap zero string j = done string
open_gap (suc n) string j = do
  c ← char_at string (j + n)
  string' ← memcpy_in string (j + n + 1) (c ∷ [])
  open_gap n string' j

-- The loop that inserts the characters at `j` and on.
unfoldable pub insert_chars : List ℕ → List ℕ → ℕ → ℕ → Outcome (List ℕ × ℕ)
insert_chars [] string j string_len = done (string, string_len)
insert_chars (c ∷ cs) string j string_len = do
  gapped ← open_gap (string_len + 1 - j) string j
  string' ← memcpy_in gapped j (c ∷ [])
  insert_chars cs string' (j + 1) (string_len + 1)

-- The outer loop; each round brings `i` closer to `string_len`.
unfoldable pub replace_loop : ℕ → List ℕ → List ℕ → ℕ → List ℕ → ℕ → ℕ → Outcome (List ℕ)
replace_loop zero string sub sub_len new_str i string_len = out_of_fuel
replace_loop (suc fuel) string sub sub_len new_str i string_len =
    let run : Outcome (List ℕ) = (do
      m ← match_run (suc (length sub)) string sub sub_len i 0 false
      let missed = replace_loop fuel string sub sub_len new_str (i + 1) string_len in
          if m.1
          then (do
            removed ← remove_chars m.0 string i string_len
            inserted ← insert_chars new_str removed.0 i removed.1
            replace_loop fuel inserted.0 sub sub_len new_str (i + length new_str + 1) inserted.1)
          else missed) in
    if ltb i string_len then run else done string

-- `new_str` is the string in its block.
unfoldable pub replace_substring : List ℕ → List ℕ → List ℕ → Outcome (List ℕ)
replace_substring string sub new_str = do
  string_len ← strlen string
  sub_len ← strlen sub
  elim (c_str new_str) [
    | none ↦ undefined
    | some s ↦ replace_loop (suc string_len) string sub sub_len s 0 string_len
  ]

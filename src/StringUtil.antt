-- ===== src/StringUtil.antt =====
-- CommandParser/string_util.c: trimming, the table of tokens, and the filters on lines and numbers.
-- A C string is the list of its bytes before the NUL. A loop `token = strtok(NULL, ..)` is a
-- recursion on the tokens that the successive calls return.
pub mod Trim
pub mod Words
pub mod Table
pub mod Texts
pub mod Tokens
pub mod Lines
pub mod Search
pub mod Replace
mod Tests
use tcp_lib_with_command_par.Prelude.{
  ℕ, zero, suc, ◌+◌, ◌-◌, ◌*◌, ◌^◌, Bool, true, false, ◌&&◌, ◌||◌, Option, none, some, List, [],
  ◌∷◌, ◌++◌, Outcome, done, aborted, undefined, ◌>>=◌, ltb, leb, ◌==◌, if◌then◌else◌, length, take,
  replicate, get_or, set, get_elem?, ℤ, pos, negsuc,
}
use tcp_lib_with_command_par.Prelude.Memory.{memcpy_in, splice}
use tcp_lib_with_command_par.Prelude.CString.{isspace, c_str, strncmp_eq}

-- MAX_CMD_TREE_DEPTH
abbrev pub max_cmd_tree_depth : ℕ
max_cmd_tree_depth = 16

-- LEAF_VALUE_HOLDER_SIZE
abbrev pub leaf_value_holder_size : ℕ
leaf_value_holder_size = 64

-- CONS_INPUT_BUFFER_SIZE
abbrev pub cons_input_buffer_size : ℕ
cons_input_buffer_size = 2048

-- `while (len - 1 > 0 && isspace(ptr[len - 1])) ptr[--len] = 0;` gives the final `len`.
unfoldable pub trim_end : ℕ → List ℕ → ℕ
trim_end zero s = zero
trim_end (suc zero) s = suc zero
trim_end (suc (suc k)) s =
    let shorter = trim_end (suc k) s in
    if isspace (get_or s (suc k) 0) then shorter else suc (suc k)

-- `while (*ptr && isspace(*ptr)) ++ptr;`
unfoldable pub skip_spaces : List ℕ → List ℕ
skip_spaces [] = []
skip_spaces (c ∷ s) = if isspace c then skip_spaces s else c ∷ s

unfoldable pub string_space_trim : List ℕ → List ℕ
string_space_trim [] = []
string_space_trim (c ∷ s) =
    let len = length (c ∷ s) in
    if isspace c || isspace (get_or (c ∷ s) (len - 1) 0)
    then skip_spaces (take (trim_end len (c ∷ s)) (c ∷ s))
    else c ∷ s

-- `strtok` with one delimiter: what it skips, and the token and the rest behind its delimiter.
unfoldable pub skip_delim : ℕ → List ℕ → List ℕ
skip_delim d [] = []
skip_delim d (c ∷ s) = if c == d then skip_delim d s else c ∷ s

unfoldable pub span_token : ℕ → List ℕ → List ℕ × List ℕ
span_token d [] = ([], [])
span_token d (c ∷ s) =
    let (token, rest) = span_token d s in if c == d then ([], s) else (c ∷ token, rest)

abbrev pub strtok_at : ℕ → List ℕ → Option (List ℕ × List ℕ)
strtok_at d [] = none
strtok_at d (c ∷ s) = some (span_token d (c ∷ s))

unfoldable pub strtok : ℕ → List ℕ → Option (List ℕ × List ℕ)
strtok d s = strtok_at d (skip_delim d s)

-- What the calls of `strtok` return until the first NULL, with the length of the string as fuel.
unfoldable pub strtok_from : ℕ → ℕ → List ℕ → List (List ℕ)
strtok_from zero d s = []
strtok_from (suc fuel) d s = elim (strtok d s) [
  | none ↦ []
  | some (token, rest) ↦ token ∷ strtok_from fuel d rest
]

unfoldable pub strtok_all : ℕ → List ℕ → List (List ℕ)
strtok_all d s = strtok_from (length s) d s

-- `tokens`: the cells of the table, each a block of bytes.
abbrev pub Tokens : Type 0
Tokens = List (List ℕ)

abbrev pub blank : List ℕ
blank = replicate leaf_value_holder_size 0

unfoldable pub init_token_array : Tokens
init_token_array = replicate max_cmd_tree_depth blank

unfoldable pub re_init_tokens : Tokens → ℕ → Tokens
re_init_tokens tokens zero = tokens
re_init_tokens [] (suc n) = []
re_init_tokens (cell ∷ tokens) (suc n) = blank ∷ re_init_tokens tokens n

unfoldable pub untokenize : Tokens → ℕ → Outcome Tokens
untokenize tokens index =
    if ltb index (length tokens) then done (set tokens index blank) else undefined

-- `strncpy(tokens[index], token, size)` for the first `size` bytes of the token.
unfoldable pub store_token : Tokens → ℕ → List ℕ → Outcome Tokens
store_token tokens index token = elim (get_elem? tokens index) [
  | none ↦ undefined
  | some cell ↦ do cell' ← memcpy_in cell 0 token; done (set tokens index cell')
]

unfoldable pub tokenize : Tokens → List ℕ → ℕ → ℕ → Outcome Tokens
tokenize tokens token size index =
    if ltb leaf_value_holder_size size
    then aborted
    else store_token tokens index (take size token ++ replicate (size - length token) 0)

-- The string in a cell of the table.
unfoldable pub get_token : Tokens → ℕ → Outcome (List ℕ)
get_token tokens index = elim (get_elem? tokens index) [
  | none ↦ undefined
  | some cell ↦ elim (c_str cell) [ none ↦ undefined | some s ↦ done s ]
]

-- The loop over the tokens behind the first, `i` being the number of those stored.
unfoldable pub tokenizer_loop : Tokens → ℕ → List (List ℕ) → Outcome (Tokens × ℕ)
tokenizer_loop tokens i [] = done (tokens, i)
tokenizer_loop tokens i (token ∷ rest) = do
  cleared ← untokenize tokens i
  stored ← store_token cleared i token
  (if i + 1 == max_cmd_tree_depth + 1
      then done (re_init_tokens stored max_cmd_tree_depth, 0)
      else tokenizer_loop stored (i + 1) rest)

abbrev pub tokenizer_first : Tokens → List (List ℕ) → Outcome (Tokens × ℕ)
tokenizer_first tokens [] = done (tokens, 0)
tokenizer_first tokens (token ∷ rest) = do
  cleared ← untokenize tokens 0
  stored ← store_token cleared 0 token
  tokenizer_loop stored 1 rest

-- The table and `*token_cnt`. The result is NULL where the count is 0 (the return of a full table
-- is behind an access out of the table).
unfoldable pub tokenizer : Tokens → List ℕ → ℕ → Outcome (Tokens × ℕ)
tokenizer tokens text d =
    if leb cons_input_buffer_size (length text)
    then undefined
    else let a_str = string_space_trim text in
      if ltb (length a_str) 1 then done (tokens, 0) else tokenizer_first tokens (strtok_all d a_str)

-- `strstr(s, pattern) != NULL`
unfoldable pub strstr : List ℕ → List ℕ → Bool
strstr [] pattern = strncmp_eq [] pattern (length pattern)
strstr (c ∷ s) pattern = strncmp_eq (c ∷ s) pattern (length pattern) || strstr s pattern

unfoldable pub pattern_match : List ℕ → ℕ → List ℕ → Bool
pattern_match string zero pattern = false
pattern_match string (suc n) pattern = strstr string pattern

-- The loop of `grep` over the lines: `rc` bytes of the block `string` are written. A `sprintf`
-- writes the line, the newline and a NUL.
unfoldable pub grep_loop : List ℕ → ℕ → List ℕ → List (List ℕ) → Outcome (List ℕ × ℕ)
grep_loop string rc pattern [] = done (string, rc)
grep_loop string rc pattern (token ∷ rest) =
    if pattern_match token (length token) pattern
    then (do
      string' ← memcpy_in string rc (token ++ 10 ∷ 0 ∷ [])
      grep_loop string' (rc + (length token + 1)) pattern rest)
    else grep_loop string rc pattern rest

-- `grep(string, string_size, pattern)` on the block that `string` points to.
unfoldable pub grep : List ℕ → ℕ → List ℕ → Outcome (List ℕ × ℕ)
grep string zero pattern = done (string, 0)
grep string (suc n) pattern =
    if ltb (length string) (suc n) then undefined else elim (c_str (take (suc n) string)) [
      | none ↦ undefined
      | some text ↦ grep_loop (splice string 0 (replicate (suc n) 0)) 0 pattern (strtok_all 10 text)
    ]

abbrev pub is_digit : ℕ → Bool
is_digit c = leb b'0' c && leb c b'9'

unfoldable pub is_number : List ℕ → Bool
is_number [] = true
is_number (c ∷ s) = is_digit c && is_number s

-- `atoi` on a string of digits; a value out of `int` is undefined.
unfoldable pub digits_value : ℕ → List ℕ → ℕ
digits_value n [] = n
digits_value n (c ∷ s) = digits_value (n * 10 + (c - b'0')) s

unfoldable pub atoi : List ℕ → Outcome ℕ
atoi s = let n = digits_value 0 s in if ltb n (2 ^ 31) then done n else undefined

-- `count` numbers have been seen; an `index` that is not positive is never met.
unfoldable pub fetch_loop : ℕ → ℤ → List (List ℕ) → Outcome ℕ
fetch_loop count index [] = done 0
fetch_loop count index (token ∷ rest) =
    let onward = fetch_loop (count + 1) index rest in
    let skipped = fetch_loop count index rest in
    if is_number token
    then (if elim index [ pos k ↦ k == count + 1 | negsuc k ↦ false ] then atoi token else onward)
    else skipped

-- `string_fetch_integer` on a block that holds a string within its first `string_size` bytes.
unfoldable pub string_fetch_integer : List ℕ → ℕ → ℤ → Outcome ℕ
string_fetch_integer string zero index = done 0
string_fetch_integer string (suc n) index =
    if ltb (length string) (suc n) then undefined else elim (c_str (take (suc n) string)) [
      | none ↦ undefined
      | some text ↦ fetch_loop 0 index (strtok_all b' ' text)
    ]

-- ===== src/StringUtil/Tests.antt =====
-- The theorems on string_util.c at concrete texts.
use tcp_lib_with_command_par.Prelude.{
  ℕ, ◌≡◌, refl, List, [], ◌∷◌, ◌++◌, undefined, arith, replicate, done,
}
use tcp_lib_with_command_par.Prelude.CString.{codes, c_str, isspace, strncmp_eq}
use tcp_lib_with_command_par.StringUtil.{
  Tokens, blank, max_cmd_tree_depth, tokenizer, string_space_trim, trim_end, skip_spaces, grep,
  pattern_match, strstr,
}
use tcp_lib_with_command_par.Prelude.Memory.{memcpy_in, splice}
use tcp_lib_with_command_par.StringUtil.Replace.{
  replace_substring, replace_loop, match_run, remove_chars, insert_chars, close_gap, open_gap,
  char_at, strlen,
}
use tcp_lib_with_command_par.StringUtil.Trim.{Trims, string_space_trim-Trims}
use tcp_lib_with_command_par.StringUtil.Words.{words, words_from}
use tcp_lib_with_command_par.StringUtil.Tokens.{Tokenized, tokenizer-Tokenized, tokenizer_overflow}
use tcp_lib_with_command_par.StringUtil.Lines.{Holds, Greps, matching, grep-matching}

abbrev table : Tokens
table = replicate max_cmd_tree_depth blank

abbrev line : List ℕ
line = codes "  show  history 12 "

abbrev seventeen : List ℕ
seventeen = codes "a b c d e f g h i j k l m n o p q"

abbrev lines : List ℕ
lines = codes "lsp 3\nseq 14\nlsp 95"

string_space_trim_runs : string_space_trim line ≡ codes "show  history 12"
unfolding string_space_trim trim_end skip_spaces isspace
string_space_trim_runs = refl

string_space_trim-Trims_example : Trims line (string_space_trim line)
string_space_trim-Trims_example = string_space_trim-Trims line

words_run : words b' ' line ≡ codes "show" ∷ codes "history" ∷ codes "12" ∷ []
unfolding words_from
words_run = refl

tokenizer-Tokenized_example :
    Tokenized (words b' ' (string_space_trim line)) (tokenizer table line b' ')
unfolding words_from string_space_trim trim_end skip_spaces isspace
tokenizer-Tokenized_example =
    tokenizer-Tokenized table line b' ' refl (omega arith) (omega arith) (omega arith) (omega arith)

tokenizer_overflow_example : tokenizer table seventeen b' ' ≡ undefined
unfolding words_from string_space_trim trim_end skip_spaces isspace
tokenizer_overflow_example =
    tokenizer_overflow table seventeen b' ' refl (omega arith) (omega arith)

lines-Holds : Holds (lines ++ 0 ∷ 0 ∷ []) 19 lines
unfolding c_str
lines-Holds = record { inside = omega arith; string = refl }

grep-matching_example :
    Greps 21 (matching (codes "lsp") (words 10 lines)) (grep (lines ++ 0 ∷ 0 ∷ []) 20 (codes "lsp"))
unfolding words_from matching pattern_match strstr strncmp_eq
grep-matching_example =
    grep-matching (lines ++ 0 ∷ 0 ∷ []) 19 (codes "lsp") lines lines-Holds (omega arith)

-- A word in the middle is replaced; a match at the end compares both terminators and reads on.
replace_substring_middle :
    replace_substring (codes "a b c" ++ 0 ∷ 0 ∷ []) (codes "b" ++ 0 ∷ []) (codes "xy" ++ 0 ∷ [])
    ≡ done (codes "a xy c" ++ 0 ∷ [])
unfolding replace_substring replace_loop match_run remove_chars insert_chars close_gap open_gap
    char_at strlen c_str memcpy_in splice
replace_substring_middle = refl

replace_substring_end :
    replace_substring (codes "a b" ++ 0 ∷ 0 ∷ []) (codes "b" ++ 0 ∷ []) (codes "xy" ++ 0 ∷ [])
    ≡ undefined
unfolding replace_substring replace_loop match_run char_at strlen c_str
replace_substring_end = refl

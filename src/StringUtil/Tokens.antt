-- ===== src/StringUtil/Tokens.antt =====
-- What `tokenizer` leaves in the table of tokens.
use native.Mathlib.Nat.{zero-add}
use tcp_lib_with_command_par.Prelude.{
  ℕ, suc, ◌≤◌, ◌<◌, ◌≡◌, refl, sym, ap, ◌∙◌, false, List, [], ◌∷◌, if◌then◌else◌, length, arith,
  some, map, take, Outcome, done, undefined, ltb, leb,
}
use tcp_lib_with_command_par.Prelude.CString.{c_str}
use tcp_lib_with_command_par.StringUtil.{
  Tokens, max_cmd_tree_depth, cons_input_buffer_size, tokenizer, tokenizer_loop, strtok_all,
  string_space_trim, tokenizer_first,
}
use tcp_lib_with_command_par.StringUtil.Words.{words, words_from, strtok_all-words}
use tcp_lib_with_command_par.StringUtil.Table.{
  AllFit, fill, length-fill, take-fill, tokenizer_loop-fill, tokenizer_loop-overflow,
}
use tcp_lib_with_command_par.StringUtil.Texts.{
  IsText, c_str-cells, string_space_trim-IsText, words_from-AllText,
}

-- The table that is left holds the given words, and their number is the count.
pub record Tokenized (ws : List (List ℕ)) (out : Outcome (Tokens × ℕ)) : Type 0 where
  pub table : Tokens
  pub returns : out ≡ done (table, length ws)
  pub full : length table ≡ max_cmd_tree_depth
  pub holds : map c_str (take (length ws) table) ≡ map some ws

tokenizer_first-loop :
    (tokens : Tokens) (ws : List (List ℕ)) → tokenizer_first tokens ws ≡ tokenizer_loop tokens 0 ws
unfolding tokenizer_loop
tokenizer_first-loop tokens [] = refl
tokenizer_first-loop tokens (w ∷ ws) = refl

trimmed-loop :
    (tokens : Tokens) (d : ℕ) (t : List ℕ)
    → (if ltb (length t) 1 then done (tokens, 0) else tokenizer_first tokens (strtok_all d t))
      ≡ tokenizer_loop tokens 0 (words d t)
trimmed-loop tokens d [] = unfold tokenizer_loop words_from in refl
trimmed-loop tokens d (c ∷ t) = rw (lt→not_ltb (length t)) (
    tokenizer_first-loop tokens (strtok_all d (c ∷ t))
    ∙ ap (tokenizer_loop tokens 0) (strtok_all-words d (c ∷ t)))
  where
    lt→not_ltb : (n : ℕ) → ltb (suc n) 1 ≡ false
    lt→not_ltb n = ground arith

tokenizer-loop :
    (tokens : Tokens) (text : List ℕ) (d : ℕ)
    → length text < cons_input_buffer_size
    → tokenizer tokens text d ≡ tokenizer_loop tokens 0 (words d (string_space_trim text))
unfolding tokenizer
tokenizer-loop tokens text d short =
    let fits : leb cons_input_buffer_size (length text) ≡ false = ground arith in
    rw fits (trimmed-loop tokens d (string_space_trim text))

-- `tokenizer` on a text of fewer than 2048 bytes whose words number at most 16 and are shorter
-- than 64 bytes returns, with the words of the trimmed text, in order, in the first cells of the
-- table, and their number as the count.
pub tokenizer-Tokenized :
    (tokens : Tokens) (text : List ℕ) (d : ℕ)
    → length tokens ≡ max_cmd_tree_depth
    → length text < cons_input_buffer_size
    → IsText text
    → AllFit (words d (string_space_trim text))
    → length (words d (string_space_trim text)) ≤ max_cmd_tree_depth
    → Tokenized (words d (string_space_trim text)) (tokenizer tokens text d)
tokenizer-Tokenized tokens text d len short txt fit few =
    let ws = words d (string_space_trim text) in
    record {
      table = fill tokens 0 ws;
      returns =
          tokenizer-loop tokens text d short
          ∙ tokenizer_loop-fill tokens 0 ws len fit (omega arith)
          ∙ ap (λ n. done (fill tokens 0 ws, n)) (zero-add (length ws));
      full = length-fill tokens 0 ws ∙ len;
      holds =
          ap (λ n. map c_str (take n (fill tokens 0 ws))) (sym (zero-add (length ws)))
          ∙ ap (map c_str) (take-fill tokens 0 ws (omega arith))
          ∙ c_str-cells ws
              (words_from-AllText d [] (string_space_trim text) tt
                (string_space_trim-IsText text txt))
              fit;
    }

-- With more than 16 words `tokenizer` writes past the end of its table.
pub tokenizer_overflow :
    (tokens : Tokens) (text : List ℕ) (d : ℕ)
    → length tokens ≡ max_cmd_tree_depth
    → length text < cons_input_buffer_size
    → max_cmd_tree_depth < length (words d (string_space_trim text))
    → tokenizer tokens text d ≡ undefined
tokenizer_overflow tokens text d len short many =
    tokenizer-loop tokens text d short
    ∙ tokenizer_loop-overflow tokens 0 (words d (string_space_trim text)) len (omega arith)
        (omega arith)

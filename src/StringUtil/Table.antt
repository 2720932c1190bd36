-- ===== src/StringUtil/Table.antt =====
-- The table of tokens of CommandParser/string_util.c, filled with words.
use mathlib.Core.List.{append_assoc, append-nil}
use tcp_lib_with_command_par.Prelude.{
  dec_lt, ℕ, zero, suc, ◌+◌, ◌≤◌, ◌<◌, ◌≡◌, refl, sym, ap, ◌∙◌, List, [], ◌∷◌, ◌++◌, length, arith,
  none, map, take, set, get_elem?, done, undefined, length-set, get_elem?-set_self,
}
use tcp_lib_with_command_par.Prelude.Memory.{splice, memcpy_in, memcpy_in-done}
use tcp_lib_with_command_par.StringUtil.{
  Tokens, blank, max_cmd_tree_depth, leaf_value_holder_size, store_token, untokenize,
  tokenizer_loop,
}

-- Every word fits a cell of the table with its NUL.
abbrev pub AllFit : List (List ℕ) → Type 0
AllFit [] = Unit
AllFit (w ∷ ws) = (length w < leaf_value_holder_size) × AllFit ws

-- The cell that holds a word: its bytes, then zeros.
abbrev pub cell_of : List ℕ → List ℕ
cell_of w = splice blank 0 w

-- The table with words stored from index `i` on.
pub fill : Tokens → ℕ → List (List ℕ) → Tokens
fill tokens i [] = tokens
fill tokens i (w ∷ ws) = fill (set tokens i (cell_of w)) (i + 1) ws

module _ {ℓ} {A : Type ℓ} where
  take-set :
      (xs : List A) (i : ℕ) (v : A)
      → i < length xs
      → take (suc i) (set xs i v) ≡ take i xs ++ v ∷ []
  take-set [] i v h = elim h [ ]
  take-set (x ∷ xs) zero v h = refl
  take-set (x ∷ xs) (suc i) v h = ap (λ l. x ∷ l) (take-set xs i v (omega arith))

  set-set : (xs : List A) (i : ℕ) (u v : A) → set (set xs i u) i v ≡ set xs i v
  set-set [] i u v = refl
  set-set (x ∷ xs) zero u v = refl
  set-set (x ∷ xs) (suc i) u v = ap (λ l. x ∷ l) (set-set xs i u v)

  get_elem?-past : (xs : List A) (i : ℕ) → length xs ≤ i → get_elem? xs i ≡ none
  get_elem?-past [] i h = refl
  get_elem?-past (x ∷ xs) zero h = elim h [ ]
  get_elem?-past (x ∷ xs) (suc i) h = get_elem?-past xs i (omega arith)

module _ (tokens : Tokens) (i : ℕ) (w : List ℕ) where
  untokenize-done : i < length tokens → untokenize tokens i ≡ done (set tokens i blank)
  unfolding untokenize
  untokenize-done h = ground arith

  store_token-blank :
      i < length tokens
      → length w ≤ leaf_value_holder_size
      → store_token (set tokens i blank) i w ≡ done (set tokens i (cell_of w))
  unfolding store_token
  store_token-blank h k =
      rw (get_elem?-set_self tokens i blank h, store_token)
        (rw (memcpy_in-done blank 0 w (omega arith), set-set tokens i blank (cell_of w)))

  store_token-long :
      i < length tokens
      → leaf_value_holder_size < length w
      → store_token (set tokens i blank) i w ≡ undefined
  unfolding store_token memcpy_in
  store_token-long h k = rw (get_elem?-set_self tokens i blank h, store_token) (ground arith)

  untokenize-past : length tokens ≤ i → untokenize tokens i ≡ undefined
  unfolding untokenize
  untokenize-past h = ground arith

-- The table has its full length, and `i` tokens are stored.
module _ (tokens : Tokens) (i : ℕ) (w : List ℕ) (ws : List (List ℕ))
    (len : length tokens ≡ max_cmd_tree_depth) where
  loop_step :
      i < max_cmd_tree_depth
      → length w ≤ leaf_value_holder_size
      → tokenizer_loop tokens i (w ∷ ws) ≡ tokenizer_loop (set tokens i (cell_of w)) (i + 1) ws
  unfolding tokenizer_loop
  loop_step h k =
      rw (untokenize-done tokens i w (omega arith), store_token-blank tokens i w (omega arith) k)
        (ground arith)

  loop_long :
      i < max_cmd_tree_depth
      → leaf_value_holder_size < length w
      → tokenizer_loop tokens i (w ∷ ws) ≡ undefined
  unfolding tokenizer_loop
  loop_long h k =
      rw (untokenize-done tokens i w (omega arith), store_token-long tokens i w (omega arith) k)

  loop_past : max_cmd_tree_depth ≤ i → tokenizer_loop tokens i (w ∷ ws) ≡ undefined
  unfolding tokenizer_loop
  loop_past h = rw (untokenize-past tokens i w (omega arith))

pub tokenizer_loop-fill :
    (tokens : Tokens) (i : ℕ) (ws : List (List ℕ))
    → length tokens ≡ max_cmd_tree_depth
    → AllFit ws
    → i + length ws ≤ max_cmd_tree_depth
    → tokenizer_loop tokens i ws ≡ done (fill tokens i ws, i + length ws)
tokenizer_loop-fill tokens i [] len fit h =
    unfold tokenizer_loop fill in ap (λ (n : ℕ). done (tokens, n)) (omega arith)
tokenizer_loop-fill tokens i (w ∷ ws) len fit h =
    loop_step tokens i w ws len (omega arith) (omega (arith, fit.0))
    ∙ tokenizer_loop-fill (set tokens i (cell_of w)) (i + 1) ws
        (length-set tokens i (cell_of w) ∙ len) fit.1 (omega arith)
    ∙ unfold fill in
      ap (λ (n : ℕ). done (fill (set tokens i (cell_of w)) (i + 1) ws, n)) (omega arith)

-- One token more than the table holds is written past its end.
pub tokenizer_loop-overflow :
    (tokens : Tokens) (i : ℕ) (ws : List (List ℕ))
    → length tokens ≡ max_cmd_tree_depth
    → i ≤ max_cmd_tree_depth
    → max_cmd_tree_depth < i + length ws
    → tokenizer_loop tokens i ws ≡ undefined
tokenizer_loop-overflow tokens i [] len h k = absurd (omega arith)
tokenizer_loop-overflow tokens i (w ∷ ws) len h k = elim (dec_lt i max_cmd_tree_depth) [
  | no full ↦ loop_past tokens i w ws len (omega arith)
  | yes room ↦ elim (dec_lt leaf_value_holder_size (length w)) [
    | yes long ↦ loop_long tokens i w ws len room long
    | no fits ↦
        loop_step tokens i w ws len room (omega arith)
        ∙ tokenizer_loop-overflow (set tokens i (cell_of w)) (i + 1) ws
            (length-set tokens i (cell_of w) ∙ len) (omega arith) (omega arith)
  ]
]

pub length-fill :
    (tokens : Tokens) (i : ℕ) (ws : List (List ℕ)) → length (fill tokens i ws) ≡ length tokens
unfolding fill
length-fill tokens i [] = refl
length-fill tokens i (w ∷ ws) =
    length-fill (set tokens i (cell_of w)) (i + 1) ws ∙ length-set tokens i (cell_of w)

pub take-fill :
    (tokens : Tokens) (i : ℕ) (ws : List (List ℕ))
    → i + length ws ≤ length tokens
    → take (i + length ws) (fill tokens i ws) ≡ take i tokens ++ map cell_of ws
unfolding fill
take-fill tokens i [] h = ap (λ n. take n tokens) (omega arith) ∙ sym (append-nil (take i tokens))
take-fill tokens i (w ∷ ws) h =
    ap (λ n. take n (fill (set tokens i (cell_of w)) (i + 1) ws)) (omega arith)
    ∙ take-fill (set tokens i (cell_of w)) (i + 1) ws
        (omega (arith, length-set tokens i (cell_of w)))
    ∙ ap (λ n. take n (set tokens i (cell_of w)) ++ map cell_of ws) {y = suc i} (omega arith)
    ∙ ap (λ l. l ++ map cell_of ws) (take-set tokens i (cell_of w) (omega arith))
    ∙ append_assoc (take i tokens) (cell_of w ∷ []) (map cell_of ws)

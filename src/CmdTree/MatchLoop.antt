-- ===== src/CmdTree/MatchLoop.antt =====
-- The loop of `find_matching_param` in CommandParser/parser.c against the choices of a token.
use mathlib.Core.List.{append_assoc, append-nil}
use tcp_lib_with_command_par.Prelude.{
  ℕ, suc, ◌+◌, ◌<◌, ◌≡◌, refl, sym, ap, subst, lt→ltb, ◌∙◌, true, false, ◌&&◌, List, [], ◌∷◌, ◌++◌,
  inl, inr, Bool-cases, if◌then◌else◌, length, arith, ◌==◌, Option, none, some, Outcome, done,
  aborted, ltb, Option-cases, length-append,
}
use tcp_lib_with_command_par.Prelude.CString.{strncmp_eq, str_eq}
use tcp_lib_with_command_par.CmdTree.{Store, Kind, cmd, leaf, no_cmd, possibility_array_size}
use tcp_lib_with_command_par.CmdTree.Find.{Found, match_loop, is_cmd_string_match}
use tcp_lib_with_command_par.CmdTree.Choices.{
  begins_with, beginning, exactly, last_leaf, leaf_or, name_of, named, visible,
}

-- A text that begins with one of the same length is equal to it.
match_exact :
    (name str : List ℕ) → (begins_with name str && (length str == length name)) ≡ str_eq str name
unfolding begins_with str_eq
match_exact [] [] = refl
match_exact [] (y ∷ str) = refl
match_exact (x ∷ name) [] = ground arith
match_exact (x ∷ name) (y ∷ str) = ground (arith, match_exact name str)

is_cmd_string_match-begins_with :
    (name str : List ℕ) → is_cmd_string_match name str ≡ begins_with name str
unfolding is_cmd_string_match strncmp_eq begins_with
is_cmd_string_match-begins_with name [] = refl
is_cmd_string_match-begins_with [] (y ∷ str) = refl
is_cmd_string_match-begins_with (x ∷ name) (y ∷ str) =
    ap (λ b. x == y && b) (is_cmd_string_match-begins_with name str)

-- What the loop returns, by the specification, from what it has found before.
pub record Matches (store : Store) (str ps : List ℕ) (found : Found) (out : Outcome Found)
    : Type 0 where
  pub result : Found
  pub returns : out ≡ done result
  pub exact_wins : (p : ℕ) → exactly store str ps ≡ some p → result.possibilities ≡ p ∷ []
  pub collected :
      exactly store str ps ≡ none
      → result.possibilities ≡ found.possibilities ++ beginning store str ps
  pub leaf_kept :
      exactly store str ps ≡ none → result.leaf_index ≡ last_leaf store ps found.leaf_index

module _ (store : Store) (str : List ℕ) (p : ℕ) (rest : List (Option ℕ)) (found : Found) where
  abbrev at_name : List ℕ → Outcome Found
  at_name name =
      if begins_with name str
      then (if length str == length name
          then done (record found { possibilities = p ∷ [] })
          else if ltb (length (found.possibilities ++ p ∷ [])) possibility_array_size
          then match_loop store str rest
              (record found { possibilities = found.possibilities ++ p ∷ [] })
          else aborted)
      else match_loop store str rest found

  loop-command :
      (name : List ℕ)
      → name_of (store p).kind ≡ some name
      → match_loop store str (some p ∷ rest) found ≡ at_name name
  unfolding match_loop
  loop-command name e = go (store p).kind refl
    where
      go :
          (k : Kind)
          → (store p).kind ≡ k
          → match_loop store str (some p ∷ rest) found ≡ at_name name
      go (cmd n) h =
          let same : n ≡ name = cc in
          rw (h, match_loop, is_cmd_string_match-begins_with n str) (ap at_name same)
      go (no_cmd n) h =
          let same : n ≡ name = cc in
          rw (h, match_loop, is_cmd_string_match-begins_with n str) (ap at_name same)
      go (leaf l) h = cc

  loop-leaf :
      name_of (store p).kind ≡ none
      → match_loop store str (some p ∷ rest) found
        ≡ match_loop store str rest (record found { leaf_index = some p })
  unfolding match_loop
  loop-leaf e = go (store p).kind refl
    where
      go :
          (k : Kind)
          → (store p).kind ≡ k
          → match_loop store str (some p ∷ rest) found
            ≡ match_loop store str rest (record found { leaf_index = some p })
      go (cmd n) h = cc
      go (no_cmd n) h = cc
      go (leaf l) h = rw (h, match_loop) refl

  module _ (kind : Option (List ℕ)) (e : name_of (store p).kind ≡ kind) (ps : List ℕ) where
    beginning-cons : beginning store str (p ∷ ps) ≡ (
        if named (λ name. begins_with name str) kind
        then p ∷ beginning store str ps
        else beginning store str ps)
    unfolding beginning
    beginning-cons =
        ap
          (λ k.
            if named (λ name. begins_with name str) k
            then p ∷ beginning store str ps
            else beginning store str ps)
          e

    exactly-cons :
        exactly store str (p ∷ ps)
        ≡ (if named (str_eq str) kind then some p else exactly store str ps)
    unfolding exactly
    exactly-cons = ap (λ k. if named (str_eq str) k then some p else exactly store str ps) e

    last_leaf-cons :
        (known : Option ℕ)
        → last_leaf store (p ∷ ps) known ≡ last_leaf store ps (leaf_or p kind known)
    unfolding last_leaf
    last_leaf-cons known = ap (λ k. last_leaf store ps (leaf_or p k known)) e

  abbrev Continues : Type 0
  Continues =
      (f : Found)
      → length f.possibilities + length (beginning store str (visible rest))
        < possibility_array_size
      → Matches store str (visible rest) f (match_loop store str rest f)

  abbrev Fits : List ℕ → Type 0
  Fits ps = length found.possibilities + length (beginning store str ps) < possibility_array_size

  leaf-Matches :
      name_of (store p).kind ≡ none
      → Fits (p ∷ visible rest)
      → Continues
      → Matches store str (p ∷ visible rest) found (match_loop store str (some p ∷ rest) found)
  leaf-Matches e h ih =
      let b = beginning-cons none e (visible rest) in
      let x = exactly-cons none e (visible rest) in
      let m =
        ih (record found { leaf_index = some p })
          (subst (λ l. length found.possibilities + length l < possibility_array_size) b h) in
      record {
        result = m.result;
        returns = loop-leaf e ∙ m.returns;
        exact_wins = λ q w. m.exact_wins q (sym x ∙ w);
        collected = λ w. m.collected (sym x ∙ w) ∙ ap (λ l. found.possibilities ++ l) (sym b);
        leaf_kept = λ w.
            m.leaf_kept (sym x ∙ w) ∙ sym (last_leaf-cons none e (visible rest) found.leaf_index);
      }

  module _ (name : List ℕ) (e : name_of (store p).kind ≡ some name) (h : Fits (p ∷ visible rest))
      (ih : Continues) where
    miss-Matches :
        begins_with name str ≡ false → Matches store str (p ∷ visible rest) found (at_name name)
    miss-Matches miss =
        let b : beginning store str (p ∷ visible rest) ≡ beginning store str (visible rest) =
          beginning-cons (some name) e (visible rest) ∙ rw miss refl in
        let other : str_eq str name ≡ false = sym (match_exact name str) ∙ rw miss refl in
        let x : exactly store str (p ∷ visible rest) ≡ exactly store str (visible rest) =
          exactly-cons (some name) e (visible rest) ∙ rw other refl in
        let m =
          ih found
            (subst (λ l. length found.possibilities + length l < possibility_array_size) b h) in
        record {
          result = m.result;
          returns = rw miss m.returns;
          exact_wins = λ q w. m.exact_wins q (sym x ∙ w);
          collected = λ w. m.collected (sym x ∙ w) ∙ ap (λ l. found.possibilities ++ l) (sym b);
          leaf_kept = λ w.
              m.leaf_kept (sym x ∙ w)
              ∙ sym (last_leaf-cons (some name) e (visible rest) found.leaf_index);
        }

    exact-Matches :
        begins_with name str ≡ true
        → (length str == length name) ≡ true
        → Matches store str (p ∷ visible rest) found (at_name name)
    exact-Matches hit same =
        let equal : str_eq str name ≡ true = sym (match_exact name str) ∙ rw (hit, same) refl in
        let x : exactly store str (p ∷ visible rest) ≡ some p =
          exactly-cons (some name) e (visible rest) ∙ rw equal refl in
        record {
          result = record found { possibilities = p ∷ [] };
          returns = rw (hit, same) refl;
          exact_wins = λ q w. let k : p ≡ q = cc (x, w) in ap (λ r. r ∷ []) k;
          collected = λ w. cc (x, w);
          leaf_kept = λ w. cc (x, w);
        }

    more-Matches :
        begins_with name str ≡ true
        → (length str == length name) ≡ false
        → Matches store str (p ∷ visible rest) found (at_name name)
    more-Matches hit longer =
        let b : beginning store str (p ∷ visible rest) ≡ p ∷ beginning store str (visible rest) =
          beginning-cons (some name) e (visible rest) ∙ rw hit refl in
        let other : str_eq str name ≡ false = sym (match_exact name str) ∙ rw (hit, longer) refl in
        let x : exactly store str (p ∷ visible rest) ≡ exactly store str (visible rest) =
          exactly-cons (some name) e (visible rest) ∙ rw other refl in
        let k : length found.possibilities + suc (length (beginning store str (visible rest)))
            < possibility_array_size =
          subst (λ l. length found.possibilities + length l < possibility_array_size) b h in
        let grown = length-append found.possibilities (p ∷ []) in
        let room : ltb (length (found.possibilities ++ p ∷ [])) possibility_array_size ≡ true =
          lt→ltb (length (found.possibilities ++ p ∷ [])) possibility_array_size
            (omega (arith, grown, k)) in
        let m =
          ih (record found { possibilities = found.possibilities ++ p ∷ [] })
            (omega (arith, grown, k)) in
        record {
          result = m.result;
          returns = rw (hit, longer, room) m.returns;
          exact_wins = λ q w. m.exact_wins q (sym x ∙ w);
          collected = λ w.
              m.collected (sym x ∙ w)
              ∙ append_assoc found.possibilities (p ∷ []) (beginning store str (visible rest))
              ∙ ap (λ l. found.possibilities ++ l) (sym b);
          leaf_kept = λ w.
              m.leaf_kept (sym x ∙ w)
              ∙ sym (last_leaf-cons (some name) e (visible rest) found.leaf_index);
        }

  some-Matches :
      Fits (p ∷ visible rest)
      → Continues
      → Matches store str (p ∷ visible rest) found (match_loop store str (some p ∷ rest) found)
  some-Matches h ih = elim (Option-cases (name_of (store p).kind)) [
    | inl e ↦ leaf-Matches e h ih
    | inr (name, e) ↦ rw (loop-command name e) (elim (Bool-cases (begins_with name str)) [
      | inr miss ↦ miss-Matches name e h ih miss
      | inl hit ↦ elim (Bool-cases (length str == length name)) [
        | inl same ↦ exact-Matches name e h ih hit same
        | inr longer ↦ more-Matches name e h ih hit longer
      ]
    ])
  ]

pub match_loop-Matches :
    (store : Store) (str : List ℕ) (options : List (Option ℕ)) (found : Found)
    → length found.possibilities + length (beginning store str (visible options))
      < possibility_array_size
    → Matches store str (visible options) found (match_loop store str options found)
unfolding match_loop beginning exactly last_leaf
match_loop-Matches store str [] found h = record {
  result = found;
  returns = refl;
  exact_wins = λ p e. cc;
  collected = λ e. sym (append-nil found.possibilities);
  leaf_kept = λ e. refl;
}
match_loop-Matches store str (none ∷ rest) found h = record {
  result = found;
  returns = refl;
  exact_wins = λ p e. cc;
  collected = λ e. sym (append-nil found.possibilities);
  leaf_kept = λ e. refl;
}
match_loop-Matches store str (some p ∷ rest) found h =
    some-Matches store str p rest found h (λ f k. match_loop-Matches store str rest f k)

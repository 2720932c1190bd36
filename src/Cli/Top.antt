-- ===== src/Cli/Top.antt =====
-- `goto_top_of_cmd_tree` of CommandParser/cmd_hier.c: the way from the cursor up to the root.
use mathlib.Core.Path.{fun_ext}
use tcp_lib_with_command_par.Prelude.{
  ℕ, zero, suc, ◌<◌, ◌≡◌, ◌≢◌, refl, sym, ap, ◌∙◌, inl, inr, Bool, true, false, ◌||◌, Bool-cases,
  ◌==◌, if◌then◌else◌, some, List, [], ◌∷◌, ◌++◌, listed, done, arith, length,
}
use tcp_lib_with_command_par.Prelude.CString.{codes}
use tcp_lib_with_command_par.SerBuf.{reset_serialize_buffer}
use tcp_lib_with_command_par.SerBuf.Append.{contents}
use tcp_lib_with_command_par.StringUtil.{Tokens, tokenizer, get_token}
use tcp_lib_with_command_par.CmdTree.{Store, Param, Kind, cmd, leaf, no_cmd, write, root}
use tcp_lib_with_command_par.Cli.{
  Cli, clear_value, clear_values, reset_cmd_tree_cursor, name_console, goto_top_of_cmd_tree,
}
use tcp_lib_with_command_par.Tlv.Branch.{IsPlain}

-- The parameters above `p` up to a child of the root, none of them a negation.
abbrev pub Chain : Store → ℕ → List ℕ → Type 0
Chain store p [] = IsPlain (store p).kind × ((store p).parent ≡ some root)
Chain store p (q ∷ qs) =
    IsPlain (store p).kind × ((store p).parent ≡ some q) × (q ≢ root) × Chain store q qs

abbrev pub emptied : Kind → Kind
emptied (cmd name) = cmd name
emptied (no_cmd name) = no_cmd name
emptied (leaf l) = leaf (record l { value_holder = [] })

abbrev pub emptied_param : Param → Param
emptied_param a = record a { kind = emptied a.kind }

abbrev erase : Store → ℕ → Store
erase store p i = if i == p then emptied_param (store i) else store i

erased_kind :
    (store : Store) (p : ℕ) (k : Kind)
    → (store p).kind ≡ k
    → emptied k ≡ k
    → (i : ℕ) → store i ≡ erase store p i
erased_kind store p k here same i = elim (Bool-cases (i == p)) [
  | inl e ↦
      let at : i ≡ p = ground arith in
      let there : (store i).kind ≡ k = ap (λ j. (store j).kind) at ∙ here in
      rw e (ap (λ x. record (store i) { kind = x }) (there ∙ sym same ∙ ap emptied (sym there)))
  | inr e ↦ rw e refl
]

written :
    (store : Store) (p : ℕ) (k : Kind)
    → emptied (store p).kind ≡ k
    → (i : ℕ) → write store p (record (store p) { kind = k }) i ≡ erase store p i
written store p k here i = elim (Bool-cases (i == p)) [
  | inl e ↦ rw e (
      ap (λ x. record (store p) { kind = x }) (sym here)
      ∙ ap (λ j. emptied_param (store j)) {x = p} (ground arith))
  | inr e ↦ rw e refl
]

cleared_kind :
    (store : Store) (p : ℕ) (k : Kind)
    → IsPlain k
    → (store p).kind ≡ k
    → clear_value store p ≡ done (erase store p)
unfolding clear_value
cleared_kind store p (cmd name) plain e =
    rw (e, clear_value) (ap done (fun_ext (erased_kind store p (cmd name) e refl)))
cleared_kind store p (leaf l) plain e =
    rw (e, clear_value) (ap done (fun_ext (written store p (emptied (leaf l)) (ap emptied e))))
cleared_kind store p (no_cmd name) plain e = absurd plain

IsPlain-emptied : (k : Kind) → IsPlain k → IsPlain (emptied k)
IsPlain-emptied (cmd name) plain = tt
IsPlain-emptied (leaf l) plain = tt
IsPlain-emptied (no_cmd name) plain = absurd plain

IsPlain-if :
    (b : Bool) (a : Param) → IsPlain a.kind → IsPlain (if b then emptied_param a else a).kind
IsPlain-if true a plain = IsPlain-emptied a.kind plain
IsPlain-if false a plain = plain

parent_by : (b : Bool) (a : Param) → (if b then emptied_param a else a).parent ≡ a.parent
parent_by true a = refl
parent_by false a = refl

Chain-erase :
    (store : Store) (p q : ℕ) (qs : List ℕ) → Chain store q qs → Chain (erase store p) q qs
Chain-erase store p q [] c = (IsPlain-if (q == p) (store q) c.0, parent_by (q == p) (store q) ∙ c.1)
Chain-erase store p q (r ∷ rs) (plain, up, ne, c) = (
  IsPlain-if (q == p) (store q) plain,
  parent_by (q == p) (store q) ∙ up,
  ne,
  Chain-erase store p r rs c,
)

abbrev pub erase_all : Store → List ℕ → Store
erase_all store [] = store
erase_all store (p ∷ ps) = erase_all (erase store p) ps

emptied_twice : (k : Kind) → emptied (emptied k) ≡ emptied k
emptied_twice (cmd name) = refl
emptied_twice (leaf l) = refl
emptied_twice (no_cmd name) = refl

merged :
    (a b : Bool) (x : Param)
    → (if b
        then emptied_param (if a then emptied_param x else x)
        else if a
        then emptied_param x
        else x)
      ≡ (if a || b then emptied_param x else x)
merged true true x = ap (λ k. record x { kind = k }) (emptied_twice x.kind)
merged true false x = refl
merged false b x = refl

erase_all-listed :
    (store : Store) (ps : List ℕ) (i : ℕ)
    → erase_all store ps i ≡ (if listed i ps then emptied_param (store i) else store i)
erase_all-listed store [] i = refl
erase_all-listed store (p ∷ ps) i =
    erase_all-listed (erase store p) ps i ∙ merged (i == p) (listed i ps) (store i)

clear_values-Chain :
    (store : Store) (p : ℕ) (qs : List ℕ) (fuel : ℕ)
    → Chain store p qs
    → length qs < fuel
    → clear_values fuel store p ≡ done (erase_all store (p ∷ qs))
unfolding clear_values
clear_values-Chain store p qs zero c h = absurd (omega arith)
clear_values-Chain store p [] (suc fuel) (plain, up) h =
    rw (cleared_kind store p (store p).kind plain refl, up) refl
clear_values-Chain store p (q ∷ qs) (suc fuel) (plain, up, ne, c) h =
    let away : (q == root) ≡ false = ground arith in
    rw (cleared_kind store p (store p).kind plain refl, up, away)
      (clear_values-Chain (erase store p) q qs fuel (Chain-erase store p q qs c) (omega arith))

-- From a cursor below the root with no negation on the way up, and a console name with a device name
-- that can be read, `goto_top_of_cmd_tree` returns: the cursor is at the root, the TLV buffer is empty,
-- the console name is the device name, and of the parameters exactly the leaves on the way have lost
-- their values.
pub goto_top_of_cmd_tree-Chain :
    (cli : Cli) (p : ℕ) (above : List ℕ) (fuel count : ℕ) (table : Tokens) (name : List ℕ)
    → p ≢ root
    → Chain cli.store p above
    → length above < fuel
    → tokenizer cli.tokens cli.console_name 62 ≡ done (table, suc count)
    → get_token table 0 ≡ done name
    → (after : Cli) × (goto_top_of_cmd_tree fuel cli p ≡ done after)
      × (after.cursor ≡ root)
      × (contents after.tlv_buff ≡ [])
      × (after.console_name ≡ name ++ codes ">")
      × ((i : ℕ)
          → after.store i
            ≡ (if listed i (p ∷ above) then emptied_param (cli.store i) else cli.store i))
unfolding goto_top_of_cmd_tree reset_cmd_tree_cursor reset_serialize_buffer name_console
goto_top_of_cmd_tree-Chain cli p above fuel count table name ne c h read first =
    let below : (p == root) ≡ false = ground arith in
    let found : (suc count == 0) ≡ false = ground arith in
    (
      record cli {
        store = erase_all cli.store (p ∷ above);
        cursor = root;
        tlv_buff = reset_serialize_buffer cli.tlv_buff;
        tokens = table;
        console_name = name ++ codes ">";
      },
      rw (below, clear_values-Chain cli.store p above fuel c h, read, found, first) refl,
      refl,
      refl,
      refl,
      λ i. erase_all-listed cli.store (p ∷ above) i,
    )

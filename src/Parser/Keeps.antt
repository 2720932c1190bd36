-- ===== src/Parser/Keeps.antt =====
-- What the walk of `build_tlv_buffer` may change: values of leaves, and the end of the TLV buffer.
use mathlib.Core.List.{append_assoc, append-nil}
use tcp_lib_with_command_par.Prelude.{
  ℕ, ◌+◌, ◌*◌, ◌≤◌, ◌<◌, ◌≡◌, refl, sym, ap, subst, ◌∙◌, inl, inr, Bool, true, Bool-cases, Option,
  none, some, List, [], ◌∷◌, ◌++◌, done, length, length-append, arith, ◌==◌, lt→ltb,
}
use tcp_lib_with_command_par.SerBuf.{int_limit}
use tcp_lib_with_command_par.SerBuf.Append.{IsValid, contents}
use tcp_lib_with_command_par.CmdTree.{
  Store, Kind, Leaf, LeafType, cmd, leaf, no_cmd, write, possibility_array_size,
}
use tcp_lib_with_command_par.CmdTree.Choices.{beginning, visible, name_of}
use tcp_lib_with_command_par.SerBuf.Append.{serialize_string-Appends}
use tcp_lib_with_command_par.Tlv.{
  Tlv, tlv_bytes, tlv_size, value_size, blank_tlv, collect_tlv, prepare_tlv_from_leaf,
  put_value_in_tlv, tlv_of_leaf,
}
use tcp_lib_with_command_par.Tlv.Units.{IsTlv, length-tlv_bytes, tlv_of_leaf-IsTlv}
use tcp_lib_with_command_par.Cli.{Cli}
use tcp_lib_with_command_par.Cli.Handlers.{Env, leaf_validation}
use tcp_lib_with_command_par.Parser.{collect_leaf}

abbrev pub type_of : Kind → Option LeafType
type_of (leaf l) = some l.leaf_type
type_of (cmd name) = none
type_of (no_cmd name) = none

-- The library has a handler for the type.
abbrev pub IsHandled : Option LeafType → Type 0
IsHandled none = Unit
IsHandled (some t) = (token : List ℕ) → (b : Bool) × (leaf_validation t token ≡ done b)

-- Fewer than ten commands below a parameter begin with any one word, and the types of leaves have handlers.
pub record WellFormed (store : Store) : Type 0 where
  pub few :
      (p : ℕ) (token : List ℕ)
      → 0 < length token
      → length (beginning store token (visible (store p).options)) < possibility_array_size
  pub handled : (p : ℕ) → IsHandled (type_of (store p).kind)

-- The walk has changed values of leaves and appended to the TLV buffer.
pub record Keeps (before after : Cli) : Type 0 where
  pub at : after.cursor ≡ before.cursor
  pub console : after.console_name ≡ before.console_name
  pub names : (p : ℕ) → name_of (after.store p).kind ≡ name_of (before.store p).kind
  pub types : (p : ℕ) → type_of (after.store p).kind ≡ type_of (before.store p).kind
  pub options : (p : ℕ) → (after.store p).options ≡ (before.store p).options
  pub valid : IsValid after.tlv_buff
  pub checkpoint : after.tlv_buff.checkpoint ≡ before.tlv_buff.checkpoint
  pub extra : List ℕ
  pub appended : contents after.tlv_buff ≡ contents before.tlv_buff ++ extra
  pub advanced : after.tlv_buff.next ≡ before.tlv_buff.next + length extra

pub Keeps-refl : (c : Cli) → IsValid c.tlv_buff → Keeps c c
Keeps-refl c v = record {
  at = refl;
  console = refl;
  names = λ p. refl;
  types = λ p. refl;
  options = λ p. refl;
  valid = v;
  checkpoint = refl;
  extra = [];
  appended = sym (append-nil (contents c.tlv_buff));
  advanced = omega arith;
}

pub Keeps-trans : (a b c : Cli) → Keeps a b → Keeps b c → Keeps a c
Keeps-trans a b c k l = record {
  at = l.at ∙ k.at;
  console = l.console ∙ k.console;
  names = λ p. l.names p ∙ k.names p;
  types = λ p. l.types p ∙ k.types p;
  options = λ p. l.options p ∙ k.options p;
  valid = l.valid;
  checkpoint = l.checkpoint ∙ k.checkpoint;
  extra = k.extra ++ l.extra;
  appended =
      l.appended
      ∙ ap (λ s. s ++ l.extra) k.appended
      ∙ append_assoc (contents a.tlv_buff) k.extra l.extra;
  advanced = omega (arith, k.advanced, l.advanced, length-append k.extra l.extra);
}

beginning-names :
    (s t : Store) (token : List ℕ) (ps : List ℕ)
    → ((p : ℕ) → name_of (t p).kind ≡ name_of (s p).kind)
    → beginning t token ps ≡ beginning s token ps
unfolding beginning
beginning-names s t token [] h = refl
beginning-names s t token (p ∷ ps) h = rw (h p, beginning-names s t token ps h) refl

pub WellFormed-Keeps : (a b : Cli) → WellFormed a.store → Keeps a b → WellFormed b.store
WellFormed-Keeps a b w k = record {
  few = λ p token h.
      subst (λ o. length (beginning b.store token (visible o)) < possibility_array_size)
        (sym (k.options p))
        (subst (λ l. length l < possibility_array_size)
          (sym (beginning-names a.store b.store token (visible (a.store p).options) k.names))
          (w.few p token h));
  handled = λ p. subst IsHandled (sym (k.types p)) (w.handled p);
}

-- A parameter keeps its name and type when a leaf there gets a value.
module _ (store : Store) (q : ℕ) (l : Leaf) (token : List ℕ) (here : (store q).kind ≡ leaf l) where
  abbrev valued : Store
  valued = write store q (record (store q) { kind = leaf (record l { value_holder = token }) })

  valued-names : (p : ℕ) → name_of (valued p).kind ≡ name_of (store p).kind
  valued-names p = elim (Bool-cases (p == q)) [
    | inl e ↦ rw e (sym (ap (λ i. name_of (store i).kind) (same p e) ∙ ap name_of here))
    | inr e ↦ rw e refl
  ]
    where
      same : (p : ℕ) → (p == q) ≡ true → p ≡ q
      same p e = ground arith

  valued-types : (p : ℕ) → type_of (valued p).kind ≡ type_of (store p).kind
  valued-types p = elim (Bool-cases (p == q)) [
    | inl e ↦ rw e (sym (ap (λ i. type_of (store i).kind) (same p e) ∙ ap type_of here))
    | inr e ↦ rw e refl
  ]
    where
      same : (p : ℕ) → (p == q) ≡ true → p ≡ q
      same p e = ground arith

  valued-options : (p : ℕ) → (valued p).options ≡ (store p).options
  valued-options p = elim (Bool-cases (p == q)) [
    | inl e ↦ rw e (sym (ap (λ i. (store i).options) (same p e)))
    | inr e ↦ rw e refl
  ]
    where
      same : (p : ℕ) → (p == q) ≡ true → p ≡ q
      same p e = ground arith

-- The call returns, keeps what the walk keeps, and takes some bytes of the TLV buffer at most.
pub record Steps (before : Cli) (bytes : ℕ) (after : Cli) : Type 0 where
  pub keeps : Keeps before after
  pub short : after.tlv_buff.next ≤ before.tlv_buff.next + bytes

put_value_in_tlv-IsTlv :
    (l : Leaf) (token : List ℕ) → IsTlv (put_value_in_tlv (prepare_tlv_from_leaf l blank_tlv) token)
unfolding tlv_of_leaf prepare_tlv_from_leaf
put_value_in_tlv-IsTlv l token = tlv_of_leaf-IsTlv (record l { value_holder = token })

pub collect_leaf-Steps :
    (env : Env) (cli : Cli) (q : ℕ) (l : Leaf) (token : List ℕ)
    → (cli.store q).kind ≡ leaf l
    → IsValid cli.tlv_buff
    → length token < value_size
    → (cli.tlv_buff.next + tlv_size) * 2 ≤ int_limit
    → (after : Cli) × (collect_leaf env cli q l token ≡ done after) × Steps cli tlv_size after
unfolding collect_leaf collect_tlv
collect_leaf-Steps env cli q l token here v fits room =
    let tlv : Tlv = put_value_in_tlv (prepare_tlv_from_leaf l blank_tlv) token in
    let sized : length (tlv_bytes tlv) ≡ tlv_size =
      length-tlv_bytes tlv (put_value_in_tlv-IsTlv l token) in
    let a =
      serialize_string-Appends env.junk cli.tlv_buff (tlv_bytes tlv) v (omega (arith, sized)) in
    (
      record cli { store = valued cli.store q l token here; tlv_buff = a.after },
      rw (lt→ltb (length token) value_size fits, a.returns) refl,
      record {
        keeps = record {
          at = refl;
          console = refl;
          names = valued-names cli.store q l token here;
          types = valued-types cli.store q l token here;
          options = valued-options cli.store q l token here;
          valid = a.valid;
          checkpoint = a.unmoved;
          extra = tlv_bytes tlv;
          appended = a.appended;
          advanced = a.advanced;
        };
        short = omega (arith, a.advanced, sized);
      },
    )

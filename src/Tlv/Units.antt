-- ===== src/Tlv/Units.antt =====
-- A buffer of TLV records as the list of its records.
use mathlib.Core.List.{append_assoc, append-nil}
use tcp_lib_with_command_par.Prelude.{
  ℕ, zero, suc, ◌+◌, ◌*◌, ◌≤◌, ◌<◌, ◌≡◌, refl, sym, ap, ◌∙◌, List, [], ◌∷◌, ◌++◌, some, done,
  length, length-append, take, drop, get_elem?, arith, length-take, take-append-drop,
}
use tcp_lib_with_command_par.Prelude.Memory.{
  memcpy_out-done, take-append_self, drop-append, length-splice,
}
use tcp_lib_with_command_par.SerBuf.{SerBuff, int_limit, le_bytes}
use tcp_lib_with_command_par.SerBuf.Append.{IsValid, contents, serialize_string-Appends}
use tcp_lib_with_command_par.CmdTree.{Leaf}
use tcp_lib_with_command_par.Tlv.{
  Tlv, tlv_bytes, tlv_size, leaf_id_size, value_size, collect_tlv, tlv_unit, tlv_of_leaf, blank_tlv,
  prepare_tlv_from_leaf, put_value_in_tlv,
}

-- The arrays of a record have their sizes.
abbrev pub IsTlv : Tlv → Type 0
IsTlv t = (length t.leaf_id ≡ leaf_id_size) × (length t.value ≡ value_size)

abbrev pub AllTlv : List Tlv → Type 0
AllTlv [] = Unit
AllTlv (t ∷ ts) = IsTlv t × AllTlv ts

abbrev pub units : List Tlv → List ℕ
units [] = []
units (t ∷ ts) = tlv_bytes t ++ units ts

pub length-tlv_bytes : (t : Tlv) → IsTlv t → length (tlv_bytes t) ≡ tlv_size
unfolding tlv_bytes le_bytes
length-tlv_bytes t h = omega (
  arith,
  h,
  length-append (le_bytes 4 t.leaf_type) (t.leaf_id ++ t.value),
  length-append t.leaf_id t.value,
)

pub length-units : (ts : List Tlv) → AllTlv ts → length (units ts) ≡ tlv_size * length ts
length-units [] h = refl
length-units (t ∷ ts) h =
    omega
      (arith, length-append (tlv_bytes t) (units ts), length-tlv_bytes t h.0, length-units ts h.1)

pub units-append : (ts us : List Tlv) → units (ts ++ us) ≡ units ts ++ units us
units-append [] us = refl
units-append (t ∷ ts) us =
    ap (λ l. tlv_bytes t ++ l) (units-append ts us)
    ∙ sym (append_assoc (tlv_bytes t) (units ts) (units us))

drop-drop {ℓ} : {A : Type ℓ} (n m : ℕ) (xs : List A) → drop (n + m) xs ≡ drop m (drop n xs)
drop-drop zero m xs = ap (λ k. drop k xs) (omega arith)
drop-drop (suc n) zero [] = ap (λ k. drop k []) {y = suc n} (omega arith)
drop-drop (suc n) (suc m) [] = ap (λ k. drop k []) {y = suc (n + suc m)} (omega arith)
drop-drop (suc n) m (x ∷ xs) =
    ap (λ k. drop k (x ∷ xs)) {y = suc (n + m)} (omega arith) ∙ drop-drop n m xs

unit_at :
    (ts : List Tlv) (i : ℕ) (t : Tlv) (rest : List ℕ)
    → AllTlv ts
    → get_elem? ts i ≡ some t
    → take tlv_size (drop (tlv_size * i) (units ts ++ rest)) ≡ tlv_bytes t
unit_at [] i t rest h e = cc
unit_at (u ∷ ts) zero t rest h e =
    let same : u ≡ t = cc in
    ap (take tlv_size) (append_assoc (tlv_bytes u) (units ts) rest)
    ∙ take-append_self (tlv_bytes u) (units ts ++ rest) tlv_size (sym (length-tlv_bytes u h.0))
    ∙ ap tlv_bytes same
unit_at (u ∷ ts) (suc i) t rest h e =
    ap (λ n. take tlv_size (drop n (units (u ∷ ts) ++ rest))) {y = tlv_size + tlv_size * i}
      (omega arith)
    ∙ ap (take tlv_size) (drop-drop tlv_size (tlv_size * i) (units (u ∷ ts) ++ rest))
    ∙ ap (λ l. take tlv_size (drop (tlv_size * i) l))
        (ap (drop tlv_size) (append_assoc (tlv_bytes u) (units ts) rest)
          ∙ drop-append (tlv_bytes u) (units ts ++ rest) tlv_size (sym (length-tlv_bytes u h.0)))
    ∙ unit_at ts i t rest h.1 e

get_elem?-lt : (ts : List Tlv) (i : ℕ) (t : Tlv) → get_elem? ts i ≡ some t → i < length ts
get_elem?-lt [] i t e = cc
get_elem?-lt (u ∷ ts) zero t e = omega arith
get_elem?-lt (u ∷ ts) (suc i) t e = omega (arith, get_elem?-lt ts i t e)

-- A valid buffer that holds exactly some records.
pub record Collected (buf : SerBuff) (ts : List Tlv) : Type 0 where
  pub valid : IsValid buf
  pub all : AllTlv ts
  pub held : contents buf ≡ units ts

-- `collect_tlv` on a buffer that holds records returns one that holds the new record behind them,
-- with its checkpoint where it was, as long as the bytes stay below half the range of `int`.
pub collect_tlv-Collected :
    (junk : ℕ → ℕ) (buf : SerBuff) (ts : List Tlv) (t : Tlv)
    → Collected buf ts
    → IsTlv t
    → (buf.next + tlv_size) * 2 ≤ int_limit
    → (after : SerBuff) × (collect_tlv junk buf t ≡ done after)
      × Collected after (ts ++ t ∷ [])
      × (after.checkpoint ≡ buf.checkpoint)
unfolding collect_tlv
collect_tlv-Collected junk buf ts t c h fits =
    let a =
      serialize_string-Appends junk buf (tlv_bytes t) c.valid
        (omega (arith, length-tlv_bytes t h)) in
    (
      a.after,
      a.returns,
      record {
        valid = a.valid;
        all = AllTlv-snoc ts c.all;
        held =
            a.appended
            ∙ ap (λ l. l ++ tlv_bytes t) c.held
            ∙ ap (λ l. units ts ++ l) (sym (append-nil (tlv_bytes t)))
            ∙ sym (units-append ts (t ∷ []));
      },
      a.unmoved,
    )
  where
    AllTlv-snoc : (us : List Tlv) → AllTlv us → AllTlv (us ++ t ∷ [])
    AllTlv-snoc [] x = (h, tt)
    AllTlv-snoc (u ∷ us) x = (x.0, AllTlv-snoc us x.1)

-- The unit with index `i` of a buffer that holds records is the record with that index.
pub tlv_unit-Collected :
    (buf : SerBuff) (ts : List Tlv) (i : ℕ) (t : Tlv)
    → Collected buf ts
    → get_elem? ts i ≡ some t
    → tlv_unit buf i ≡ done (tlv_bytes t)
unfolding tlv_unit
tlv_unit-Collected buf ts i t c e =
    let whole : buf.b ≡ units ts ++ drop buf.next buf.b =
      sym (take-append-drop buf.next buf.b) ∙ ap (λ l. l ++ drop buf.next buf.b) c.held in
    let room : tlv_size * i + tlv_size ≤ length buf.b = omega (
      arith,
      get_elem?-lt ts i t e,
      length-units ts c.all,
      ap length whole,
      length-append (units ts) (drop buf.next buf.b),
    ) in
    memcpy_out-done buf.b (tlv_size * i) tlv_size room
    ∙ ap (λ l. done (take tlv_size (drop (tlv_size * i) l))) whole
    ∙ ap done (unit_at ts i t (drop buf.next buf.b) c.all e)

-- The record of a leaf has its sizes.
pub tlv_of_leaf-IsTlv : (l : Leaf) → IsTlv (tlv_of_leaf l)
unfolding tlv_of_leaf prepare_tlv_from_leaf put_value_in_tlv
tlv_of_leaf-IsTlv l = (
  length-splice blank_tlv.leaf_id 0 (take leaf_id_size l.leaf_id)
      (omega (arith, length-take leaf_id_size l.leaf_id)),
  length-splice blank_tlv.value 0 (take value_size l.value_holder)
      (omega (arith, length-take value_size l.value_holder)),
)

-- The write position of a buffer of records.
pub next-Collected :
    (buf : SerBuff) (ts : List Tlv) → Collected buf ts → buf.next ≡ tlv_size * length ts
next-Collected buf ts c =
    omega (arith, c.valid, length-take buf.next buf.b, ap length c.held, length-units ts c.all)

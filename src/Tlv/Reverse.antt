-- ===== src/Tlv/Reverse.antt =====
-- The reversal of the records of a buffer at the end of `build_cmd_tree_leaves_data`.
use mathlib.Core.List.{append_assoc}
use tcp_lib_with_command_par.Prelude.{
  ℕ, suc, ◌+◌, ◌*◌, ◌≤◌, ◌≡◌, refl, ap, subst, sym, ◌∙◌, some, List, [], ◌∷◌, ◌++◌, Outcome, done,
  arith, length, length-append, take, drop, take-append-drop, get_elem?,
}
use tcp_lib_with_command_par.Prelude.Memory.{
  splice, memcpy_in, memcpy_in-done, take-append_self, length-splice,
}
use tcp_lib_with_command_par.Prelude.Blocks.{splice-middle}
use tcp_lib_with_command_par.SerBuf.{SerBuff}
use tcp_lib_with_command_par.Tlv.{Tlv, tlv_size, tlv_bytes, swap_tlv_units}
use tcp_lib_with_command_par.Tlv.Units.{
  Collected, IsTlv, AllTlv, units, units-append, length-units, length-tlv_bytes, tlv_unit-Collected,
  next-Collected,
}

AllTlv-middle :
    (pre : List Tlv) (x y : Tlv) (post : List Tlv)
    → AllTlv (pre ++ x ∷ post)
    → IsTlv y
    → AllTlv (pre ++ y ∷ post)
AllTlv-middle [] x y post h k = (k, h.1)
AllTlv-middle (p ∷ pre) x y post h k = (h.0, AllTlv-middle pre x y post h.1 k)

AllTlv-here : (pre : List Tlv) (x : Tlv) (post : List Tlv) → AllTlv (pre ++ x ∷ post) → IsTlv x
AllTlv-here [] x post h = h.0
AllTlv-here (p ∷ pre) x post h = AllTlv-here pre x post h.1

AllTlv-front : (pre post : List Tlv) → AllTlv (pre ++ post) → AllTlv pre
AllTlv-front [] post h = tt
AllTlv-front (p ∷ pre) post h = (h.0, AllTlv-front pre post h.1)

get_middle :
    (pre : List Tlv) (x : Tlv) (post : List Tlv) → get_elem? (pre ++ x ∷ post) (length pre) ≡ some x
get_middle [] x post = refl
get_middle (p ∷ pre) x post = get_middle pre x post

-- Writing a record over one that the buffer holds.
record Overwrites (buf : SerBuff) (ts : List Tlv) (out : Outcome (List ℕ)) : Type 0 where
  block : List ℕ
  returns : out ≡ done block
  collected : Collected (record buf { b = block }) ts

overwrite_unit :
    (buf : SerBuff) (pre : List Tlv) (x y : Tlv) (post : List Tlv)
    → Collected buf (pre ++ x ∷ post)
    → IsTlv y
    → Overwrites buf (pre ++ y ∷ post) (memcpy_in buf.b (tlv_size * length pre) (tlv_bytes y))
overwrite_unit buf pre x y post c k =
    let tail : List ℕ = drop buf.next buf.b in
    let len_x : length (tlv_bytes x) ≡ tlv_size =
      length-tlv_bytes x (AllTlv-here pre x post c.all) in
    let len_y : length (tlv_bytes y) ≡ tlv_size = length-tlv_bytes y k in
    let len_pre : length (units pre) ≡ tlv_size * length pre =
      length-units pre (AllTlv-front pre (x ∷ post) c.all) in
    let whole : buf.b ≡ units pre ++ (tlv_bytes x ++ (units post ++ tail)) =
      sym (take-append-drop buf.next buf.b)
      ∙ ap (λ l. l ++ tail) (c.held ∙ units-append pre (x ∷ post))
      ∙ append_assoc (units pre) (tlv_bytes x ++ units post) tail
      ∙ ap (λ l. units pre ++ l) (append_assoc (tlv_bytes x) (units post) tail) in
    let written : splice buf.b (tlv_size * length pre) (tlv_bytes y)
        ≡ units pre ++ (tlv_bytes y ++ (units post ++ tail)) =
      ap (λ n. splice buf.b n (tlv_bytes y)) (sym len_pre)
      ∙ ap (λ l. splice l (length (units pre)) (tlv_bytes y)) whole
      ∙ splice-middle (units pre) (tlv_bytes x) (units post ++ tail) (tlv_bytes y)
          (len_y ∙ sym len_x) in
    let room : tlv_size * length pre + length (tlv_bytes y) ≤ length buf.b = omega (
      arith,
      ap length whole,
      length-append (units pre) (tlv_bytes x ++ (units post ++ tail)),
      length-append (tlv_bytes x) (units post ++ tail),
      len_pre,
      len_x,
      len_y,
    ) in
    let all : AllTlv (pre ++ y ∷ post) = AllTlv-middle pre x y post c.all k in
    let reach : buf.next ≡ length (units (pre ++ y ∷ post)) = omega (
      arith,
      next-Collected buf (pre ++ x ∷ post) c,
      length-units (pre ++ y ∷ post) all,
      length-append pre (x ∷ post),
      length-append pre (y ∷ post),
    ) in
    let regrouped : units pre ++ (tlv_bytes y ++ (units post ++ tail))
        ≡ units (pre ++ y ∷ post) ++ tail =
      ap (λ l. units pre ++ l) (sym (append_assoc (tlv_bytes y) (units post) tail))
      ∙ sym (append_assoc (units pre) (tlv_bytes y ++ units post) tail)
      ∙ ap (λ l. l ++ tail) (sym (units-append pre (y ∷ post))) in
    record {
      block = splice buf.b (tlv_size * length pre) (tlv_bytes y);
      returns = memcpy_in-done buf.b (tlv_size * length pre) (tlv_bytes y) room;
      collected = record {
        valid =
            omega (arith, c.valid, length-splice buf.b (tlv_size * length pre) (tlv_bytes y) room);
        all = all;
        held =
            ap (take buf.next) (written ∙ regrouped)
            ∙ take-append_self (units (pre ++ y ∷ post)) tail buf.next reach;
      };
    }

-- A call of `swap_tlv_units` returns a buffer that holds the records.
pub record Arranged (ts : List Tlv) (out : Outcome SerBuff) : Type 0 where
  pub after : SerBuff
  pub returns : out ≡ done after
  pub collected : Collected after ts

-- `swap_tlv_units` exchanges two records.
pub swap_tlv_units-Arranged :
    (buf : SerBuff) (pre : List Tlv) (x : Tlv) (mid : List Tlv) (y : Tlv) (post : List Tlv)
    → Collected buf (pre ++ x ∷ (mid ++ y ∷ post))
    → Arranged
        (pre ++ y ∷ (mid ++ x ∷ post))
        (swap_tlv_units buf (length pre) (length pre + suc (length mid)))
unfolding swap_tlv_units
swap_tlv_units-Arranged buf pre x mid y post c =
    let j : ℕ = length pre + suc (length mid) in
    let at_j : (z : Tlv) → length (pre ++ z ∷ mid) ≡ j = λ z. length-append pre (z ∷ mid) in
    let split : (z w : Tlv) → pre ++ z ∷ (mid ++ w ∷ post) ≡ (pre ++ z ∷ mid) ++ w ∷ post =
      λ z w. sym (append_assoc pre (z ∷ mid) (w ∷ post)) in
    let is_x : IsTlv x = AllTlv-here pre x (mid ++ y ∷ post) c.all in
    let is_y : IsTlv y = AllTlv-here (pre ++ x ∷ mid) y post (subst AllTlv (split x y) c.all) in
    let first =
      tlv_unit-Collected buf (pre ++ x ∷ (mid ++ y ∷ post)) (length pre) x c
        (get_middle pre x (mid ++ y ∷ post)) in
    let second = tlv_unit-Collected buf (pre ++ x ∷ (mid ++ y ∷ post)) j y c (
      ap (λ l. get_elem? l j) (split x y)
      ∙ ap (get_elem? ((pre ++ x ∷ mid) ++ y ∷ post)) (sym (at_j x))
      ∙ get_middle (pre ++ x ∷ mid) y post) in
    let p = overwrite_unit buf pre x y (mid ++ y ∷ post) c is_y in
    let q =
      overwrite_unit (record buf { b = p.block }) (pre ++ y ∷ mid) y x post
        (subst (Collected (record buf { b = p.block })) (split y y) p.collected) is_x in
    let returned : memcpy_in p.block (tlv_size * j) (tlv_bytes x) ≡ done q.block =
      ap (λ n. memcpy_in p.block (tlv_size * n) (tlv_bytes x)) (sym (at_j y)) ∙ q.returns in
    record {
      after = record buf { b = q.block };
      returns = rw (first, second, p.returns, returned) refl;
      collected = subst (Collected (record buf { b = q.block })) (sym (split y x)) q.collected;
    }

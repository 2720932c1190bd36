-- ===== src/Tlv/Leaves.antt =====
-- `build_cmd_tree_leaves_data` as a whole: the leaves of a branch from its top down.
use mathlib.Core.List.{append_assoc, append-nil, reverse, reverse-cons, reverse-append}
use tcp_lib_with_command_par.Prelude.{
  ℕ, zero, suc, ◌+◌, ◌-◌, ◌*◌, ◌/◌, ◌≤◌, ◌<◌, ◌≡◌, refl, ap, subst, sym, ◌∙◌, inl, inr, Bool-cases,
  ltb, List, [], ◌∷◌, ◌++◌, map, Outcome, done, arith, length, length-append, if◌then◌else◌,
}
use tcp_lib_with_command_par.SerBuf.{
  SerBuff, int_limit, reset_serialize_buffer, get_serialize_buffer_size,
}
use tcp_lib_with_command_par.SerBuf.Append.{IsValid}
use tcp_lib_with_command_par.SerBuf.Cursor.{reset-IsValid}
use tcp_lib_with_command_par.CmdTree.{Store, Leaf}
use tcp_lib_with_command_par.Tlv.{
  Tlv, tlv_size, tlv_units, tlv_of_leaf, swap_tlv_units, reverse_units, build_cmd_tree_leaves_data,
}
use tcp_lib_with_command_par.Tlv.Units.{Collected, next-Collected}
use tcp_lib_with_command_par.Tlv.Branch.{Climbs, collect_leaves-Climbs}
use tcp_lib_with_command_par.Tlv.Reverse.{Arranged, swap_tlv_units-Arranged}

snoc : (x : Tlv) (l : List Tlv) → (m : List Tlv) × (y : Tlv) × (x ∷ l ≡ m ++ y ∷ [])
snoc x [] = ([], x, refl)
snoc x (z ∷ l) = let (m, y, e) = snoc z l in (x ∷ m, y, ap (λ k. x ∷ k) e)

reverse-ends :
    (pre : List Tlv) (x : Tlv) (m : List Tlv) (y : Tlv) (post : List Tlv)
    → (pre ++ y ∷ []) ++ (reverse m ++ x ∷ post) ≡ pre ++ (reverse (x ∷ (m ++ y ∷ [])) ++ post)
reverse-ends pre x m y post =
    append_assoc pre (y ∷ []) (reverse m ++ x ∷ post)
    ∙ ap (λ l. pre ++ y ∷ l) (sym (append_assoc (reverse m) (x ∷ []) post))
    ∙ ap (λ l. pre ++ ((l ++ x ∷ []) ++ post)) (sym (reverse-append m (y ∷ [])))
    ∙ ap (λ l. pre ++ (l ++ post)) (sym (reverse-cons x (m ++ y ∷ [])))

Arranged-to :
    (ts us : List Tlv) (out : Outcome SerBuff) → ts ≡ us → Arranged ts out → Arranged us out
Arranged-to ts us out e h = subst (λ x. Arranged x out) e h

reverse_units-Arranged :
    (n : ℕ) (buf : SerBuff) (pre mid post : List Tlv)
    → Collected buf (pre ++ (mid ++ post))
    → n * 2 ≤ length mid
    → length mid ≤ n * 2 + 1
    → Arranged
        (pre ++ (reverse mid ++ post))
        (reverse_units n buf (length pre) (length pre + length mid - 1))
unfolding reverse_units
reverse_units-Arranged zero buf pre [] post c h k = record {
  after = buf;
  returns = refl;
  collected = c;
}
reverse_units-Arranged zero buf pre (x ∷ []) post c h k = record {
  after = buf;
  returns = refl;
  collected = c;
}
reverse_units-Arranged zero buf pre (x ∷ z ∷ mid) post c h k = absurd (omega arith)
reverse_units-Arranged (suc n) buf pre [] post c h k = absurd (omega arith)
reverse_units-Arranged (suc n) buf pre (x ∷ []) post c h k = absurd (omega arith)
reverse_units-Arranged (suc n) buf pre (x ∷ z ∷ l) post c h k =
    let (m, y, e) = snoc z l in
    let len : length (z ∷ l) ≡ length m + 1 = ap length e ∙ length-append m (y ∷ []) in
    let s = swap_tlv_units-Arranged buf pre x m y post (
      subst (λ r. Collected buf (pre ++ x ∷ r))
        (ap (λ r. r ++ post) e ∙ append_assoc m (y ∷ []) post) c) in
    let front : length (pre ++ y ∷ []) ≡ length pre + 1 = length-append pre (y ∷ []) in
    let rest =
      reverse_units-Arranged n s.after (pre ++ y ∷ []) m (x ∷ post)
        (subst (Collected s.after) (sym (append_assoc pre (y ∷ []) (m ++ x ∷ post))) s.collected)
        (omega (arith, len)) (omega (arith, len)) in
    let swapped : swap_tlv_units buf (length pre) (length pre + length (x ∷ z ∷ l) - 1)
        ≡ done s.after =
      ap (swap_tlv_units buf (length pre)) {y = length pre + suc (length m)} (omega (arith, len))
      ∙ s.returns in
    let same : reverse_units n s.after (length (pre ++ y ∷ []))
          (length (pre ++ y ∷ []) + length m - 1)
        ≡ reverse_units n s.after (length pre + 1) (length pre + length (x ∷ z ∷ l) - 1 - 1) =
      ap (λ i. reverse_units n s.after i (length (pre ++ y ∷ []) + length m - 1)) front
      ∙ ap (reverse_units n s.after (length pre + 1)) (omega (arith, len, front)) in
    rw swapped (
      Arranged-to ((pre ++ y ∷ []) ++ (reverse m ++ x ∷ post))
        (pre ++ (reverse (x ∷ z ∷ l) ++ post))
        (reverse_units n s.after (length pre + 1) (length pre + length (x ∷ z ∷ l) - 1 - 1))
        (reverse-ends pre x m y post ∙ ap (λ r. pre ++ (reverse (x ∷ r) ++ post)) (sym e))
        (subst (Arranged ((pre ++ y ∷ []) ++ (reverse m ++ x ∷ post))) same rest))

-- The end of `build_cmd_tree_leaves_data`, on the buffer that the walk returns.
reverse_all-Arranged :
    (buf : SerBuff) (ts : List Tlv)
    → Collected buf ts
    → Arranged (reverse ts) (
        if ltb (get_serialize_buffer_size buf) (2 * tlv_size)
        then done buf
        else reverse_units (tlv_units buf / 2) buf 0 (tlv_units buf - 1))
unfolding get_serialize_buffer_size tlv_units
reverse_all-Arranged buf ts c =
    let next : buf.next ≡ tlv_size * length ts = next-Collected buf ts c in
    let count : buf.next / tlv_size ≡ length ts = omega (arith, next) in
    let r : Arranged (reverse ts ++ []) (reverse_units (length ts / 2) buf 0 (length ts - 1)) =
      subst (λ j. Arranged (reverse ts ++ []) (reverse_units (length ts / 2) buf 0 j))
        {x = 0 + length ts - 1} {y = length ts - 1} (omega arith)
        (reverse_units-Arranged (length ts / 2) buf [] ts []
          (subst (Collected buf) (sym (append-nil ts)) c) (omega arith) (omega arith)) in
    elim (Bool-cases (ltb buf.next (2 * tlv_size))) [
      | inl few ↦ rw few (alone ts c (ground (arith, next)))
      | inr many ↦
          rw (many, count)
            (Arranged-to (reverse ts ++ []) (reverse ts)
              (reverse_units (length ts / 2) buf 0 (length ts - 1)) (append-nil (reverse ts)) r)
    ]
  where
    alone : (us : List Tlv) → Collected buf us → length us ≤ 1 → Arranged (reverse us) (done buf)
    alone [] d h = record { after = buf; returns = refl; collected = d }
    alone (x ∷ []) d h = record { after = buf; returns = refl; collected = d }
    alone (x ∷ y ∷ us) d h = absurd (omega arith)

reset-Collected : (buf : SerBuff) → IsValid buf → Collected (reset_serialize_buffer buf) []
unfolding reset_serialize_buffer
reset-Collected buf v = record { valid = reset-IsValid buf v; all = tt; held = refl }

-- For `src` above `dst` on a branch without negations between them, whose records stay below half the
-- range of `int`, `build_cmd_tree_leaves_data` leaves in a valid buffer, whatever it held, exactly
-- the records of the leaves on the way, from `src` down to `dst`, with fuel beyond the distance.
pub build_cmd_tree_leaves_data-Climbs :
    (junk : ℕ → ℕ) (store : Store) (buf : SerBuff) (src dst n fuel : ℕ) (ls : List Leaf)
    → IsValid buf
    → Climbs store src dst n ls
    → n < fuel
    → tlv_size * length ls * 2 ≤ int_limit
    → Arranged
        (reverse (map tlv_of_leaf ls))
        (build_cmd_tree_leaves_data fuel junk store buf src dst)
unfolding build_cmd_tree_leaves_data
build_cmd_tree_leaves_data-Climbs junk store buf src dst n fuel ls v k h room =
    let w =
      collect_leaves-Climbs junk store (reset_serialize_buffer buf) src dst n fuel ls []
        (reset-Collected buf v) k h (omega arith) in
    rw w.returns (reverse_all-Arranged w.after (map tlv_of_leaf ls) w.collected)

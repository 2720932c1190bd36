-- ===== src/Tlv/Branch.antt =====
-- `build_cmd_tree_leaves_data`: the walk over the leaves of a branch.
use mathlib.Core.List.{append_assoc, append-nil}
use tcp_lib_with_command_par.Prelude.{
  ℕ, zero, suc, ◌+◌, ◌*◌, ◌≤◌, ◌<◌, ◌≡◌, ◌≢◌, refl, ap, subst, sym, ◌∙◌, true, false, ◌==◌, some,
  List, [], ◌∷◌, ◌++◌, map, Outcome, done, arith, length, length-append, inl, inr,
}
use tcp_lib_with_command_par.SerBuf.{SerBuff, int_limit}
use tcp_lib_with_command_par.CmdTree.{Store, Kind, Leaf, cmd, leaf, no_cmd}
use tcp_lib_with_command_par.CmdTree.Branch.{Kind-cases}
use tcp_lib_with_command_par.Tlv.{Tlv, tlv_size, tlv_of_leaf, collect_tlv, collect_leaves}
use tcp_lib_with_command_par.Tlv.Units.{
  Collected, next-Collected, tlv_of_leaf-IsTlv, collect_tlv-Collected,
}

-- The leaf of a parameter, if it is one.
abbrev pub own : Kind → List Leaf
own (leaf l) = l ∷ []
own (cmd name) = []
own (no_cmd name) = []

abbrev pub IsPlain : Kind → Type 0
IsPlain (no_cmd name) = ⊥
IsPlain (cmd name) = Unit
IsPlain (leaf l) = Unit

-- `src` is `n` levels above `dst`, no negation stands between them, and the leaves on the way, from
-- `dst` up, are those listed.
abbrev pub Climbs : Store → ℕ → ℕ → ℕ → List Leaf → Type 0
Climbs store src dst zero ls = (dst ≡ src) × (ls ≡ own (store dst).kind)
Climbs store src dst (suc n) ls =
    (q : ℕ) × (above : List Leaf) × (dst ≢ src)
    × ((store dst).parent ≡ some q)
    × IsPlain (store dst).kind
    × Climbs store src q n above
    × (ls ≡ own (store dst).kind ++ above)

-- The call returns a buffer that holds the records.
pub record Holds (ts : List Tlv) (out : Outcome SerBuff) : Type 0 where
  pub after : SerBuff
  pub returns : out ≡ done after
  pub collected : Collected after ts

Holds-to : (ts us : List Tlv) (out : Outcome SerBuff) → ts ≡ us → Holds ts out → Holds us out
Holds-to ts us out e h = subst (λ x. Holds x out) e h

collect_own :
    (junk : ℕ → ℕ) (buf : SerBuff) (ts : List Tlv) (l : Leaf)
    → Collected buf ts
    → tlv_size * (length ts + 1) * 2 ≤ int_limit
    → Holds (ts ++ tlv_of_leaf l ∷ []) (collect_tlv junk buf (tlv_of_leaf l))
collect_own junk buf ts l c room =
    let (after, returns, held, same) =
      collect_tlv-Collected junk buf ts (tlv_of_leaf l) c (tlv_of_leaf-IsTlv l)
        (omega (arith, next-Collected buf ts c)) in
    record { after = after; returns = returns; collected = held }

-- The walk collects the records of the leaves from `dst` up to `src`, with fuel beyond the distance.
pub collect_leaves-Climbs :
    (junk : ℕ → ℕ) (store : Store) (buf : SerBuff) (src dst n fuel : ℕ) (ls : List Leaf)
    (ts : List Tlv)
    → Collected buf ts
    → Climbs store src dst n ls
    → n < fuel
    → tlv_size * (length ts + length ls) * 2 ≤ int_limit
    → Holds (ts ++ map tlv_of_leaf ls) (collect_leaves fuel junk store buf src dst)
unfolding collect_leaves
collect_leaves-Climbs junk store buf src dst n zero ls ts c k h room = elim h [ ]
collect_leaves-Climbs junk store buf src dst zero (suc fuel) ls ts c (here, e) h room =
    let same : (dst == src) ≡ true = ground arith in
    elim (Kind-cases (store dst).kind) [
      | inl (name, k) ↦
          let nothing : ls ≡ [] = e ∙ ap own k in
          rw (same, k)
            (Holds-to ts (ts ++ map tlv_of_leaf ls) (done buf)
              (sym (append-nil ts) ∙ ap (λ x. ts ++ map tlv_of_leaf x) (sym nothing))
              (record { after = buf; returns = refl; collected = c }))
      | inr (inl (name, k)) ↦
          let nothing : ls ≡ [] = e ∙ ap own k in
          rw (same, k)
            (Holds-to ts (ts ++ map tlv_of_leaf ls) (done buf)
              (sym (append-nil ts) ∙ ap (λ x. ts ++ map tlv_of_leaf x) (sym nothing))
              (record { after = buf; returns = refl; collected = c }))
      | inr (inr (l, k)) ↦
          let only : ls ≡ l ∷ [] = e ∙ ap own k in
          rw (same, k)
            (Holds-to (ts ++ tlv_of_leaf l ∷ []) (ts ++ map tlv_of_leaf ls)
              (collect_tlv junk buf (tlv_of_leaf l)) (ap (λ x. ts ++ map tlv_of_leaf x) (sym only))
              (collect_own junk buf ts l c (omega (arith, ap length only))))
    ]
collect_leaves-Climbs junk store buf src dst (suc n) (suc fuel) ls ts c
      (q, above, ne, up, plain, k, e) h room =
    let away : (dst == src) ≡ false = ground arith in
    elim (Kind-cases (store dst).kind) [
      | inl (name, kind) ↦
          let rest : ls ≡ above = e ∙ ap (λ x. own x ++ above) kind in
          rw (away, kind, up)
            (Holds-to (ts ++ map tlv_of_leaf above) (ts ++ map tlv_of_leaf ls)
              (collect_leaves fuel junk store buf src q)
              (ap (λ x. ts ++ map tlv_of_leaf x) (sym rest))
              (collect_leaves-Climbs junk store buf src q n fuel above ts c k (omega arith)
                (omega (arith, ap length rest))))
      | inr (inl (name, kind)) ↦ absurd (subst IsPlain kind plain)
      | inr (inr (l, kind)) ↦
          let rest : ls ≡ l ∷ above = e ∙ ap (λ x. own x ++ above) kind in
          let o = collect_own junk buf ts l c (omega (arith, ap length rest)) in
          let longer : List Tlv = ts ++ tlv_of_leaf l ∷ [] in
          rw (away, kind, o.returns, up)
            (Holds-to (longer ++ map tlv_of_leaf above) (ts ++ map tlv_of_leaf ls)
              (collect_leaves fuel junk store o.after src q)
              (append_assoc ts (tlv_of_leaf l ∷ []) (map tlv_of_leaf above)
                ∙ ap (λ x. ts ++ map tlv_of_leaf x) (sym rest))
              (collect_leaves-Climbs junk store o.after src q n fuel above longer o.collected k
                (omega arith)
                (omega (arith, ap length rest, length-append ts (tlv_of_leaf l ∷ [])))))
    ]

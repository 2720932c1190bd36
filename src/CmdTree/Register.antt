-- ===== src/CmdTree/Register.antt =====
-- `libcli_register_param`: where the child goes, and what else changes.
use tcp_lib_with_command_par.Prelude.{
  ℕ, zero, suc, ◌+◌, ◌≤◌, ◌<◌, ◌≡◌, ◌≢◌, refl, sym, ap, subst, ◌∙◌, List, [], ◌∷◌, ◌++◌, length,
  arith, Option, none, some, Outcome, done, aborted, map, replicate, get_elem?, set, length-append,
  dec_lt,
}
use tcp_lib_with_command_par.CmdTree.{
  place, attach, Store, Param, libcli_register_param, with_capabilities, fill_option, free_slot,
  children_start_index, children_slots, max_option_size, init_param, Kind, Callback, mode_param,
  suboptions_param, cmd_expansion_param,
}

-- Options that hold `ps` and then `n` NULLs.
abbrev pub packed : List ℕ → ℕ → List (Option ℕ)
packed ps n = map some ps ++ replicate n none

get_elem?-packed_at : (ps : List ℕ) (n : ℕ) → get_elem? (packed ps (suc n)) (length ps) ≡ some none
get_elem?-packed_at [] n = refl
get_elem?-packed_at (p ∷ ps) n = get_elem?-packed_at ps n

get_elem?-packed_below :
    (ps : List ℕ) (n i : ℕ) → i < length ps → (q : ℕ) × (get_elem? (packed ps n) i ≡ some (some q))
get_elem?-packed_below [] n i h = elim h [ ]
get_elem?-packed_below (p ∷ ps) n zero h = (p, refl)
get_elem?-packed_below (p ∷ ps) n (suc i) h = get_elem?-packed_below ps n i (omega arith)

set-packed :
    (ps : List ℕ) (n c : ℕ) → set (packed ps (suc n)) (length ps) (some c) ≡ packed (ps ++ c ∷ []) n
set-packed [] n c = refl
set-packed (p ∷ ps) n c = ap (λ l. some p ∷ l) (set-packed ps n c)

-- The search meets the children that are there, then the first NULL.
free_slot-packed :
    (ps : List ℕ) (n i k : ℕ)
    → i ≤ length ps
    → length ps < i + k
    → free_slot (packed ps (suc n)) i k ≡ some (length ps)
unfolding free_slot
free_slot-packed ps n i zero h r = absurd (omega arith)
free_slot-packed ps n i (suc k) h r = elim (dec_lt i (length ps)) [
  | yes below ↦
      let (q, e) = get_elem?-packed_below ps (suc n) i below in
      rw (e, free_slot) (free_slot-packed ps n (i + 1) k (omega arith) (omega arith))
  | no at ↦
      let here : i ≡ length ps = omega arith in
      subst (λ j. free_slot (packed ps (suc n)) j (suc k) ≡ some (length ps)) (sym here)
        (rw (get_elem?-packed_at ps n, free_slot) refl)
]

free_slot-full : (ps : List ℕ) (i k : ℕ) → i + k ≤ length ps → free_slot (packed ps 0) i k ≡ none
unfolding free_slot
free_slot-full ps i zero h = refl
free_slot-full ps i (suc k) h =
    let (q, e) = get_elem?-packed_below ps 0 i (omega arith) in
    rw (e, free_slot) (free_slot-full ps (i + 1) k (omega arith))

fill_option-packed :
    (ps : List ℕ) (n i p : ℕ) → i < length ps → fill_option (packed ps n) i p ≡ packed ps n
unfolding fill_option
fill_option-packed ps n i p h =
    let (q, e) = get_elem?-packed_below ps n i h in rw (e, fill_option) refl

-- Once the capabilities are there, they stay.
with_capabilities-packed :
    (ps : List ℕ) (n : ℕ) → 3 ≤ length ps → with_capabilities (packed ps n) ≡ packed ps n
unfolding with_capabilities
with_capabilities-packed ps n h = rw (
  fill_option-packed ps n 0 mode_param (omega arith),
  fill_option-packed ps n 1 suboptions_param (omega arith),
  fill_option-packed ps n 2 cmd_expansion_param (omega arith),
)

abbrev pub capabilities : List ℕ
capabilities = mode_param ∷ suboptions_param ∷ cmd_expansion_param ∷ []

-- The options of a parameter: none yet, or the capabilities and some children, with no gap.
pub data HasChildren (p : Param) : List ℕ → Type 0 where
  fresh : p.options ≡ replicate max_option_size none → HasChildren p []
  grown :
      {ps : List ℕ} (n : ℕ)
      → length ps + n ≡ children_slots
      → p.options ≡ packed (capabilities ++ ps) n
      → HasChildren p ps

-- A parameter that `init_param` has set up has no children and no parent.
pub init_param-HasChildren :
    (store : Store) (at : ℕ) (kind : Kind) (callback : Option Callback) (help : List ℕ)
    → HasChildren (init_param store at kind callback help at) []
unfolding init_param
init_param-HasChildren store at kind callback help = fresh (ground arith)

HasChildren-packed :
    {p : Param} {ps : List ℕ}
    → HasChildren p ps
    → (n : ℕ) × (length ps + n ≡ children_slots)
      × (with_capabilities p.options ≡ packed (capabilities ++ ps) n)
HasChildren-packed (fresh e) =
    (children_slots, omega arith, rw e (unfold with_capabilities fill_option in refl))
HasChildren-packed (grown {ps = ps} n l e) =
    (n, l, ap with_capabilities e ∙ with_capabilities-packed (capabilities ++ ps) n (omega arith))

module _ (store : Store) (at : ℕ) (options : List (Option ℕ)) (child : ℕ) where
  searched :
      with_capabilities (store at).options ≡ options
      → libcli_register_param store (some at) child
        ≡ place store at options child (free_slot options children_start_index children_slots)
  unfolding libcli_register_param
  searched e = ap (λ o. place store at o child (free_slot o children_start_index children_slots)) e

  options-attach : at ≢ child → (attach store at options child at).options ≡ options
  unfolding attach
  options-attach ne = ground arith

  parent-attach : (attach store at options child child).parent ≡ some at
  unfolding attach
  parent-attach = ground arith

  attach-others : (p : ℕ) → p ≢ at → p ≢ child → attach store at options child p ≡ store p
  unfolding attach
  attach-others p n m = ground arith

  attach-parents : (p : ℕ) → p ≢ child → (attach store at options child p).parent ≡ (store p).parent
  unfolding attach
  attach-parents p n = ground arith

-- A successful registration: the child comes last among the children of its parent, knows its
-- parent, and no other parameter changes but for this.
pub record Registered (store : Store) (at child : ℕ) (ps : List ℕ) (out : Outcome Store)
    : Type 0 where
  pub after : Store
  pub returns : out ≡ done after
  pub children : HasChildren (after at) (ps ++ child ∷ [])
  pub parent : (after child).parent ≡ some at
  pub others : (p : ℕ) → p ≢ at → p ≢ child → after p ≡ store p
  pub parents : (p : ℕ) → p ≢ child → (after p).parent ≡ (store p).parent

-- For a parent that has fewer than 13 children `libcli_register_param` returns; the child comes last
-- among the children, its parent is set, and no third parameter changes.
pub register-Registered :
    (store : Store) (at child : ℕ) (ps : List ℕ)
    → HasChildren (store at) ps
    → length ps < children_slots
    → at ≢ child
    → Registered store at child ps (libcli_register_param store (some at) child)
unfolding libcli_register_param
register-Registered store at child ps h room ne = go (HasChildren-packed h)
  where
    go :
        (n : ℕ) × (length ps + n ≡ children_slots)
          × (with_capabilities (store at).options ≡ packed (capabilities ++ ps) n)
        → Registered store at child ps (libcli_register_param store (some at) child)
    go (zero, l, e) = absurd (omega arith)
    go (suc n, l, e) =
        let qs : List ℕ = capabilities ++ ps in
        let options : List (Option ℕ) = packed (qs ++ child ∷ []) n in
        record {
          after = attach store at options child;
          returns =
              searched store at _ child e
              ∙ ap (place store at (packed qs (suc n)) child) (
                  free_slot-packed qs n children_start_index children_slots (omega arith)
                    (omega arith))
              ∙ ap (λ l. done (attach store at l child)) (set-packed qs n child);
          children =
              grown {ps = ps ++ child ∷ []} n (omega (arith, length-append ps (child ∷ []), l))
                (options-attach store at options child ne);
          parent = parent-attach store at options child;
          others = attach-others store at options child;
          parents = attach-parents store at options child;
        }

-- `libcli_register_param` for a parent that has 13 children fails its assertion.
pub register_full :
    (store : Store) (at child : ℕ) (ps : List ℕ)
    → HasChildren (store at) ps
    → length ps ≡ children_slots
    → libcli_register_param store (some at) child ≡ aborted
unfolding libcli_register_param
register_full store at child ps h full = go (HasChildren-packed h)
  where
    go :
        (n : ℕ) × (length ps + n ≡ children_slots)
          × (with_capabilities (store at).options ≡ packed (capabilities ++ ps) n)
        → libcli_register_param store (some at) child ≡ aborted
    go (zero, l, e) =
        searched store at _ child e
        ∙ ap (place store at (packed (capabilities ++ ps) 0) child)
            (free_slot-full (capabilities ++ ps) children_start_index children_slots (omega arith))
    go (suc n, l, e) = absurd (omega arith)

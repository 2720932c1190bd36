-- ===== src/CmdTree/Branch.antt =====
-- `get_current_branch_hook`: the branch of the tree that a parameter stands in.
use tcp_lib_with_command_par.Prelude.{
  refl, ◌⊎◌, inl, inr, ℕ, zero, suc, ◌<◌, ◌≡◌, ◌≢◌, ap, ◌∙◌, false, ◌==◌, arith, none, some,
  Outcome, done, List,
}
use tcp_lib_with_command_par.CmdTree.{
  Kind, Leaf, cmd, no_cmd, leaf, Store, root, branch_hook_loop, get_current_branch_hook,
  libcli_register_param,
}
use tcp_lib_with_command_par.CmdTree.Register.{Registered}

-- To split on what a parameter is and keep the equation.
pub Kind-cases :
    (k : Kind)
    → ((name : List ℕ) × (k ≡ cmd name))
      ⊎ (((name : List ℕ) × (k ≡ no_cmd name)) ⊎ ((l : Leaf) × (k ≡ leaf l)))
Kind-cases (cmd name) = inl (name, refl)
Kind-cases (no_cmd name) = inr (inl (name, refl))
Kind-cases (leaf l) = inr (inr (l, refl))

-- `p` stands `n` levels below `hook`, a child of the root.
abbrev pub Under : Store → ℕ → ℕ → ℕ → Type 0
Under store hook p zero = (p ≡ hook) × ((store p).parent ≡ some root)
Under store hook p (suc n) =
    (q : ℕ) × ((store p).parent ≡ some q) × (q ≢ root) × Under store hook q n

branch_hook_loop-Under :
    (store : Store) (hook p n fuel : ℕ)
    → Under store hook p n
    → n < fuel
    → branch_hook_loop fuel store p ≡ done hook
unfolding branch_hook_loop
branch_hook_loop-Under store hook p n zero u h = elim h [ ]
branch_hook_loop-Under store hook p zero (suc fuel) u h = rw (u.1, branch_hook_loop) (ap done u.0)
branch_hook_loop-Under store hook p (suc n) (suc fuel) (q, e, ne, u) h =
    let below : (q == root) ≡ false = ground arith in
    rw (e, branch_hook_loop, below) (branch_hook_loop-Under store hook q n fuel u (omega arith))

-- For a parameter below the root the loop ends at the child of the root that it stands under, with
-- fuel beyond its depth.
pub get_current_branch_hook-Under :
    (store : Store) (hook p n fuel : ℕ)
    → Under store hook p n
    → p ≢ root
    → n < fuel
    → get_current_branch_hook fuel store p ≡ done hook
unfolding get_current_branch_hook
get_current_branch_hook-Under store hook p n fuel u ne h =
    let below : (p == root) ≡ false = ground arith in
    rw below (branch_hook_loop-Under store hook p n fuel u h)

-- Where every parent is as before but for a parameter that had none, no chain changes.
Under-parents :
    (store after : Store) (child hook p n : ℕ)
    → ((q : ℕ) → q ≢ child → (after q).parent ≡ (store q).parent)
    → (store child).parent ≡ none
    → Under store hook p n
    → Under after hook p n
Under-parents store after child hook p zero same alone (e, up) =
    (e, same p (λ x. cc (ap (λ q. (store q).parent) x)) ∙ up)
Under-parents store after child hook p (suc n) same alone (q, up, ne, u) = (
  q,
  same p (λ x. cc (ap (λ r. (store r).parent) x)) ∙ up,
  ne,
  Under-parents store after child hook q n same alone u,
)

module _ {store : Store} {at child : ℕ} {ps : List ℕ} {out : Outcome Store}
    (r : Registered store at child ps out) (alone : (store child).parent ≡ none) where
  -- What stood below a child of the root before a registration stands there after it.
  pub Registered-Under : (hook p n : ℕ) → Under store hook p n → Under r.after hook p n
  Registered-Under hook p n u = Under-parents store r.after child hook p n r.parents alone u

  -- The new child stands one level below its parent.
  pub child-Under :
      (hook n : ℕ) → at ≢ root → Under store hook at n → Under r.after hook child (suc n)
  child-Under hook n ne u = (at, r.parent, ne, Registered-Under hook at n u)

-- After a new parameter is registered below `at`, both it and `at` have the branch that `at` had.
pub branch_hook-register :
    (store : Store) (at child hook n fuel : ℕ) (ps : List ℕ)
    → (r : Registered store at child ps (libcli_register_param store (some at) child))
    → (store child).parent ≡ none
    → Under store hook at n
    → at ≢ root
    → child ≢ root
    → suc n < fuel
    → (get_current_branch_hook fuel r.after child ≡ done hook)
      × (get_current_branch_hook fuel r.after at ≡ done hook)
branch_hook-register store at child hook n fuel ps r alone u ne nc h = (
  get_current_branch_hook-Under r.after hook child (suc n) fuel (child-Under r alone hook n ne u) nc
      h,
  get_current_branch_hook-Under r.after hook at n fuel (Registered-Under r alone hook at n u) ne
      (omega arith),
)

-- ===== src/Parser/Rejection.antt =====
-- The walk of `build_tlv_buffer`, and what the end of the command puts back after a line that no
-- handler is called for.
use mathlib.Core.List.{append-nil}
use tcp_lib_with_command_par.Prelude.{
  Bool, ℕ, subst, ◌+◌, ◌*◌, ◌≤◌, ◌<◌, ◌≡◌, refl, sym, ap, ◌⊎◌, inl, inr, false, Bool-cases, Option,
  none, some, Option-cases, List, [], ◌∷◌, Outcome, done, length, arith,
}
use tcp_lib_with_command_par.SerBuf.{int_limit}
use tcp_lib_with_command_par.SerBuf.Append.{IsValid, contents}
use tcp_lib_with_command_par.CmdTree.{Leaf, leaf}
use tcp_lib_with_command_par.CmdTree.Find.{find_matching_param}
use tcp_lib_with_command_par.CmdTree.Branch.{Kind-cases}
use tcp_lib_with_command_par.CmdTree.Choices.{visible}
use tcp_lib_with_command_par.CmdTree.Match.{is_ambiguous, matched, find_matching_param-matched}
use tcp_lib_with_command_par.Tlv.{tlv_size, value_size}
use tcp_lib_with_command_par.Cli.{Cli, OpMode, config_disable}
use tcp_lib_with_command_par.Cli.Handlers.{Env, user_validation}
use tcp_lib_with_command_par.Parser.{
  discard_line, Status, complete, cmd_not_found, invalid_leaf, user_invalid_leaf, is_complete, Walk,
  check_leaf, walk_tokens,
}
use tcp_lib_with_command_par.Parser.Keeps.{
  WellFormed, Keeps-refl, Keeps-trans, WellFormed-Keeps, Steps, collect_leaf-Steps, type_of,
  IsHandled,
}

-- Every token has a byte, and a leaf has room for it.
abbrev pub AllWords : List (List ℕ) → Type 0
AllWords [] = Unit
AllWords (t ∷ ts) = (0 < length t) × (length t < value_size) × AllWords ts

Steps-refl : (c : Cli) (bytes : ℕ) → IsValid c.tlv_buff → Steps c bytes c
Steps-refl c bytes v = record { keeps = Keeps-refl c v; short = omega arith }

-- The call returns a state and a status.
record Checked (cli : Cli) (out : Outcome (Cli × Status)) : Type 0 where
  after : Cli
  status : Status
  returns : out ≡ done (after, status)
  steps : Steps cli tlv_size after

check_leaf-Checked :
    (env : Env) (cli : Cli) (q : ℕ) (l : Leaf) (token : List ℕ)
    → (cli.store q).kind ≡ leaf l
    → IsValid cli.tlv_buff
    → IsHandled (some l.leaf_type)
    → length token < value_size
    → (cli.tlv_buff.next + tlv_size) * 2 ≤ int_limit
    → Checked cli (check_leaf env cli q l token)
unfolding check_leaf
check_leaf-Checked env cli q l token here v handled fits room =
    let (b, e) = handled token in
    elim (Bool-cases b) [
      | inr bad ↦ record {
        after = cli;
        status = invalid_leaf;
        returns = rw (e, bad) refl;
        steps = Steps-refl cli tlv_size v;
      }
      | inl good ↦ elim (Bool-cases (user_validation env l.user_validation_cb_fn token)) [
        | inr bad ↦ record {
          after = cli;
          status = user_invalid_leaf;
          returns = rw (e, good, bad) refl;
          steps = Steps-refl cli tlv_size v;
        }
        | inl well ↦
            let (after, returns, steps) = collect_leaf-Steps env cli q l token here v fits room in
            record {
              after = after;
              status = complete;
              returns = rw (e, good, well, returns) refl;
              steps = steps;
            }
      ]
    ]

-- The walk returns; where its status is COMPLETE it stands at a parameter.
pub record Walked (cli : Cli) (bytes : ℕ) (out : Outcome Walk) : Type 0 where
  pub walk : Walk
  pub returns : out ≡ done walk
  pub steps : Steps cli bytes walk.cli
  pub arrived :
      (is_complete walk.status ≡ false)
      ⊎ ((p : ℕ) × (walk.param ≡ some p) × (walk.status ≡ complete))

Walked-after :
    (a b : Cli) (n m : ℕ) (out : Outcome Walk) → Steps a n b → Walked b m out → Walked a (n + m) out
Walked-after a b n m out s w = record {
  walk = w.walk;
  returns = w.returns;
  steps = record {
    keeps = Keeps-trans a b w.walk.cli s.keeps w.steps.keeps;
    short = omega (arith, s.short, w.steps.short);
  };
  arrived = w.arrived;
}

-- The tokens that are left fit into the TLV buffer.
abbrev pub Room : Cli → List (List ℕ) → Type 0
Room cli tokens = (cli.tlv_buff.next + tlv_size * length tokens) * 2 ≤ int_limit

discard-Steps :
    (env : Env) (i : ℕ) (asked : Bool) (cli : Cli) (n : ℕ)
    → IsValid cli.tlv_buff
    → Steps cli n (discard_line env i asked cli)
discard-Steps env i asked cli n v = record {
  keeps = record {
    at = refl;
    console = refl;
    names = λ p. refl;
    types = λ p. refl;
    options = λ p. refl;
    valid = v;
    checkpoint = refl;
    extra = [];
    appended = sym (append-nil (contents cli.tlv_buff));
    advanced = omega arith;
  };
  short = omega arith;
}

pub walk_tokens-Walked :
    (env : Env) (i : ℕ) (tokens : List (List ℕ)) (cli : Cli) (parent : Option ℕ) (p : ℕ)
    (mode : OpMode)
    → WellFormed cli.store
    → IsValid cli.tlv_buff
    → AllWords tokens
    → Room cli tokens
    → Walked cli (tlv_size * length tokens) (walk_tokens env i tokens cli parent p mode)
unfolding walk_tokens
walk_tokens-Walked env i [] cli parent p mode w v h room = record {
  walk = record { cli = cli; parent = parent; param = some p; status = complete; mode = mode };
  returns = refl;
  steps = Steps-refl cli (tlv_size * 0) v;
  arrived = inr (p, refl, refl);
}
walk_tokens-Walked env i (token ∷ rest) cli parent p mode w v h room =
    let m : Option ℕ = matched cli.store (visible (cli.store p).options) token (env.choices i) in
    let asked : Bool = is_ambiguous cli.store (visible (cli.store p).options) token in
    let read : Cli = discard_line env i asked cli in
    let f : find_matching_param cli.store (cli.store p).options token (env.choices i)
        ≡ done (m, asked) =
      find_matching_param-matched cli.store (cli.store p).options token (env.choices i)
        (w.few p token h.0) in
    let enough : tlv_size + tlv_size * length rest ≡ tlv_size * length (token ∷ rest) =
      omega arith in
    elim (Option-cases m) [
      | inl e ↦
          rw (f, e)
            (record {
              walk = record {
                cli = read;
                parent = some p;
                param = none;
                status = cmd_not_found;
                mode = mode;
              };
              returns = refl;
              steps = discard-Steps env i asked cli (tlv_size * length (token ∷ rest)) v;
              arrived = inl refl;
            })
      | inr (q, e) ↦ elim (Kind-cases (cli.store q).kind) [
        | inl (name, k) ↦
            rw (f, e, k, sym enough)
              (Walked-after cli read tlv_size (tlv_size * length rest)
                (walk_tokens env (i + 1) rest read (some p) q mode)
                (discard-Steps env i asked cli tlv_size v)
                (walk_tokens-Walked env (i + 1) rest read (some p) q mode w v h.2 (omega arith)))
        | inr (inl (name, k)) ↦
            rw (f, e, k, sym enough)
              (Walked-after cli read tlv_size (tlv_size * length rest)
                (walk_tokens env (i + 1) rest read (some p) q config_disable)
                (discard-Steps env i asked cli tlv_size v)
                (walk_tokens-Walked env (i + 1) rest read (some p) q config_disable w v h.2
                  (omega arith)))
        | inr (inr (l, k)) ↦
            let c =
              check_leaf-Checked env read q l token k v
                (subst IsHandled (ap type_of k) (w.handled q)) h.1 (omega arith) in
            let steps : Steps cli tlv_size c.after = record {
              keeps =
                  Keeps-trans cli read c.after (discard-Steps env i asked cli 0 v).keeps
                    c.steps.keeps;
              short = omega (arith, c.steps.short);
            } in
            elim (Bool-cases (is_complete c.status)) [
              | inl go ↦
                  rw (f, e, k, c.returns, go, sym enough)
                    (Walked-after cli c.after tlv_size (tlv_size * length rest)
                      (walk_tokens env (i + 1) rest c.after (some p) q mode) steps
                      (walk_tokens-Walked env (i + 1) rest c.after (some p) q mode
                        (WellFormed-Keeps read c.after w c.steps.keeps) c.steps.keeps.valid h.2
                        (omega (arith, c.steps.short))))
              | inr halt ↦
                  rw (f, e, k, c.returns, halt)
                    (record {
                      walk = record {
                        cli = c.after;
                        parent = some p;
                        param = some q;
                        status = c.status;
                        mode = mode;
                      };
                      returns = refl;
                      steps = record { keeps = steps.keeps; short = omega (arith, c.steps.short) };
                      arrived = inl halt;
                    })
            ]
      ]
    ]

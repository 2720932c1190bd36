-- ===== src/Parser/Settle.antt =====
-- What the end of a command puts back after a line that no handler is called for.
use tcp_lib_with_command_par.Prelude.{
  ℕ, ◌≡◌, refl, sym, ap, ◌∙◌, ◌⊎◌, inl, inr, true, false, Bool-cases, none, some, List, Outcome,
  done, take, length-take, arith, ◌==◌, if◌then◌else◌,
}
use tcp_lib_with_command_par.Prelude.Memory.{take-append_self, take-take}
use tcp_lib_with_command_par.SerBuf.{restore_checkpoint_serialize_buffer, reset_serialize_buffer}
use tcp_lib_with_command_par.SerBuf.Append.{IsValid, contents}
use tcp_lib_with_command_par.CmdTree.{root}
use tcp_lib_with_command_par.Cli.{Cli, mode_unknown}
use tcp_lib_with_command_par.Cli.Handlers.{Env, has_callback}
use tcp_lib_with_command_par.Parser.{
  Status, complete, error, invalid_leaf, user_invalid_leaf, cmd_not_found,
  multiple_matching_commands, unknown, incomplete_command, is_complete, Walk, finish_walk,
  build_tlv_buffer, dispatch,
}
use tcp_lib_with_command_par.Parser.Line.{settle}
use tcp_lib_with_command_par.Parser.Keeps.{WellFormed, Keeps}
use tcp_lib_with_command_par.Parser.Rejection.{AllWords, Room, walk_tokens-Walked}

-- The state in which a line is read: the TLV buffer ends at its checkpoint, and is empty at the
-- root.
pub record AtPrompt (cli : Cli) : Type 0 where
  pub valid : IsValid cli.tlv_buff
  pub marked : cli.tlv_buff.checkpoint ≡ cli.tlv_buff.next
  pub home : ((cli.cursor == root) ≡ false) ⊎ (cli.tlv_buff.next ≡ 0)

-- The cursor, the console name and the TLV buffer are as they were, and a line can be read.
pub record Undone (before after : Cli) : Type 0 where
  pub at : after.cursor ≡ before.cursor
  pub console : after.console_name ≡ before.console_name
  pub same : contents after.tlv_buff ≡ contents before.tlv_buff
  pub next : after.tlv_buff.next ≡ before.tlv_buff.next
  pub prompt : AtPrompt after

kept_prefix :
    (a b : Cli)
    → IsValid a.tlv_buff
    → Keeps a b
    → take a.tlv_buff.next b.tlv_buff.b ≡ contents a.tlv_buff
kept_prefix a b v k =
    sym (take-take a.tlv_buff.next b.tlv_buff.next b.tlv_buff.b (omega (arith, k.advanced)))
    ∙ ap (take a.tlv_buff.next) k.appended
    ∙ take-append_self (contents a.tlv_buff) k.extra a.tlv_buff.next
        (omega (arith, length-take a.tlv_buff.next a.tlv_buff.b))

settle-Undone : (a b : Cli) → AtPrompt a → Keeps a b → Undone a (settle b)
unfolding settle reset_serialize_buffer restore_checkpoint_serialize_buffer
settle-Undone a b p k = elim (Bool-cases (b.cursor == root)) [
  | inl here ↦
      let zero_next : a.tlv_buff.next ≡ 0 =
        at_root p.home (ap (λ c. c == root) (sym k.at) ∙ here) in
      record {
        at = k.at;
        console = k.console;
        same = rw here (sym (ap (λ n. take n a.tlv_buff.b) zero_next));
        next = rw here (sym zero_next);
        prompt = record {
          valid = rw here (omega (arith, k.valid));
          marked = rw here refl;
          home = rw here (inr refl);
        };
      }
  | inr below ↦
      let back : b.tlv_buff.checkpoint ≡ a.tlv_buff.next = k.checkpoint ∙ p.marked in
      record {
        at = k.at;
        console = k.console;
        same = rw below (ap (λ n. take n b.tlv_buff.b) back ∙ kept_prefix a b p.valid k);
        next = rw below back;
        prompt = record {
          valid = rw below (omega (arith, k.valid));
          marked = rw below refl;
          home = inl below;
        };
      }
]
  where
    at_root :
        ((a.cursor == root) ≡ false) ⊎ (a.tlv_buff.next ≡ 0)
        → (a.cursor == root) ≡ true
        → a.tlv_buff.next ≡ 0
    at_root (inl away) h = cc
    at_root (inr e) h = e

-- The walk has arrived at a parameter with a handler, and the outcome is that of its dispatch.
pub record Accepts (env : Env) (cli : Cli) (out : Outcome (Cli × Status)) : Type 0 where
  pub walk : Walk
  pub param : ℕ
  pub keeps : Keeps cli walk.cli
  pub registered : has_callback walk.cli.store param ≡ true
  pub dispatched : out ≡ dispatch env walk.cli walk.parent param walk.mode

-- The call returns a status that is not COMPLETE, and `settle` undoes it.
pub record Rejects (cli : Cli) (out : Outcome (Cli × Status)) : Type 0 where
  pub after : Cli
  pub status : Status
  pub returns : out ≡ done (after, status)
  pub refused : is_complete status ≡ false
  pub undone : Undone cli (settle after)

finish_refused :
    (env : Env) (w : Walk)
    → is_complete w.status ≡ false
    → finish_walk env w ≡ done (w.cli, w.status)
unfolding finish_walk
finish_refused env w h = go w.status refl h
  where
    go :
        (s : Status)
        → w.status ≡ s
        → is_complete s ≡ false
        → finish_walk env w ≡ done (w.cli, w.status)
    go complete e k = cc
    go error e k = rw e refl
    go invalid_leaf e k = rw e refl
    go user_invalid_leaf e k = rw e refl
    go cmd_not_found e k = rw e refl
    go incomplete_command e k = rw e refl
    go multiple_matching_commands e k = rw e refl
    go unknown e k = rw e refl

finish_at :
    (env : Env) (w : Walk) (q : ℕ)
    → w.param ≡ some q
    → w.status ≡ complete
    → finish_walk env w ≡ (
        if has_callback w.cli.store q
        then dispatch env w.cli w.parent q w.mode
        else done (w.cli, incomplete_command))
unfolding finish_walk
finish_at env w q at fine = rw (fine, at) refl

-- From a state in which a line can be read, on non-empty words of fewer than 64 bytes that the TLV
-- buffer has room for, in a tree where fewer than ten commands of a parameter begin with one word
-- and leaf types have handlers, `build_tlv_buffer` either dispatches a parameter with a handler, or
-- returns an error, and then the end of the command restores cursor, console name and buffer.
pub build_tlv_buffer-Rejects :
    (env : Env) (cli : Cli) (tokens : List (List ℕ))
    → WellFormed cli.store
    → AtPrompt cli
    → AllWords tokens
    → Room cli tokens
    → Accepts env cli (build_tlv_buffer env cli tokens)
      ⊎ Rejects cli (build_tlv_buffer env cli tokens)
unfolding build_tlv_buffer
build_tlv_buffer-Rejects env cli tokens form p h room =
    let w = walk_tokens-Walked env 0 tokens cli none cli.cursor mode_unknown form p.valid h room in
    elim w.arrived [
      | inl refused ↦ inr (record {
        after = w.walk.cli;
        status = w.walk.status;
        returns = rw w.returns (finish_refused env w.walk refused);
        refused = refused;
        undone = settle-Undone cli w.walk.cli p w.steps.keeps;
      })
      | inr (q, at, fine) ↦ elim (Bool-cases (has_callback w.walk.cli.store q)) [
        | inl registered ↦ inl (record {
          walk = w.walk;
          param = q;
          keeps = w.steps.keeps;
          registered = registered;
          dispatched = rw w.returns (finish_at env w.walk q at fine ∙ rw registered refl);
        })
        | inr missing ↦ inr (record {
          after = w.walk.cli;
          status = incomplete_command;
          returns = rw w.returns (finish_at env w.walk q at fine ∙ rw missing refl);
          refused = refl;
          undone = settle-Undone cli w.walk.cli p w.steps.keeps;
        })
      ]
    ]

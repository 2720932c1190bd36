-- ===== src/Demarcar/Variable.antt =====
-- The demarcar for messages of variable size hands on a block that it never writes.
use tcp_lib_with_command_par.Prelude.{
  ℕ, zero, suc, ◌+◌, ◌*◌, ◌-◌, ◌≤◌, ◌<◌, ◌≡◌, refl, ◌∙◌, ap, inl, inr, true, false, Bool-cases, leb,
  ltb, leb→le, ◌==◌, List, [], ◌∷◌, ◌++◌, Outcome, done, ◌>>=◌, arith, length, take, drop,
  length-append, length-take, length-drop, if◌then◌else◌,
}
use tcp_lib_with_command_par.Bcb.{Bcb, u16, bcb_read}
use tcp_lib_with_command_par.Bcb.Queue.{Holds}
use tcp_lib_with_command_par.Bcb.Read.{bcb_read-Reads}
use tcp_lib_with_command_par.Bcb.Round.{bcb_read-misread, bcb_read-refused, misread, length-misread}
use tcp_lib_with_command_par.Bcb.Write.{bcb_write-Writes}
use tcp_lib_with_command_par.Demarcar.{
  Demarcar, Delivery, short_value, variable_size, variable_loop, message_loop, process_client_msg,
  process_msg, ready_by, is_buffer_ready_to_flush,
}

abbrev pub AllOf : List ℕ → List Delivery → Type 0
AllOf block [] = Unit
AllOf block (v ∷ vs) = (v.block ≡ block) × AllOf block vs

-- The call returns. Every message is the block `buffer` as it was before; two bytes of `q` have been
-- taken for each, and one byte or none is left.
pub record Ignores (d : Demarcar) (q : List ℕ) (out : Outcome (Demarcar × List Delivery))
    : Type 0 where
  pub after : Demarcar
  pub deliveries : List Delivery
  pub returns : out ≡ done (after, deliveries)
  pub stale : AllOf d.buffer deliveries
  pub same : after.buffer ≡ d.buffer
  pub pairs : length q ≡ 2 * length deliveries + after.bcb.current_size
  pub left : after.bcb.current_size < 2

-- A read of two bytes, whether or not it goes round.
record Pair (bcb : Bcb) (q cell : List ℕ) : Type 0 where
  after : Bcb
  value : List ℕ
  returns : bcb_read bcb cell 2 true ≡ done (after, value, 2)
  holds : Holds after (drop 2 q)
  cell_size : length value ≡ 2

read-Pair :
    (bcb : Bcb) (q cell : List ℕ) → Holds bcb q → length cell ≡ 2 → 2 ≤ length q → Pair bcb q cell
read-Pair bcb q cell h two enough = elim (Bool-cases (leb (bcb.rear + 2) bcb.buffer_size)) [
  | inl ahead ↦
      let r =
        bcb_read-Reads bcb q cell 2 true h enough (omega arith)
          (leb→le (bcb.rear + 2) bcb.buffer_size ahead) in
      record {
        after = r.after;
        value = take 2 q ++ drop 2 cell;
        returns = r.returns;
        holds = r.holds;
        cell_size =
            omega
              (arith, length-append (take 2 q) (drop 2 cell), length-take 2 q, length-drop 2 cell);
      }
  | inr over ↦
      let lead : ℕ = bcb.buffer_size - bcb.rear in
      let r = bcb_read-misread bcb q cell 2 true h enough (omega arith) (ground arith) in
      record {
        after = r.after;
        value = misread lead 2 q cell;
        returns = r.returns;
        holds = r.holds;
        cell_size = length-misread lead 2 q cell (ground arith) enough (omega arith) ∙ two;
      }
]

variable_loop-Ignores :
    (fuel : ℕ) (cell : List ℕ) (d : Demarcar) (q : List ℕ)
    → Holds d.bcb q
    → length cell ≡ 2
    → length q < fuel
    → Ignores d q (variable_loop fuel cell d)
unfolding variable_loop
variable_loop-Ignores zero cell d q h two k = elim k [ ]
variable_loop-Ignores (suc fuel) cell d q h two k = elim (Bool-cases (ltb (length q) 2)) [
  | inl few ↦
      let short : length q < 2 = ground arith in
      record {
        after = d;
        deliveries = [];
        returns = rw (bcb_read-refused d.bcb q cell 2 true h short) refl;
        stale = tt;
        same = refl;
        pairs = omega (arith, h.counted);
        left = omega (arith, h.counted);
      }
  | inr enough ↦
      let p = read-Pair d.bcb q cell h two (ground arith) in
      let g =
        variable_loop-Ignores fuel p.value (record d { bcb = p.after }) (drop 2 q) p.holds
          p.cell_size (ground (arith, length-drop 2 q)) in
      record {
        after = g.after;
        deliveries =
            record { block = d.buffer; size = u16 (short_value p.value + 65536 - 2) }
            ∷ g.deliveries;
        returns = rw (p.returns, g.returns) refl;
        stale = (refl, g.stale);
        same = g.same;
        pairs = ground (arith, g.pairs, length-drop 2 q);
        left = g.left;
      }
]

process_variable-Ignores :
    (d : Demarcar) (q : List ℕ)
    → d.framing ≡ variable_size
    → Holds d.bcb q
    → Ignores d q (process_client_msg d)
unfolding process_client_msg is_buffer_ready_to_flush ready_by message_loop
process_variable-Ignores d q kind h =
    let g =
      variable_loop-Ignores (suc d.bcb.current_size) (0 ∷ 0 ∷ []) d q h refl
        (omega (arith, h.counted)) in
    record {
      after = g.after;
      deliveries = g.deliveries;
      returns =
          ap (λ k. ready_by k d.bcb >>= λ ready. if ready then message_loop k d else done (d, []))
            kind
          ∙ g.returns;
      stale = g.stale;
      same = g.same;
      pairs = g.pairs;
      left = g.left;
    }

-- With messages of variable size, a segment that fits is consumed two bytes at a time, and for each
-- two bytes the application is given the block `buffer` as it was before the call, which holds
-- nothing of what was received.
pub process_msg-Ignores :
    (d : Demarcar) (q segment extra : List ℕ)
    → d.framing ≡ variable_size
    → Holds d.bcb q
    → 0 < length segment
    → length q + length segment ≤ d.bcb.buffer_size
    → Ignores d (q ++ segment) (process_msg d (segment ++ extra) (length segment))
unfolding process_msg is_buffer_ready_to_flush ready_by
process_msg-Ignores d q segment extra kind h some_bytes fit =
    let w = bcb_write-Writes d.bcb q segment extra h (omega arith) fit in
    let d1 : Demarcar = record d { bcb = w.after } in
    let g = process_variable-Ignores d1 (q ++ segment) kind w.holds in
    let written : (length segment == 0) ≡ false = ground arith in
    record {
      after = g.after;
      deliveries = g.deliveries;
      returns =
          rw (w.returns, written)
            (ap
                (λ k. ready_by k w.after >>= λ ready.
                  if ready then process_client_msg d1 else done (d1, []))
                kind
              ∙ g.returns);
      stale = g.stale;
      same = g.same;
      pairs = g.pairs;
      left = g.left;
    }

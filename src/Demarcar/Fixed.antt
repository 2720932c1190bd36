-- ===== src/Demarcar/Fixed.antt =====
-- Messages of a fixed size that divides the size of the ring are those of the stream of bytes.
use tcp_lib_with_command_par.Prelude.{
  ℕ, zero, suc, ◌+◌, ◌/◌, ◌≤◌, ◌<◌, ◌≡◌, refl, sym, ◌∙◌, ap, inl, inr, true, false, Bool-cases, ltb,
  ◌==◌, List, [], ◌∷◌, ◌++◌, map, Outcome, done, arith, length, take, drop, take-append-drop,
  length-append, length-take, length-drop,
}
use tcp_lib_with_command_par.Prelude.Memory.{take-append_self}
use tcp_lib_with_command_par.Bcb.Read.{bcb_read-Reads}
use tcp_lib_with_command_par.Bcb.Round.{bcb_read-refused}
use tcp_lib_with_command_par.Bcb.Write.{bcb_write-Writes}
use tcp_lib_with_command_par.Demarcar.{
  Demarcar, Delivery, fixed_size, fixed_loop, message_loop, process_client_msg, process_msg,
  ready_by, is_buffer_ready_to_flush,
}
use tcp_lib_with_command_par.Demarcar.Sizes.{
  Aligned, Framed, Frames, lt_of_div, next-Aligned, next_read, payload,
}

-- The call returns, has handed on the messages of `q`, and keeps the rest.
pub record Delivers (d : Demarcar) (m : ℕ) (q : List ℕ) (out : Outcome (Demarcar × List Delivery))
    : Type 0 where
  pub after : Demarcar
  pub deliveries : List Delivery
  pub rest : List ℕ
  pub returns : out ≡ done (after, deliveries)
  pub frames : Frames m q (map payload deliveries) rest
  pub framed : Framed m after rest
  pub same_size : after.bcb.buffer_size ≡ d.bcb.buffer_size

fixed_loop-Delivers :
    (fuel m : ℕ) (d : Demarcar) (q : List ℕ)
    → Framed m d q
    → length q < fuel
    → Delivers d m q (fixed_loop fuel m d)
unfolding fixed_loop
fixed_loop-Delivers zero m d q f h = elim h [ ]
fixed_loop-Delivers (suc fuel) m d q f h = elim (Bool-cases (ltb (length q) m)) [
  | inl few ↦
      let short : length q < m = ground arith in
      record {
        after = d;
        deliveries = [];
        rest = q;
        returns = rw (bcb_read-refused d.bcb q d.buffer m true f.holds short) refl;
        frames = (refl, short);
        framed = f;
        same_size = refl;
      }
  | inr enough ↦
      let whole : m ≤ length q = ground arith in
      let r = bcb_read-Reads d.bcb q d.buffer m true f.holds whole f.room (next_read m d q f) in
      let block : List ℕ = take m q ++ drop m d.buffer in
      let read : Demarcar = record d { bcb = r.after; buffer = block } in
      let first : length (take m q) ≡ m = omega (arith, length-take m q) in
      let g =
        fixed_loop-Delivers fuel m read (drop m q)
          (record {
            kind = f.kind;
            positive = f.positive;
            room = omega (arith, first, length-append (take m q) (drop m d.buffer));
            holds = r.holds;
            aligned =
                next-Aligned m d.bcb r.after f.aligned r.same_size r.moved (next_read m d q f);
          })
          (omega (arith, f.positive, length-drop m q)) in
      let some_read : (m == 0) ≡ false = ground (arith, f.positive) in
      record {
        after = g.after;
        deliveries = record { block = block; size = m } ∷ g.deliveries;
        rest = g.rest;
        returns = rw (r.returns, some_read, g.returns) refl;
        frames = (
          drop m q,
          omega (arith, first, length-take m block, length-append (take m q) (drop m d.buffer)),
          sym (take-append-drop m q)
              ∙ ap (λ l. l ++ drop m q)
                  (sym (take-append_self (take m q) (drop m d.buffer) m (sym first))),
          g.frames,
        );
        framed = g.framed;
        same_size = g.same_size ∙ r.same_size;
      }
]

ready-Framed :
    (m : ℕ) (d : Demarcar)
    → d.framing ≡ fixed_size m
    → 0 < m
    → is_buffer_ready_to_flush d ≡ done (ltb 0 (d.bcb.current_size / m))
unfolding is_buffer_ready_to_flush ready_by
ready-Framed m d kind positive =
    let some_size : (m == 0) ≡ false = ground arith in
    ap (λ k. ready_by k d.bcb) kind ∙ rw some_size refl

process_client_msg-Delivers :
    (m : ℕ) (d : Demarcar) (q : List ℕ) → Framed m d q → Delivers d m q (process_client_msg d)
unfolding process_client_msg message_loop
process_client_msg-Delivers m d q f =
    let tested = ready-Framed m d f.kind f.positive in
    let loop =
      fixed_loop-Delivers (suc d.bcb.current_size) m d q f (omega (arith, f.holds.counted)) in
    elim (Bool-cases (ltb 0 (d.bcb.current_size / m))) [
      | inl ready ↦ record {
        after = loop.after;
        deliveries = loop.deliveries;
        rest = loop.rest;
        returns = rw (tested, ready) (ap (λ k. message_loop k d) f.kind ∙ loop.returns);
        frames = loop.frames;
        framed = loop.framed;
        same_size = loop.same_size;
      }
      | inr waits ↦ record {
        after = d;
        deliveries = [];
        rest = q;
        returns = rw (tested, waits) refl;
        frames =
            (refl, omega (arith, f.holds.counted, lt_of_div d.bcb.current_size m f.positive waits));
        framed = f;
        same_size = refl;
      }
    ]

-- A segment that fits behind what is held is cut into messages with it.
pub process_msg-Delivers :
    (m : ℕ) (d : Demarcar) (q segment extra : List ℕ)
    → Framed m d q
    → 0 < length segment
    → length q + length segment ≤ d.bcb.buffer_size
    → Delivers d m (q ++ segment) (process_msg d (segment ++ extra) (length segment))
unfolding process_msg
process_msg-Delivers m d q segment extra f some_bytes fit =
    let w = bcb_write-Writes d.bcb q segment extra f.holds (omega arith) fit in
    let d1 : Demarcar = record d { bcb = w.after } in
    let a : Aligned m w.after = record {
      at = f.aligned.at;
      count = f.aligned.count;
      read_at = w.unmoved ∙ f.aligned.read_at;
      size_of = w.same_size ∙ f.aligned.size_of;
    } in
    let f1 : Framed m d1 (q ++ segment) = record {
      kind = f.kind;
      positive = f.positive;
      room = f.room;
      holds = w.holds;
      aligned = a;
    } in
    let written : (length segment == 0) ≡ false = ground arith in
    let tested = ready-Framed m d1 f.kind f.positive in
    let c = process_client_msg-Delivers m d1 (q ++ segment) f1 in
    elim (Bool-cases (ltb 0 (w.after.current_size / m))) [
      | inl ready ↦ record {
        after = c.after;
        deliveries = c.deliveries;
        rest = c.rest;
        returns = rw (w.returns, written, tested, ready) c.returns;
        frames = c.frames;
        framed = c.framed;
        same_size = c.same_size ∙ w.same_size;
      }
      | inr waits ↦ record {
        after = d1;
        deliveries = [];
        rest = q ++ segment;
        returns = rw (w.returns, written, tested, waits) refl;
        frames = (
          refl,
          omega (arith, w.holds.counted, lt_of_div w.after.current_size m f.positive waits),
        );
        framed = f1;
        same_size = w.same_size;
      }
    ]

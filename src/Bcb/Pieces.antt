-- ===== src/Bcb/Pieces.antt =====
-- The two pieces of a write of byte_circular_buffer.cpp.
use mathlib.Core.List.{append-nil, append_assoc}
use tcp_lib_with_command_par.Prelude.{
  ℕ, ◌-◌, ◌+◌, ◌≤◌, ◌≡◌, refl, sym, ◌∙◌, ap, inr, List, [], ◌++◌, Outcome, done, arith, length,
  length-append,
}
use tcp_lib_with_command_par.Prelude.Blocks.{memcpy_in-middle, memcpy_out-middle, Split}
use tcp_lib_with_command_par.Bcb.{Bcb, u16, advanced, write_straight, write_round}
use tcp_lib_with_command_par.Bcb.Queue.{
  Straight, Wrapped, Holds, Straight-lengths, Wrapped-lengths, laid_out,
}

-- The call returns the number of bytes and a buffer of the same size that holds the queue.
pub record Writes (bcb : Bcb) (q : List ℕ) (n : ℕ) (out : Outcome (Bcb × ℕ)) : Type 0 where
  pub after : Bcb
  pub returns : out ≡ done (after, n)
  pub holds : Holds after q
  pub same_size : after.buffer_size ≡ bcb.buffer_size
  pub unmoved : after.rear ≡ bcb.rear

module _ (bcb : Bcb) (q d extra : List ℕ) (h : Holds bcb q) where
  module _ (s : Straight bcb q) (fit : length d ≤ length s.behind) where
    pub filled :
        Split (length d) s.behind
        → Writes bcb (q ++ d) (length d) (write_straight bcb (d ++ extra) (length d))
    unfolding write_straight
    filled p =
        let from = memcpy_out-middle (d ++ extra) [] d extra 0 refl refl (length d) refl in
        let whole : bcb.buffer ≡ (s.before ++ q) ++ (p.first ++ p.second) =
          s.block
          ∙ ap (λ l. s.before ++ (q ++ l)) p.whole
          ∙ sym (append_assoc s.before q (p.first ++ p.second)) in
        let to =
          memcpy_in-middle bcb.buffer (s.before ++ q) p.first p.second bcb.front whole
            (omega (arith, s.end, length-append s.before q)) d (sym p.sized) in
        let len = Straight-lengths s in
        let behind : length s.behind ≡ length d + length p.second =
          omega (arith, ap length p.whole, length-append p.first p.second, p.sized) in
        let after : Bcb = record bcb {
          buffer = (s.before ++ q) ++ (d ++ p.second);
          front = advanced bcb bcb.front (length d);
          current_size = u16 (bcb.current_size + length d);
        } in
        let total : length after.buffer ≡ bcb.buffer_size = omega (
          arith,
          h.sized,
          len,
          behind,
          length-append (s.before ++ q) (d ++ p.second),
          length-append s.before q,
          length-append d p.second,
        ) in
        record {
          after = after;
          returns = rw (from, to) refl;
          holds = record {
            sized = total;
            small = h.small;
            counted = omega (arith, h.counted, h.small, h.sized, len, behind, length-append q d);
            layout =
                laid_out after s.before (q ++ d) p.second
                  (append_assoc s.before q (d ++ p.second)
                    ∙ ap (λ l. s.before ++ l) (sym (append_assoc q d p.second)))
                  s.start (omega (arith, total, len, s.room))
                  (ground (arith, s.end, total, h.sized, h.small, len, behind, length-append q d));
          };
          same_size = refl;
          unmoved = refl;
        }

  -- The bytes that do not fit behind the queue go to the start of the block.
  pub gone_round :
      (s : Straight bcb q) (d1 d2 : List ℕ)
      → d ≡ d1 ++ d2
      → length d1 ≡ length s.behind
      → Split (length d2) s.before
      → Writes bcb (q ++ d) (length d) (write_round bcb (d ++ extra) (length d) (length s.behind))
  unfolding write_round
  gone_round s d1 d2 parts full p =
      let input : d ++ extra ≡ d1 ++ (d2 ++ extra) =
        ap (λ l. l ++ extra) parts ∙ append_assoc d1 d2 extra in
      let len_d : length d ≡ length d1 + length d2 = ap length parts ∙ length-append d1 d2 in
      let len_before : length s.before ≡ length d2 + length p.second =
        omega (arith, ap length p.whole, length-append p.first p.second, p.sized) in
      let len = Straight-lengths s in
      let from1 =
        memcpy_out-middle (d ++ extra) [] d1 (d2 ++ extra) 0 input refl (length s.behind)
          (sym full) in
      let from2 =
        memcpy_out-middle (d ++ extra) d1 d2 extra (length s.behind) input (sym full)
          (length d - length s.behind) (omega (arith, len_d, full)) in
      let whole : bcb.buffer ≡ (s.before ++ q) ++ (s.behind ++ []) =
        s.block
        ∙ sym (append_assoc s.before q s.behind)
        ∙ ap (λ l. (s.before ++ q) ++ l) (sym (append-nil s.behind)) in
      let to1 =
        memcpy_in-middle bcb.buffer (s.before ++ q) s.behind [] bcb.front whole
          (omega (arith, s.end, length-append s.before q)) d1 full in
      let regrouped : (s.before ++ q) ++ (d1 ++ []) ≡ p.first ++ (p.second ++ (q ++ d1)) =
        ap (λ l. (l ++ q) ++ (d1 ++ [])) p.whole ∙ simp (append_assoc, append-nil) in
      let to2 =
        memcpy_in-middle ((s.before ++ q) ++ (d1 ++ [])) [] p.first (p.second ++ (q ++ d1)) 0
          regrouped refl d2 (sym p.sized) in
      let after : Bcb = record bcb {
        buffer = d2 ++ (p.second ++ (q ++ d1));
        front = u16 (length d - length s.behind);
        current_size = u16 (bcb.current_size + length d);
      } in
      let total : length after.buffer ≡ bcb.buffer_size = omega (
        arith,
        h.sized,
        len,
        len_before,
        full,
        length-append d2 (p.second ++ (q ++ d1)),
        length-append p.second (q ++ d1),
        length-append q d1,
      ) in
      record {
        after = after;
        returns = rw (from1, to1, from2, to2) refl;
        holds = record {
          sized = total;
          small = h.small;
          counted =
              omega (
                arith,
                h.counted,
                h.small,
                h.sized,
                len,
                len_before,
                len_d,
                full,
                length-append q d,
              );
          layout = inr (record {
            head = q ++ d1;
            tail = d2;
            gap = p.second;
            block = refl;
            start = omega (arith, s.start, len_before);
            end = omega (arith, len_d, full, h.sized, h.small, len, len_before);
            pieces = ap (λ l. q ++ l) parts ∙ sym (append_assoc q d1 d2);
            some_head = omega (arith, s.room, full, length-append q d1);
          });
        };
        same_size = refl;
        unmoved = refl;
      }

  -- Behind bytes that go round, the gap is filled.
  pub gap_filled :
      (w : Wrapped bcb q)
      → Split (length d) w.gap
      → Writes bcb (q ++ d) (length d) (write_straight bcb (d ++ extra) (length d))
  unfolding write_straight
  gap_filled w p =
      let from = memcpy_out-middle (d ++ extra) [] d extra 0 refl refl (length d) refl in
      let whole : bcb.buffer ≡ w.tail ++ (p.first ++ (p.second ++ w.head)) =
        w.block
        ∙ ap (λ l. w.tail ++ (l ++ w.head)) p.whole
        ∙ ap (λ l. w.tail ++ l) (append_assoc p.first p.second w.head) in
      let to =
        memcpy_in-middle bcb.buffer w.tail p.first (p.second ++ w.head) bcb.front whole w.end d
          (sym p.sized) in
      let (len, len_q) = Wrapped-lengths w in
      let len_gap : length w.gap ≡ length d + length p.second =
        omega (arith, ap length p.whole, length-append p.first p.second, p.sized) in
      let after : Bcb = record bcb {
        buffer = w.tail ++ (d ++ (p.second ++ w.head));
        front = advanced bcb bcb.front (length d);
        current_size = u16 (bcb.current_size + length d);
      } in
      let total : length after.buffer ≡ bcb.buffer_size = omega (
        arith,
        h.sized,
        len,
        len_gap,
        length-append w.tail (d ++ (p.second ++ w.head)),
        length-append d (p.second ++ w.head),
        length-append p.second w.head,
      ) in
      record {
        after = after;
        returns = rw (from, to) refl;
        holds = record {
          sized = total;
          small = h.small;
          counted =
              omega (arith, h.counted, h.small, h.sized, len, len_q, len_gap, length-append q d);
          layout = inr (record {
            head = w.head;
            tail = w.tail ++ d;
            gap = p.second;
            block = sym (append_assoc w.tail d (p.second ++ w.head));
            start = omega (arith, w.start, len_gap, length-append w.tail d);
            end =
                ground (
                  arith,
                  w.end,
                  h.sized,
                  h.small,
                  len,
                  len_gap,
                  w.some_head,
                  length-append w.tail d,
                );
            pieces = ap (λ l. l ++ d) w.pieces ∙ append_assoc w.head w.tail d;
            some_head = w.some_head;
          });
        };
        same_size = refl;
        unmoved = refl;
      }

-- ===== src/Bcb/Front.antt =====
-- The piece of a read of byte_circular_buffer.cpp that does not go round.
use mathlib.Core.List.{append_assoc}
use tcp_lib_with_command_par.Prelude.{
  ℕ, zero, suc, ◌-◌, ◌+◌, ◌≤◌, ◌≡◌, refl, sym, ◌∙◌, ap, inl, inr, Bool, List, [], ◌∷◌, ◌++◌,
  Outcome, done, arith, length, length-append, length-take, length-drop, take, drop,
  take-append-drop, ltb, if◌then◌else◌,
}
use tcp_lib_with_command_par.Prelude.Blocks.{memcpy_in-middle, memcpy_out-middle}
use tcp_lib_with_command_par.Bcb.{Bcb, u16, advanced, read_straight}
use tcp_lib_with_command_par.Bcb.Queue.{
  Straight, Wrapped, Holds, Straight-lengths, Wrapped-lengths, nil_or_pos, Holds-le,
}

-- A position past the end of the block, from its start.
abbrev pub around : Bcb → ℕ → ℕ
around bcb at = if ltb at bcb.buffer_size then at else at - bcb.buffer_size

-- The call returns the number of bytes, the block `copied`, and a buffer of the same size that
-- holds the queue and is read on behind the bytes removed.
pub record Reads (bcb : Bcb) (q copied : List ℕ) (n : ℕ) (remove : Bool)
    (out : Outcome (Bcb × List ℕ × ℕ)) : Type 0 where
  pub after : Bcb
  pub returns : out ≡ done (after, copied, n)
  pub holds : Holds after q
  pub same_size : after.buffer_size ≡ bcb.buffer_size
  pub moved : after.rear ≡ (if remove then around bcb (bcb.rear + n) else bcb.rear)

drop-append_le {ℓ} :
    {A : Type ℓ} (n : ℕ) (xs ys : List A) → n ≤ length xs → drop n (xs ++ ys) ≡ drop n xs ++ ys
drop-append_le zero xs ys h = refl
drop-append_le (suc n) [] ys h = elim h [ ]
drop-append_le (suc n) (x ∷ xs) ys h = drop-append_le n xs ys (omega arith)

pub drop-append_ge {ℓ} :
    {A : Type ℓ} (xs ys : List A) (n : ℕ) → drop (length xs + n) (xs ++ ys) ≡ drop n ys
drop-append_ge [] ys n = ap (λ k. drop k ys) (omega arith)
drop-append_ge (x ∷ xs) ys n =
    ap (λ k. drop k (x ∷ (xs ++ ys))) {y = suc (length xs + n)} (omega arith)
    ∙ drop-append_ge xs ys n

-- The buffer without its first `n` bytes, at a new position.
abbrev pub without : Bcb → ℕ → ℕ → Bcb
without bcb at n = record bcb { rear = at; current_size = u16 (bcb.current_size + 65536 - n) }

pub read_piece :
    (bcb : Bcb) (a m c out : List ℕ) (n : ℕ) (remove : Bool)
    → bcb.buffer ≡ a ++ (m ++ c)
    → bcb.rear ≡ length a
    → n ≡ length m
    → n ≤ length out
    → read_straight bcb out n remove
      ≡ done (if remove then without bcb (advanced bcb bcb.rear n) n else bcb, m ++ drop n out, n)
unfolding read_straight
read_piece bcb a m c out n remove block start len room =
    let from = memcpy_out-middle bcb.buffer a m c bcb.rear block start n len in
    let to =
      memcpy_in-middle out [] (take n out) (drop n out) 0 (sym (take-append-drop n out)) refl m
        (omega (arith, len, length-take n out)) in
    rw (from, to) refl

module _ (bcb : Bcb) (q : List ℕ) (n : ℕ) (h : Holds bcb q) (few : n ≤ length q) where
  counted_without : u16 (bcb.current_size + 65536 - n) ≡ length (drop n q)
  counted_without = omega (arith, h.counted, h.small, Holds-le bcb q h, length-drop n q)

  pub remaining : Straight bcb q → Holds (without bcb (advanced bcb bcb.rear n) n) (drop n q)
  remaining s =
      let len = Straight-lengths s in
      record {
        sized = h.sized;
        small = h.small;
        counted = counted_without;
        layout = inl (record {
          before = s.before ++ take n q;
          behind = s.behind;
          block =
              s.block
              ∙ ap (λ l. s.before ++ (l ++ s.behind)) (sym (take-append-drop n q))
              ∙ simp append_assoc;
          start = ground (
            arith,
            s.start,
            s.room,
            h.sized,
            h.small,
            len,
            length-append s.before (take n q),
            length-take n q,
          );
          end =
              omega
                (arith, s.end, length-append s.before (take n q), length-take n q, length-drop n q);
          room = s.room;
        });
      }

  pub head_rest :
      (w : Wrapped bcb q)
      → n ≤ length w.head
      → Holds (without bcb (advanced bcb bcb.rear n) n) (drop n q)
  head_rest w inside =
      let (len, len_q) = Wrapped-lengths w in
      let rest : drop n q ≡ drop n w.head ++ w.tail =
        ap (drop n) w.pieces ∙ drop-append_le n w.head w.tail inside in
      record {
        sized = h.sized;
        small = h.small;
        counted = counted_without;
        layout = elim (nil_or_pos (drop n w.head)) [
          | inl nothing ↦
              let all : n ≡ length w.head =
                omega (arith, ap length nothing, length-drop n w.head) in
              inl (record {
                before = [];
                behind = w.gap ++ w.head;
                block =
                    w.block
                    ∙ ap (λ l. l ++ (w.gap ++ w.head)) (sym (rest ∙ ap (λ l. l ++ w.tail) nothing));
                start = ground (arith, w.start, h.sized, h.small, len);
                end = omega (arith, w.end, ap length (rest ∙ ap (λ l. l ++ w.tail) nothing));
                room = omega (arith, w.some_head, length-append w.gap w.head);
              })
          | inr more ↦ inr (record {
            head = drop n w.head;
            tail = w.tail;
            gap = w.gap ++ take n w.head;
            block =
                w.block
                ∙ ap (λ l. w.tail ++ (w.gap ++ l)) (sym (take-append-drop n w.head))
                ∙ simp append_assoc;
            start = ground (
              arith,
              w.start,
              h.sized,
              h.small,
              len,
              length-append w.gap (take n w.head),
              length-take n w.head,
              length-drop n w.head,
            );
            end = w.end;
            pieces = rest;
            some_head = more;
          })
        ];
      }

  pub tail_rest :
      (w : Wrapped bcb q)
      → length w.head ≤ n
      → Holds (without bcb (u16 (n - length w.head)) n) (drop n q)
  tail_rest w beyond =
      let (len, len_q) = Wrapped-lengths w in
      let k : ℕ = n - length w.head in
      let rest : drop n q ≡ drop k w.tail =
        ap (drop n) w.pieces
        ∙ ap (λ j. drop j (w.head ++ w.tail)) {y = length w.head + k} (omega arith)
        ∙ drop-append_ge w.head w.tail k in
      record {
        sized = h.sized;
        small = h.small;
        counted = counted_without;
        layout = inl (record {
          before = take k w.tail;
          behind = w.gap ++ w.head;
          block =
              w.block
              ∙ ap (λ l. l ++ (w.gap ++ w.head)) (sym (take-append-drop k w.tail))
              ∙ (simp append_assoc)
              ∙ ap (λ l. take k w.tail ++ (l ++ (w.gap ++ w.head))) (sym rest);
          start = omega (arith, h.sized, h.small, len, len_q, length-take k w.tail);
          end =
              omega
                (arith, w.end, len_q, length-take k w.tail, ap length rest, length-drop k w.tail);
          room = omega (arith, w.some_head, length-append w.gap w.head);
        });
      }

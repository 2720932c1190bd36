-- ===== src/Bcb/Read.antt =====
-- `bcb_read` takes bytes from the front of the queue, and copies them out rightly unless they go
-- round the end of the block.
use mathlib.Core.List.{append_assoc}
use tcp_lib_with_command_par.Prelude.{
  ℕ, ◌-◌, ◌+◌, ◌≤◌, ◌≡◌, refl, sym, ◌∙◌, ap, inl, inr, Bool, true, false, List, ◌++◌, Outcome,
  arith, length, length-append, length-take, take, drop, take-append-drop, ltb, leb, if◌then◌else◌,
}
use tcp_lib_with_command_par.Prelude.Memory.{take-append}
use tcp_lib_with_command_par.Bcb.{Bcb, u16, advanced, bcb_read, read_straight}
use tcp_lib_with_command_par.Bcb.Queue.{Holds, Straight-lengths, Wrapped-lengths}
use tcp_lib_with_command_par.Bcb.Front.{Reads, around, head_rest, read_piece, remaining, without}

-- What a read takes off the queue.
abbrev pub left_over : Bool → ℕ → List ℕ → List ℕ
left_over remove n q = if remove then drop n q else q

pub kept_or_removed :
    (bcb removed : Bcb) (q : List ℕ) (n : ℕ) (remove : Bool)
    → Holds bcb q
    → Holds removed (drop n q)
    → Holds (if remove then removed else bcb) (left_over remove n q)
kept_or_removed bcb removed q n true h k = k
kept_or_removed bcb removed q n false h k = h

pub same_size :
    (bcb : Bcb) (at n : ℕ) (remove : Bool)
    → (if remove then without bcb at n else bcb).buffer_size ≡ bcb.buffer_size
same_size bcb at n true = refl
same_size bcb at n false = refl

pub moved_to :
    (bcb : Bcb) (at n : ℕ) (remove : Bool)
    → at ≡ around bcb (bcb.rear + n)
    → (if remove then without bcb at n else bcb).rear
      ≡ (if remove then around bcb (bcb.rear + n) else bcb.rear)
moved_to bcb at n true e = e
moved_to bcb at n false e = refl

-- A read of bytes that do not go round the end of the block copies the first bytes of the queue to
-- the start of `out`, and takes them off the queue if it is to remove them.
pub bcb_read-Reads :
    (bcb : Bcb) (q out : List ℕ) (n : ℕ) (remove : Bool)
    → Holds bcb q
    → n ≤ length q
    → n ≤ length out
    → bcb.rear + n ≤ bcb.buffer_size
    → Reads bcb (left_over remove n q) (take n q ++ drop n out) n remove (bcb_read bcb out n remove)
unfolding bcb_read
bcb_read-Reads bcb q out n remove h few room ahead =
    let held : ltb bcb.current_size n ≡ false = ground (arith, h.counted) in
    let at : ℕ = advanced bcb bcb.rear n in
    elim h.layout [
      | inl s ↦
          let len = Straight-lengths s in
          let piece =
            read_piece bcb s.before (take n q) (drop n q ++ s.behind) out n remove
              (s.block
                ∙ ap (λ l. s.before ++ (l ++ s.behind)) (sym (take-append-drop n q))
                ∙ ap (λ l. s.before ++ l) (append_assoc (take n q) (drop n q) s.behind))
              s.start (omega (arith, length-take n q)) room in
          let leads : leb n (u16 (bcb.buffer_size + 65536 - bcb.rear)) ≡ true =
            ground (arith, h.sized, h.small, len, s.start) in
          record {
            after = if remove then without bcb at n else bcb;
            returns = rw (held, leads) (either (ltb bcb.rear bcb.front) piece);
            holds = kept_or_removed bcb (without bcb at n) q n remove h (remaining bcb q n h few s);
            same_size = same_size bcb at n remove;
            moved = moved_to bcb at n remove (ground (arith, ahead, h.small));
          }
      | inr w ↦
          let (len, len_q) = Wrapped-lengths w in
          let inside : n ≤ length w.head = omega (arith, w.start, h.sized, len) in
          let first : take n w.head ≡ take n q =
            sym (ap (take n) w.pieces ∙ take-append w.head w.tail n inside) in
          let piece =
            read_piece bcb (w.tail ++ w.gap) (take n w.head) (drop n w.head) out n remove
              (w.block
                ∙ sym (append_assoc w.tail w.gap w.head)
                ∙ ap (λ l. (w.tail ++ w.gap) ++ l) (sym (take-append-drop n w.head)))
              (omega (arith, w.start, length-append w.tail w.gap))
              (omega (arith, length-take n w.head)) room in
          let leads : leb n (u16 (bcb.buffer_size + 65536 - bcb.rear)) ≡ true =
            ground (arith, h.sized, h.small, len, w.start) in
          record {
            after = if remove then without bcb at n else bcb;
            returns = rw (held, leads, sym first) (either (ltb bcb.rear bcb.front) piece);
            holds =
                kept_or_removed bcb (without bcb at n) q n remove h
                  (head_rest bcb q n h few w inside);
            same_size = same_size bcb at n remove;
            moved = moved_to bcb at n remove (ground (arith, ahead, h.small));
          }
    ]
  where
    either :
        {x : Outcome (Bcb × List ℕ × ℕ)} (b : Bool)
        → read_straight bcb out n remove ≡ x
        → (if b then read_straight bcb out n remove else read_straight bcb out n remove) ≡ x
    either true e = e
    either false e = e

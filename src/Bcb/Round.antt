-- ===== src/Bcb/Round.antt =====
-- `bcb_read` of bytes that go round the end of the block: the position is right, the copy is not.
use mathlib.Core.List.{append-nil, append_assoc}
use tcp_lib_with_command_par.Prelude.{
  ℕ, ◌-◌, ◌+◌, ◌≤◌, ◌<◌, ◌≡◌, refl, sym, ◌∙◌, ap, inl, inr, Bool, true, false, List, [], ◌++◌, done,
  arith, length, length-append, length-take, length-drop, take, drop, take-append-drop, ltb, leb,
  if◌then◌else◌,
}
use tcp_lib_with_command_par.Prelude.Memory.{take-append_self, drop-append}
use tcp_lib_with_command_par.Prelude.Blocks.{memcpy_in-middle, memcpy_out-middle}
use tcp_lib_with_command_par.Bcb.{Bcb, u16, bcb_read, read_round}
use tcp_lib_with_command_par.Bcb.Queue.{Wrapped, Holds, Straight-lengths, Wrapped-lengths}
use tcp_lib_with_command_par.Bcb.Front.{Reads, without, tail_rest}
use tcp_lib_with_command_par.Bcb.Read.{left_over, kept_or_removed, same_size, moved_to}

-- What the two copies leave in `out`, the second over the first.
abbrev pub misread : ℕ → ℕ → List ℕ → List ℕ → List ℕ
misread lead n q out =
    take (n - lead) (drop lead q) ++ drop (n - lead) (take lead q ++ drop lead out)

pub length-misread :
    (lead n : ℕ) (q out : List ℕ)
    → lead ≤ n
    → n ≤ length q
    → n ≤ length out
    → length (misread lead n q out) ≡ length out
length-misread lead n q out h few room =
    let mem : List ℕ = take lead q ++ drop lead out in
    omega (
      arith,
      length-append (take (n - lead) (drop lead q)) (drop (n - lead) mem),
      length-take (n - lead) (drop lead q),
      length-drop lead q,
      length-drop (n - lead) mem,
      length-append (take lead q) (drop lead out),
      length-take lead q,
      length-drop lead out,
    )

read_pieces :
    (bcb : Bcb) (q out : List ℕ) (n : ℕ) (remove : Bool) (w : Wrapped bcb q)
    → length w.head ≤ n
    → n ≤ length q
    → n ≤ length out
    → read_round bcb out n remove (length w.head)
      ≡ done (
        if remove then without bcb (u16 (n - length w.head)) n else bcb,
        misread (length w.head) n q out,
        n,
      )
unfolding read_round
read_pieces bcb q out n remove w beyond few room =
    let lead : ℕ = length w.head in
    let k : ℕ = n - lead in
    let (len, len_q) = Wrapped-lengths w in
    let first : take lead q ≡ w.head =
      ap (take lead) w.pieces ∙ take-append_self w.head w.tail lead refl in
    let rest : drop lead q ≡ w.tail =
      ap (drop lead) w.pieces ∙ drop-append w.head w.tail lead refl in
    let from1 =
      memcpy_out-middle bcb.buffer (w.tail ++ w.gap) w.head [] bcb.rear
        (w.block
          ∙ sym (append_assoc w.tail w.gap w.head)
          ∙ ap (λ l. (w.tail ++ w.gap) ++ l) (sym (append-nil w.head)))
        (omega (arith, w.start, length-append w.tail w.gap)) lead refl in
    let to1 =
      memcpy_in-middle out [] (take lead out) (drop lead out) 0 (sym (take-append-drop lead out))
        refl w.head (omega (arith, length-take lead out)) in
    let from2 =
      memcpy_out-middle bcb.buffer [] (take k w.tail) (drop k w.tail ++ (w.gap ++ w.head)) 0
        (w.block
          ∙ ap (λ l. l ++ (w.gap ++ w.head)) (sym (take-append-drop k w.tail))
          ∙ append_assoc (take k w.tail) (drop k w.tail) (w.gap ++ w.head))
        refl k (omega (arith, len_q, length-take k w.tail)) in
    let mem : List ℕ = w.head ++ drop lead out in
    let to2 =
      memcpy_in-middle mem [] (take k mem) (drop k mem) 0 (sym (take-append-drop k mem)) refl
        (take k w.tail)
        (omega (
          arith,
          len_q,
          length-take k w.tail,
          length-take k mem,
          length-append w.head (drop lead out),
          length-drop lead out,
        )) in
    rw (from1, to1, from2, to2, first, rest) refl

-- A read that goes round takes the right bytes off the queue, but copies the bytes behind the end of
-- the block over those before it, at the start of `out`.
pub bcb_read-misread :
    (bcb : Bcb) (q out : List ℕ) (n : ℕ) (remove : Bool)
    → Holds bcb q
    → n ≤ length q
    → n ≤ length out
    → bcb.buffer_size < bcb.rear + n
    → Reads bcb
        (left_over remove n q)
        (misread (bcb.buffer_size - bcb.rear) n q out)
        n
        remove
        (bcb_read bcb out n remove)
unfolding bcb_read
bcb_read-misread bcb q out n remove h few room over = elim h.layout [
  | inl s ↦ absurd (omega (arith, h.sized, Straight-lengths s, s.start, s.room))
  | inr w ↦
      let (len, len_q) = Wrapped-lengths w in
      let lead : bcb.buffer_size - bcb.rear ≡ length w.head =
        omega (arith, w.start, h.sized, len) in
      let leading : u16 (bcb.buffer_size + 65536 - bcb.rear) ≡ length w.head =
        omega (arith, w.start, h.sized, h.small, len) in
      let beyond : length w.head ≤ n = omega (arith, lead) in
      let held : ltb bcb.current_size n ≡ false = ground (arith, h.counted) in
      let ahead : ltb bcb.rear bcb.front ≡ false = ground (arith, w.start, w.end) in
      let long : leb n (length w.head) ≡ false = ground (arith, lead) in
      let at : ℕ = u16 (n - length w.head) in
      record {
        after = if remove then without bcb at n else bcb;
        returns =
            rw (lead, held, ahead, leading, long)
              (read_pieces bcb q out n remove w beyond few room);
        holds =
            kept_or_removed bcb (without bcb at n) q n remove h (tail_rest bcb q n h few w beyond);
        same_size = same_size bcb at n remove;
        moved =
            moved_to bcb at n remove
              (ground (arith, over, lead, len, len_q, w.start, h.sized, h.small));
      }
]

-- A read of more bytes than are held returns 0 and changes nothing.
pub bcb_read-refused :
    (bcb : Bcb) (q out : List ℕ) (n : ℕ) (remove : Bool)
    → Holds bcb q
    → length q < n
    → bcb_read bcb out n remove ≡ done (bcb, out, 0)
unfolding bcb_read
bcb_read-refused bcb q out n remove h many =
    let test : ltb bcb.current_size n ≡ true = ground (arith, h.counted) in rw test refl

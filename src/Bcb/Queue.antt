-- ===== src/Bcb/Queue.antt =====
-- A ring buffer holds a queue of bytes.
use mathlib.Core.List.{append-nil}
use tcp_lib_with_command_par.Prelude.{
  ℕ, ◌≤◌, ◌+◌, ◌<◌, ◌≡◌, refl, sym, ◌∙◌, ◌∷◌, ◌⊎◌, inl, inr, if◌then◌else◌, ◌==◌, List, [], ◌++◌,
  arith, length, length-append, ap,
}
use tcp_lib_with_command_par.Prelude.Memory.{uninit, length-uninit}
use tcp_lib_with_command_par.Bcb.{Bcb, new_bcb}

-- The bytes stand in one piece that ends before the end of the block.
pub record Straight (bcb : Bcb) (q : List ℕ) : Type 0 where
  pub before : List ℕ
  pub behind : List ℕ
  pub block : bcb.buffer ≡ before ++ (q ++ behind)
  pub start : bcb.rear ≡ length before
  pub end : bcb.front ≡ length before + length q
  pub room : 0 < length behind

-- The bytes go up to the end of the block, and the rest of them stand at its start.
pub record Wrapped (bcb : Bcb) (q : List ℕ) : Type 0 where
  pub head : List ℕ
  pub tail : List ℕ
  pub gap : List ℕ
  pub block : bcb.buffer ≡ tail ++ (gap ++ head)
  pub start : bcb.rear ≡ length tail + length gap
  pub end : bcb.front ≡ length tail
  pub pieces : q ≡ head ++ tail
  pub some_head : 0 < length head

pub record Holds (bcb : Bcb) (q : List ℕ) : Type 0 where
  pub sized : length bcb.buffer ≡ bcb.buffer_size
  pub small : bcb.buffer_size < 65536
  pub counted : bcb.current_size ≡ length q
  pub layout : Straight bcb q ⊎ Wrapped bcb q

-- The lengths that the arithmetic of the code is about.
pub Straight-lengths :
    {bcb : Bcb} {q : List ℕ}
    → (s : Straight bcb q) → length bcb.buffer ≡ length s.before + length q + length s.behind
Straight-lengths {bcb} {q} s =
    omega
      (arith, ap length s.block, length-append s.before (q ++ s.behind), length-append q s.behind)

pub Wrapped-lengths :
    {bcb : Bcb} {q : List ℕ}
    → (w : Wrapped bcb q)
    → (length bcb.buffer ≡ length w.tail + length w.gap + length w.head)
      × (length q ≡ length w.head + length w.tail)
Wrapped-lengths {bcb} {q} w = (
  omega (
    arith,
    ap length w.block,
    length-append w.tail (w.gap ++ w.head),
    length-append w.gap w.head,
  ),
  omega (arith, ap length w.pieces, length-append w.head w.tail),
)

pub new_bcb-Holds :
    (junk : ℕ → ℕ) (size : ℕ) → 0 < size → size < 65536 → Holds (new_bcb junk size) []
unfolding new_bcb
new_bcb-Holds junk size h k = record {
  sized = length-uninit junk 0 size;
  small = k;
  counted = refl;
  layout = inl (record {
    before = [];
    behind = uninit junk 0 size;
    block = refl;
    start = refl;
    end = omega arith;
    room = omega (arith, length-uninit junk 0 size);
  });
}

pub nil_or_pos : (l : List ℕ) → (l ≡ []) ⊎ (0 < length l)
nil_or_pos [] = inl refl
nil_or_pos (x ∷ l) = inr (omega arith)

-- Bytes in one piece, which may end at the end of the block.
pub laid_out :
    (bcb : Bcb) (before q behind : List ℕ)
    → bcb.buffer ≡ before ++ (q ++ behind)
    → bcb.rear ≡ length before
    → length before < length bcb.buffer
    → bcb.front
      ≡ (if length before + length q == length bcb.buffer then 0 else length before + length q)
    → Straight bcb q ⊎ Wrapped bcb q
laid_out bcb before q behind block start inside end =
    let len : length bcb.buffer ≡ length before + length q + length behind =
      omega (arith, ap length block, length-append before (q ++ behind), length-append q behind) in
    elim (nil_or_pos behind) [
      | inr more ↦ inl (record {
        before = before;
        behind = behind;
        block = block;
        start = start;
        end = ground (arith, len);
        room = more;
      })
      | inl nothing ↦
          let none_left : length behind ≡ 0 = ap length nothing in
          inr (record {
            head = q;
            tail = [];
            gap = before;
            block =
                block ∙ ap (λ l. before ++ (q ++ l)) nothing ∙ ap (λ l. before ++ l) (append-nil q);
            start = omega (arith, start);
            end = ground (arith, len, none_left);
            pieces = sym (append-nil q);
            some_head = omega (arith, len, none_left);
          })
    ]

pub Holds-le : (bcb : Bcb) (q : List ℕ) → Holds bcb q → length q ≤ bcb.buffer_size
Holds-le bcb q h = elim h.layout [
  | inl s ↦ omega (arith, h.sized, Straight-lengths s)
  | inr w ↦ omega (arith, h.sized, Wrapped-lengths w)
]

pub rear-lt : (bcb : Bcb) (q : List ℕ) → Holds bcb q → bcb.rear < bcb.buffer_size
rear-lt bcb q h = elim h.layout [
  | inl s ↦ omega (arith, h.sized, Straight-lengths s, s.start, s.room)
  | inr w ↦ omega (arith, h.sized, Wrapped-lengths w, w.start, w.some_head)
]

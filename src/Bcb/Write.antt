-- ===== src/Bcb/Write.antt =====
-- `bcb_write` puts bytes at the end of the queue.
use tcp_lib_with_command_par.Prelude.{
  ℕ, ◌-◌, ◌+◌, ◌≤◌, ◌<◌, ◌≡◌, refl, ap, ◌⊎◌, inl, inr, true, false, List, ◌++◌, done, arith, length,
  length-append, ltb, leb, ◌==◌, Bool-cases, leb→le,
}
use tcp_lib_with_command_par.Prelude.Blocks.{Split, blocks_at}
use tcp_lib_with_command_par.Bcb.{Bcb, u16, bcb_write, bcb_is_full, bcb_available_size}
use tcp_lib_with_command_par.Bcb.Queue.{Holds, Straight-lengths, Wrapped-lengths, Holds-le}
use tcp_lib_with_command_par.Bcb.Pieces.{Writes, filled, gap_filled, gone_round}

-- A write that fits into a buffer that is not full puts the bytes at the end of the queue.
pub bcb_write-Writes :
    (bcb : Bcb) (q d extra : List ℕ)
    → Holds bcb q
    → length q < bcb.buffer_size
    → length q + length d ≤ bcb.buffer_size
    → Writes bcb (q ++ d) (length d) (bcb_write bcb (d ++ extra) (length d))
unfolding bcb_write bcb_is_full bcb_available_size
bcb_write-Writes bcb q d extra h free fit =
    let vacant : (bcb.buffer_size == bcb.current_size) ≡ false = ground (arith, h.counted) in
    let enough : ltb (u16 (bcb.buffer_size + 65536 - bcb.current_size)) (length d) ≡ false =
      ground (arith, h.counted, h.small) in
    elim h.layout [
      | inl s ↦
          let len = Straight-lengths s in
          let ahead : ltb bcb.front bcb.rear ≡ false = ground (arith, s.end, s.start) in
          let leading : u16 (bcb.buffer_size + 65536 - bcb.front) ≡ length s.behind =
            omega (arith, h.sized, h.small, len, s.end) in
          elim (Bool-cases (leb (length d) (length s.behind))) [
            | inl short ↦
                rw (vacant, enough, ahead, leading, short)
                  (filled bcb q d extra h s (leb→le (length d) (length s.behind) short)
                    (blocks_at (length d) s.behind (leb→le (length d) (length s.behind) short)))
            | inr long ↦
                let over : length s.behind < length d = ground arith in
                let p : Split (length s.behind) d = blocks_at (length s.behind) d (omega arith) in
                rw (vacant, enough, ahead, leading, long)
                  (gone_round bcb q d extra h s p.first p.second p.whole p.sized (
                    blocks_at (length p.second) s.before (
                      omega (
                        arith,
                        ap length p.whole,
                        length-append p.first p.second,
                        p.sized,
                        h.sized,
                        len,
                      ))))
          ]
      | inr w ↦
          let (len, len_q) = Wrapped-lengths w in
          let below : ltb bcb.front bcb.rear ≡ true =
            ground (arith, w.end, w.start, h.sized, len, len_q) in
          rw (vacant, enough, below)
            (gap_filled bcb q d extra h w
              (blocks_at (length d) w.gap (omega (arith, h.sized, len, len_q))))
    ]

-- A write to a full buffer, or of more bytes than are free, returns 0 and changes nothing.
pub bcb_write-refused :
    (bcb : Bcb) (q input : List ℕ) (n : ℕ)
    → Holds bcb q
    → (length q ≡ bcb.buffer_size) ⊎ (bcb.buffer_size < length q + n)
    → bcb_write bcb input n ≡ done (bcb, 0)
unfolding bcb_write bcb_is_full bcb_available_size
bcb_write-refused bcb q input n h (inl full) =
    let test : (bcb.buffer_size == bcb.current_size) ≡ true = ground (arith, h.counted) in
    rw test refl
bcb_write-refused bcb q input n h (inr many) =
    elim (Bool-cases (bcb.buffer_size == bcb.current_size)) [
      | inl full ↦ rw full refl
      | inr vacant ↦
          let within : length q ≤ bcb.buffer_size = Holds-le bcb q h in
          let test : ltb (u16 (bcb.buffer_size + 65536 - bcb.current_size)) n ≡ true =
            ground (arith, h.counted, h.small) in
          rw (vacant, test) refl
    ]

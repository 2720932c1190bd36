-- ===== src/SerBuf/Cursor.antt =====
-- The write position and the checkpoint: marking, restoring, skipping, truncating.
use tcp_lib_with_command_par.Prelude.{
  ℕ, suc, ◌+◌, ◌-◌, ◌*◌, ◌≤◌, ◌<◌, ◌≡◌, refl, done, out_of_fuel, sym, pos, negsuc, arith, ◌∙◌, ap,
  List, length, take, length-take, leb, ◌==◌, Bool-cases, inl, inr, replicate, length-replicate,
}
use tcp_lib_with_command_par.Prelude.Memory.{
  take-append_self, take-realloc, realloc, length-realloc, take-take, splice, length-splice,
  take-splice, memcpy_in-done, memcpy_out-done,
}
use tcp_lib_with_command_par.SerBuf.{
  SerBuff, int_limit, serialize_string, grow, short_unsigned, mark_checkpoint_serialize_buffer,
  restore_checkpoint_serialize_buffer, reset_serialize_buffer, serialize_buffer_skip,
  truncate_serialize_buffer, init_serialized_buffer_of_defined_size, short_signed,
}
use tcp_lib_with_command_par.SerBuf.Grow.{grow-zero, grow-Grows, short_signed-Tests}
use tcp_lib_with_command_par.SerBuf.Append.{IsValid, contents, serialize_string-Appends}

pub mark-IsValid : (buf : SerBuff) → IsValid buf → IsValid (mark_checkpoint_serialize_buffer buf)
unfolding mark_checkpoint_serialize_buffer
mark-IsValid buf v = omega arith

pub restore-IsValid :
    (buf : SerBuff) → IsValid buf → IsValid (restore_checkpoint_serialize_buffer buf)
unfolding restore_checkpoint_serialize_buffer
restore-IsValid buf v = omega arith

pub reset-IsValid : (buf : SerBuff) → IsValid buf → IsValid (reset_serialize_buffer buf)
unfolding reset_serialize_buffer
reset-IsValid buf v = omega arith

-- On a valid buffer, marking it, writing bytes with which it holds at most 2 ^ 30, and restoring it gives
-- back a valid buffer with the contents that were marked.
pub restore-serialize_string-mark :
    (junk : ℕ → ℕ) (buf : SerBuff) (bytes : List ℕ)
    → IsValid buf
    → (buf.next + length bytes) * 2 ≤ int_limit
    → (after : SerBuff) × (serialize_string junk (mark_checkpoint_serialize_buffer buf) bytes
        ≡ done after)
      × (contents (restore_checkpoint_serialize_buffer after) ≡ contents buf)
      × IsValid (restore_checkpoint_serialize_buffer after)
unfolding mark_checkpoint_serialize_buffer restore_checkpoint_serialize_buffer
restore-serialize_string-mark junk buf bytes v fits =
    let a =
      serialize_string-Appends junk (record buf { checkpoint = buf.next }) bytes (omega arith)
        fits in
    (
      a.after,
      a.returns,
      ap (λ n. take n a.after.b) a.unmoved
          ∙ sym (take-take buf.next a.after.next a.after.b (omega (arith, a.advanced)))
          ∙ ap (take buf.next) a.appended
          ∙ take-append_self (contents buf) bytes buf.next
              (omega (arith, length-take buf.next buf.b)),
      omega (arith, a.valid, a.unmoved),
    )

-- Skipping forward keeps what was written, and the buffer has room for the bytes skipped.
pub skip-forward :
    (junk : ℕ → ℕ) (buf : SerBuff) (n : ℕ)
    → IsValid buf
    → (buf.next + n) * 2 ≤ int_limit
    → (after : SerBuff) × (serialize_buffer_skip junk buf (pos n) ≡ done after)
      × IsValid after
      × (after.next ≡ buf.next + n)
      × (take buf.next after.b ≡ contents buf)
unfolding serialize_buffer_skip
skip-forward junk buf n v fits = elim (Bool-cases (leb (buf.next + n) buf.size)) [
  | inl room ↦ (record buf { next = buf.next + n }, rw room, ground arith, refl, refl)
  | inr short ↦
      let g =
        grow-Grows (short_signed-Tests buf.next n) fits buf.size v.nonempty v.fits v.in_range in
      (
        record buf { b = realloc junk buf.b g.size; size = g.size; next = buf.next + n },
        rw (short, g.returns),
        omega (arith, length-realloc junk buf.b g.size, g.enough, g.grown, g.in_range),
        refl,
        take-realloc junk buf.b g.size buf.next (omega arith) (omega (arith, g.grown)),
      )
]

-- Skipping back drops the last bytes that were written, if there are so many.
pub skip-back :
    (junk : ℕ → ℕ) (buf : SerBuff) (n : ℕ)
    → IsValid buf
    → n < buf.next
    → (after : SerBuff) × (serialize_buffer_skip junk buf (negsuc n) ≡ done after)
      × IsValid after
      × (contents after ≡ take (buf.next - suc n) (contents buf))
unfolding serialize_buffer_skip
skip-back junk buf n v h = (
  record buf { next = buf.next - (n + 1) },
  ground arith,
  omega arith,
  ap (λ k. take k buf.b) (omega arith)
      ∙ sym (take-take (buf.next - suc n) buf.next buf.b (omega arith)),
)

-- Truncation keeps the contents and gives back what lies behind them.
pub truncate-contents :
    (buf : SerBuff)
    → IsValid buf
    → (after : SerBuff) × (truncate_serialize_buffer buf ≡ done after)
      × (contents after ≡ contents buf)
      × (after.next ≡ buf.next)
      × (after.size ≡ buf.next)
      × (length after.b ≡ buf.next)
unfolding truncate_serialize_buffer init_serialized_buffer_of_defined_size
truncate-contents buf v = elim (Bool-cases (buf.next == buf.size)) [
  | inl full ↦
      let e : buf.next ≡ buf.size = ground arith in
      (buf, rw full, refl, refl, sym e, v.block ∙ sym e)
  | inr slack ↦
      let bytes : List ℕ = take buf.next buf.b in
      let n : length bytes ≡ buf.next =
        omega (arith, length-take buf.next buf.b, v.fits, v.block) in
      let zeros : List ℕ = replicate buf.next 0 in
      let room : 0 + length bytes ≤ length zeros =
        omega (arith, n, length-replicate {0} {A = ℕ} buf.next 0) in
      let e : 0 + length bytes ≡ buf.next = omega (arith, n) in
      (
        record { b = splice zeros 0 bytes; size = buf.next; next = buf.next; checkpoint = 0 },
        rw (
          slack,
          memcpy_out-done buf.b 0 buf.next (omega (arith, v.fits, v.block)),
          memcpy_in-done zeros 0 bytes room,
        ),
        ap (λ k. take k (splice zeros 0 bytes)) (sym e) ∙ take-splice zeros 0 bytes (omega arith),
        refl,
        refl,
        length-splice zeros 0 bytes room ∙ length-replicate {0} {A = ℕ} buf.next 0,
      )
]

-- Truncating a buffer that is empty leaves one of size 0, and then no fuel suffices for the loop of
-- the next `serialize_*` call.
pub truncate_empty_diverges :
    (junk : ℕ → ℕ) (buf : SerBuff) (n fuel : ℕ)
    → IsValid buf
    → buf.next ≡ 0
    → 0 < n
    → (after : SerBuff) × (truncate_serialize_buffer buf ≡ done after)
      × (grow (short_signed after.next n) fuel after.size ≡ out_of_fuel)
      × (grow (short_unsigned after.next n) fuel after.size ≡ out_of_fuel)
unfolding short_signed short_unsigned
truncate_empty_diverges junk buf n fuel v e h =
    let (after, returns, _, next, size, _) = truncate-contents buf v in
    let empty : after.size ≡ 0 = omega arith in
    (
      after,
      returns,
      rw empty (grow-zero (short_signed after.next n) fuel (ground arith)),
      rw empty (grow-zero (short_unsigned after.next n) fuel (ground arith)),
    )

-- ===== src/Demarcar/Sizes.antt =====
-- Rings of whole messages, for tcp_msg_fixed_size_demarcar.cpp.
use native.Mathlib.Nat.{mul-suc, mul-le-mul_left, lt_of_mul-lt-mul_left, div-eq-sub-div}
use tcp_lib_with_command_par.Prelude.{
  dec_lt, ℕ, suc, ◌+◌, ◌*◌, ◌/◌, ◌≤◌, ◌<◌, ◌≡◌, ◌∙◌, ap, inl, inr, false, Bool-cases, ltb, List, [],
  ◌∷◌, ◌++◌, arith, length, take,
}
use tcp_lib_with_command_par.Bcb.{Bcb}
use tcp_lib_with_command_par.Bcb.Queue.{Holds, rear-lt}
use tcp_lib_with_command_par.Bcb.Front.{around}
use tcp_lib_with_command_par.Demarcar.{Demarcar, Delivery, fixed_size}

-- The bytes of a call.
abbrev pub payload : Delivery → List ℕ
payload v = take v.size v.block

-- The bytes `q` are messages of `m` bytes and then fewer bytes than a message.
abbrev pub Frames : ℕ → List ℕ → List (List ℕ) → List ℕ → Type 0
Frames m q [] rest = (q ≡ rest) × (length rest < m)
Frames m q (f ∷ fs) rest =
    (behind : List ℕ) × (length f ≡ m) × (q ≡ f ++ behind) × Frames m behind fs rest

-- The next read and the end of the ring are whole messages away from its start.
pub record Aligned (m : ℕ) (bcb : Bcb) : Type 0 where
  pub at : ℕ
  pub count : ℕ
  pub read_at : bcb.rear ≡ m * at
  pub size_of : bcb.buffer_size ≡ m * count

-- A demarcar for messages of `m` bytes whose ring holds `q`.
pub record Framed (m : ℕ) (d : Demarcar) (q : List ℕ) : Type 0 where
  pub kind : d.framing ≡ fixed_size m
  pub positive : 0 < m
  pub room : m ≤ length d.buffer
  pub holds : Holds d.bcb q
  pub aligned : Aligned m d.bcb

mul-step : (m j k : ℕ) → m * j < m * k → m * j + m ≤ m * k
mul-step m j k h =
    let next : m * suc j ≤ m * k = mul-le-mul_left m (lt_of_mul-lt-mul_left m h) in
    omega (arith, next, mul-suc m j)

pub lt_of_div : (n m : ℕ) → 0 < m → ltb 0 (n / m) ≡ false → n < m
lt_of_div n m h e = elim (dec_lt n m) [
  | yes p ↦ p
  | no p ↦ absurd (ground (arith, div-eq-sub-div {m = m} {n = n} h (omega arith)))
]

pub next_read :
    (m : ℕ) (d : Demarcar) (q : List ℕ) → Framed m d q → d.bcb.rear + m ≤ d.bcb.buffer_size
next_read m d q f = omega (
  arith,
  f.aligned.read_at,
  f.aligned.size_of,
  rear-lt d.bcb q f.holds,
  mul-step m f.aligned.at f.aligned.count
      (omega (arith, f.aligned.read_at, f.aligned.size_of, rear-lt d.bcb q f.holds)),
)

pub next-Aligned :
    (m : ℕ) (bcb after : Bcb)
    → Aligned m bcb
    → after.buffer_size ≡ bcb.buffer_size
    → after.rear ≡ around bcb (bcb.rear + m)
    → bcb.rear + m ≤ bcb.buffer_size
    → Aligned m after
next-Aligned m bcb after a same moved room =
    elim (Bool-cases (ltb (bcb.rear + m) bcb.buffer_size)) [
      | inl below ↦ record {
        at = a.at + 1;
        count = a.count;
        read_at = moved ∙ rw below (ap (λ n. n + m) a.read_at ∙ grind arith);
        size_of = same ∙ a.size_of;
      }
      | inr end ↦ record {
        at = 0;
        count = a.count;
        read_at = moved ∙ rw end (ground arith);
        size_of = same ∙ a.size_of;
      }
    ]

-- ===== src/Bcb/Refine.antt =====
-- Any sequence of calls, against a bounded queue of bytes.
use mathlib.Core.List.{append-nil}
use tcp_lib_with_command_par.Prelude.{
  zero, suc, ◌-◌, take, ℕ, ◌+◌, ◌≤◌, ◌<◌, ◌≡◌, refl, ◌∙◌, ap, inl, inr, true, Bool-cases, ltb, leb,
  leb→le, ◌||◌, ◌==◌, List, [], ◌∷◌, ◌++◌, Outcome, done, ◌>>=◌, arith, length, drop, replicate,
  length-replicate, if◌then◌else◌,
}
use tcp_lib_with_command_par.Bcb.{Bcb, bcb_write, bcb_read}
use tcp_lib_with_command_par.Bcb.Queue.{Holds, Holds-le}
use tcp_lib_with_command_par.Bcb.Write.{bcb_write-Writes, bcb_write-refused}
use tcp_lib_with_command_par.Bcb.Read.{bcb_read-Reads}
use tcp_lib_with_command_par.Bcb.Round.{misread, bcb_read-misread, bcb_read-refused}

-- A call: a write of some bytes, or a read that removes some number of them.
pub data Call : Type 0 where
  write : List ℕ → Call
  read : ℕ → Call

-- The call on the ring, with the block that a read copies into, and the number that it returns.
abbrev pub call : Bcb → Call → Outcome (Bcb × List ℕ × ℕ)
call bcb (write d) = do w ← bcb_write bcb d (length d); done (w.0, [], w.1)
call bcb (read n) = bcb_read bcb (replicate n 0) n true

-- A queue of bytes, and where in the ring the first of them is.
pub record Queue : Type 0 where
  pub held : List ℕ
  pub at : ℕ

-- The bytes that a read delivers: the first ones, or, if they go round the end of the ring, the
-- bytes behind the end over those before it.
abbrev pub delivered : ℕ → Queue → ℕ → List ℕ
delivered cap q n =
    if leb (q.at + n) cap then take n q.held else misread (cap - q.at) n q.held (replicate n 0)

-- The call on a queue with room for `cap` bytes; one that is refused returns 0 and changes nothing.
abbrev pub queue_call : ℕ → Queue → Call → Queue × List ℕ × ℕ
queue_call cap q (write d) =
    if length q.held == cap || ltb cap (length q.held + length d)
    then (q, [], 0)
    else (record q { held = q.held ++ d }, [], length d)
queue_call cap q (read n) = if ltb (length q.held) n then (q, replicate n 0, 0) else (
  record { held = drop n q.held; at = if ltb (q.at + n) cap then q.at + n else q.at + n - cap },
  delivered cap q n,
  n,
)

-- The ring holds the bytes of the queue, from its position on.
pub record IsQueue (cap : ℕ) (bcb : Bcb) (q : Queue) : Type 0 where
  pub holds : Holds bcb q.held
  pub placed : bcb.rear ≡ q.at
  pub sized : bcb.buffer_size ≡ cap

pub record Follows (cap : ℕ) (spec : Queue × List ℕ × ℕ) (out : Outcome (Bcb × List ℕ × ℕ))
    : Type 0 where
  pub after : Bcb
  pub returns : out ≡ done (after, spec.1, spec.2)
  pub queued : IsQueue cap after spec.0

drop-replicate : (n : ℕ) → drop n (replicate {0} {A = ℕ} n 0) ≡ []
drop-replicate zero = refl
drop-replicate (suc n) = drop-replicate n

module _ (cap : ℕ) (bcb : Bcb) (q : Queue) (k : IsQueue cap bcb q) where
  read-Follows :
      (n : ℕ)
      → n ≤ length q.held
      → Follows cap
          (
            record {
              held = drop n q.held;
              at = if ltb (q.at + n) cap then q.at + n else q.at + n - cap;
            },
            delivered cap q n,
            n,
          )
          (call bcb (read n))
  read-Follows n few =
      let room : n ≤ length (replicate {0} {A = ℕ} n 0) =
        omega (arith, length-replicate {0} {A = ℕ} n 0) in
      elim (Bool-cases (leb (q.at + n) cap)) [
        | inl ahead ↦
            let r =
              bcb_read-Reads bcb q.held (replicate n 0) n true k.holds few room
                (rw (k.placed, k.sized) (leb→le (q.at + n) cap ahead)) in
            rw ahead (record {
              after = r.after;
              returns = r.returns ∙ rw (drop-replicate n, append-nil (take n q.held)) refl;
              queued = record {
                holds = r.holds;
                placed = r.moved ∙ rw (k.placed, k.sized) refl;
                sized = r.same_size ∙ k.sized;
              };
            })
        | inr over ↦
            let r =
              bcb_read-misread bcb q.held (replicate n 0) n true k.holds few room
                (rw (k.placed, k.sized) (ground arith)) in
            rw over (record {
              after = r.after;
              returns = r.returns ∙ rw (k.placed, k.sized) refl;
              queued = record {
                holds = r.holds;
                placed = r.moved ∙ rw (k.placed, k.sized) refl;
                sized = r.same_size ∙ k.sized;
              };
            })
      ]

  write-Follows :
      (d : List ℕ)
      → length q.held < cap
      → length q.held + length d ≤ cap
      → Follows cap (record q { held = q.held ++ d }, [], length d) (call bcb (write d))
  write-Follows d free fit =
      let w =
        bcb_write-Writes bcb q.held d [] k.holds (omega (arith, k.sized))
          (omega (arith, k.sized)) in
      let returns : bcb_write bcb d (length d) ≡ done (w.after, length d) =
        ap (λ l. bcb_write bcb l (length d)) {x = d} (rw append-nil refl) ∙ w.returns in
      record {
        after = w.after;
        returns = rw returns refl;
        queued = record {
          holds = w.holds;
          placed = w.unmoved ∙ k.placed;
          sized = w.same_size ∙ k.sized;
        };
      }

  refused-Follows :
      (d : List ℕ)
      → bcb_write bcb d (length d) ≡ done (bcb, 0)
      → Follows cap (q, [], 0) (call bcb (write d))
  refused-Follows d e = record { after = bcb; returns = rw e refl; queued = k }

  pub call-Follows : (c : Call) → Follows cap (queue_call cap q c) (call bcb c)
  call-Follows (read n) = elim (Bool-cases (ltb (length q.held) n)) [
    | inl many ↦ rw many (record {
      after = bcb;
      returns = bcb_read-refused bcb q.held (replicate n 0) n true k.holds (ground arith);
      queued = k;
    })
    | inr few ↦ rw few (read-Follows n (ground arith))
  ]
  call-Follows (write d) =
      let within : length q.held ≤ cap = omega (arith, Holds-le bcb q.held k.holds, k.sized) in
      elim (Bool-cases (length q.held == cap)) [
        | inl full ↦ rw full (
            refused-Follows d
              (bcb_write-refused bcb q.held d (length d) k.holds (inl (ground (arith, k.sized)))))
        | inr vacant ↦ elim (Bool-cases (ltb cap (length q.held + length d))) [
          | inl many ↦
              rw (vacant, many)
                (refused-Follows d (
                  bcb_write-refused bcb q.held d (length d) k.holds
                    (inr (ground (arith, k.sized)))))
          | inr fit ↦ rw (vacant, fit) (write-Follows d (ground (arith, within)) (ground arith))
        ]
      ]

abbrev pub calls : Bcb → List Call → Outcome (Bcb × List (List ℕ × ℕ))
calls bcb [] = done (bcb, [])
calls bcb (c ∷ cs) = do r ← call bcb c; rest ← calls r.0 cs; done (rest.0, (r.1, r.2) ∷ rest.1)

abbrev pub queue_calls : ℕ → Queue → List Call → Queue × List (List ℕ × ℕ)
queue_calls cap q [] = (q, [])
queue_calls cap q (c ∷ cs) =
    let r = queue_call cap q c in let rest = queue_calls cap r.0 cs in (rest.0, (r.1, r.2) ∷ rest.1)

-- On a ring that holds the bytes of a queue, a sequence of writes and of reads that remove what they
-- read returns what the bounded queue returns, the bytes delivered by each read included: those at the
-- front of the queue, or, for a read that goes round the end of the ring, the bytes behind the end
-- copied over those before it. The ring then holds the bytes that the queue does.
pub calls_refine :
    (cap : ℕ) (cs : List Call) (bcb : Bcb) (q : Queue)
    → IsQueue cap bcb q
    → (after : Bcb) × (calls bcb cs ≡ done (after, (queue_calls cap q cs).1))
      × IsQueue cap after (queue_calls cap q cs).0
calls_refine cap [] bcb q k = (bcb, refl, k)
calls_refine cap (c ∷ cs) bcb q k =
    let f = call-Follows cap bcb q k c in
    let (after, returns, queued) = calls_refine cap cs f.after (queue_call cap q c).0 f.queued in
    (after, rw (f.returns, returns) refl, queued)

-- ===== src/Demarcar/Stream.antt =====
-- A stream that arrives in segments, through a demarcar for messages of a fixed size.
use mathlib.Core.List.{append_assoc, append-nil, map-append}
use tcp_lib_with_command_par.Prelude.{
  ℕ, ◌+◌, ◌≤◌, ◌<◌, ◌≡◌, refl, sym, ◌∙◌, ap, subst, List, [], ◌∷◌, ◌++◌, map, Outcome, done, ◌>>=◌,
  arith, length,
}
use tcp_lib_with_command_par.Demarcar.{Demarcar, Delivery, process_msg}
use tcp_lib_with_command_par.Demarcar.Sizes.{Frames, Framed, payload}
use tcp_lib_with_command_par.Demarcar.Fixed.{Delivers, process_msg-Delivers}

-- The segments one after another, as `recvfrom` returns them.
abbrev pub process_all : Demarcar → List (List ℕ) → Outcome (Demarcar × List Delivery)
process_all d [] = done (d, [])
process_all d (segment ∷ segments) = do
  r ← process_msg d segment (length segment)
  rest ← process_all r.0 segments
  done (rest.0, r.1 ++ rest.1)

abbrev pub joined : List (List ℕ) → List ℕ
joined [] = []
joined (segment ∷ segments) = segment ++ joined segments

-- No segment is empty, and each fits behind less than one message.
abbrev pub AllFit : ℕ → ℕ → List (List ℕ) → Type 0
AllFit m size [] = Unit
AllFit m size (segment ∷ segments) =
    (0 < length segment) × (m + length segment ≤ size) × AllFit m size segments

Frames-append :
    (m : ℕ) (q s rest end : List ℕ) (fs gs : List (List ℕ))
    → Frames m q fs rest
    → Frames m (rest ++ s) gs end
    → Frames m (q ++ s) (fs ++ gs) end
Frames-append m q s rest end [] gs h k = subst (λ l. Frames m (l ++ s) gs end) (sym h.0) k
Frames-append m q s rest end (f ∷ fs) gs (behind, len, e, h) k = (
  behind ++ s,
  len,
  ap (λ l. l ++ s) e ∙ append_assoc f behind s,
  Frames-append m behind s rest end fs gs h k,
)

Frames-short : (m : ℕ) (q rest : List ℕ) (fs : List (List ℕ)) → Frames m q fs rest → length rest < m
Frames-short m q rest [] h = h.1
Frames-short m q rest (f ∷ fs) (behind, len, e, h) = Frames-short m behind rest fs h

-- For messages of `m` bytes that fit the buffer of the demarcar, on a ring whose size and position of
-- reading `m` divides and which holds fewer than `m` bytes: however a stream is cut into segments, none
-- empty and each fitting the ring together with `m` bytes, every segment is processed, the messages that
-- are handed on are the consecutive pieces of `m` bytes of what was held and the stream, and fewer than
-- `m` bytes are held at the end.
pub process_all-Frames :
    (m : ℕ) (d : Demarcar) (q : List ℕ) (segments : List (List ℕ))
    → Framed m d q
    → length q < m
    → AllFit m d.bcb.buffer_size segments
    → Delivers d m (q ++ joined segments) (process_all d segments)
process_all-Frames m d q [] f few fit = record {
  after = d;
  deliveries = [];
  rest = q;
  returns = refl;
  frames = (append-nil q, few);
  framed = f;
  same_size = refl;
}
process_all-Frames m d q (s ∷ ss) f few (some_bytes, room, fit) =
    let p = process_msg-Delivers m d q s [] f some_bytes (omega arith) in
    let short : length p.rest < m =
      Frames-short m (q ++ s) p.rest (map payload p.deliveries) p.frames in
    let g =
      process_all-Frames m p.after p.rest ss p.framed short
        (subst (λ n. AllFit m n ss) (sym p.same_size) fit) in
    let first : process_msg d s (length s) ≡ done (p.after, p.deliveries) =
      ap (λ l. process_msg d l (length s)) (sym (append-nil s)) ∙ p.returns in
    record {
      after = g.after;
      deliveries = p.deliveries ++ g.deliveries;
      rest = g.rest;
      returns = rw (first, g.returns) refl;
      frames =
          subst (λ l. Frames m l (map payload (p.deliveries ++ g.deliveries)) g.rest)
            (append_assoc q s (joined ss))
            (subst (λ fs. Frames m ((q ++ s) ++ joined ss) fs g.rest)
              (sym (map-append payload p.deliveries g.deliveries))
              (Frames-append m (q ++ s) (joined ss) p.rest g.rest (map payload p.deliveries)
                (map payload g.deliveries) p.frames g.frames));
      framed = g.framed;
      same_size = g.same_size ∙ p.same_size;
    }

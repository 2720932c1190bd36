-- ===== src/Server/Closed.antt =====
-- A connection that its client has closed, with a demarcation of messages: the assertion of
-- tcp_msg_demarcar.cpp in the loop of tcp_client_service_manager.cpp.
use mathlib.Core.Path.{fun_ext}
use tcp_lib_with_command_par.Prelude.{
  ℕ, ◌≡◌, refl, sym, ap, ◌∙◌, inl, inr, Bool, true, false, Bool-cases, some, List, [], ◌∷◌, ◌++◌,
  done, aborted, ◌>>=◌, arith, ltb, ◌==◌, if◌then◌else◌, length,
}
use tcp_lib_with_command_par.Bcb.Queue.{Holds, Holds-le}
use tcp_lib_with_command_par.Bcb.Write.{bcb_write-Writes, bcb_write-refused}
use tcp_lib_with_command_par.Demarcar.{Demarcar, process_msg}
use tcp_lib_with_command_par.Server.{Client, Clients}
use tcp_lib_with_command_par.Server.Loop.{
  Received, bytes, client_recv_buffer, serve_client, serve_clients,
}

process_msg_nothing :
    (d : Demarcar) (q msg : List ℕ) → Holds d.bcb q → process_msg d msg 0 ≡ aborted
unfolding process_msg
process_msg_nothing d q msg h = elim (Bool-cases (ltb (length q) d.bcb.buffer_size)) [
  | inl free ↦
      let w =
        bcb_write-Writes d.bcb q [] msg h (ground arith) (ground (arith, Holds-le d.bcb q h)) in
      rw w.returns refl
  | inr full ↦
      rw (bcb_write-refused d.bcb q msg 0 h (inl (ground (arith, Holds-le d.bcb q h)))) refl
]

-- The clients of a list are alive and not ready.
abbrev pub Idle : (ℕ → Bool) → Clients → List ℕ → Type 0
Idle ready heap [] = Unit
Idle ready heap (p ∷ ps) =
    ((c : Client) × (heap p ≡ some c) × (ready c.comm_fd ≡ false)) × Idle ready heap ps

module _ (has_callbacks : Bool) (ready : ℕ → Bool) (recv : ℕ → Received) where
  serve_clients-∷ :
      (heap : Clients) (p : ℕ) (ps : List ℕ) (c : Client)
      → heap p ≡ some c
      → serve_clients has_callbacks ready recv heap (p ∷ ps) ≡ (do
        r ←
            (if ready c.comm_fd
              then serve_client has_callbacks p c (recv c.comm_fd)
              else done (c, []))
        rest ←
            serve_clients has_callbacks ready recv (λ i. if i == p then some (r.0) else heap i) ps
        done (rest.0, r.1 ++ rest.1))
  unfolding serve_clients
  serve_clients-∷ heap p ps c here = rw (here, serve_clients) refl

  served_nothing :
      (p : ℕ) (c : Client) (d : Demarcar) (q : List ℕ) (received : Received)
      → c.msgd ≡ some d
      → Holds d.bcb q
      → received ≡ bytes []
      → serve_client has_callbacks p c received ≡ aborted
  unfolding serve_client
  served_nothing p c d q received demarcated h closed =
      rw (closed, demarcated, process_msg_nothing d q (client_recv_buffer (bytes [])) h) refl

  rewritten :
      (heap : Clients) (p : ℕ) (c : Client)
      → heap p ≡ some c
      → (i : ℕ) → (if i == p then some c else heap i) ≡ heap i
  rewritten heap p c here i = elim (Bool-cases (i == p)) [
    | inl e ↦ rw e (sym here ∙ ap heap (ground arith))
    | inr e ↦ rw e refl
  ]

  -- When the first client of a round that is ready has a demarcation whose ring holds a queue, and its
  -- connection has been closed, the receipt of 0 bytes fails an assertion, which ends the server.
  pub serve_clients-closed :
      (heap : Clients) (before after : List ℕ) (p : ℕ) (c : Client) (d : Demarcar) (q : List ℕ)
      → Idle ready heap before
      → heap p ≡ some c
      → c.msgd ≡ some d
      → Holds d.bcb q
      → ready c.comm_fd ≡ true
      → recv c.comm_fd ≡ bytes []
      → serve_clients has_callbacks ready recv heap (before ++ p ∷ after) ≡ aborted
  serve_clients-closed heap [] after p c d q idle here demarcated h set closed =
      serve_clients-∷ heap p after c here
      ∙ rw (set, served_nothing p c d q (recv c.comm_fd) demarcated h closed) refl
  serve_clients-closed heap (b ∷ bs) after p c d q idle here demarcated h set closed =
      let (idler, there, unready) = idle.0 in
      let same : (λ i. if i == b then some idler else heap i) ≡ heap =
        fun_ext (rewritten heap b idler there) in
      let later : serve_clients has_callbacks ready recv heap (bs ++ p ∷ after) ≡ aborted =
        serve_clients-closed heap bs after p c d q idle.1 here demarcated h set closed in
      serve_clients-∷ heap b (bs ++ p ∷ after) idler there
      ∙ rw unready (
          ap
            (λ heap'. do
              rest ← serve_clients has_callbacks ready recv heap' (bs ++ p ∷ after)
              done (rest.0, [] ++ rest.1))
            same
          ∙ rw later refl)

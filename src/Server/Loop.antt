-- ===== src/Server/Loop.antt =====
-- A round of the loop of tcp_client_service_manager.cpp, and what it hands to the application. What
-- `select` and `recvfrom` return are arguments.
use tcp_lib_with_command_par.Prelude.{
  ℕ, Bool, none, some, List, [], ◌∷◌, ◌++◌, Outcome, done, undefined, ◌>>=◌, ◌==◌, if◌then◌else◌,
  length, replicate,
}
use tcp_lib_with_command_par.Prelude.Memory.{splice}
use tcp_lib_with_command_par.Demarcar.{Delivery, process_msg, max_client_buffer_size}
use tcp_lib_with_command_par.Server.{Client, Clients}

-- A result of `recvfrom`: bytes, none of them when the connection is closed, or -1.
pub data Received : Type 0 where
  bytes : List ℕ → Received
  failed : Received

-- `rcv_bytes` as the `uint16_t` that the callees take.
abbrev pub rcv_bytes : Received → ℕ
rcv_bytes (bytes data') = length data'
rcv_bytes failed = 65535

-- `client_recv_buffer`, which is zero before each call of `recvfrom`.
unfoldable pub client_recv_buffer : Received → List ℕ
client_recv_buffer (bytes data') = splice (replicate max_client_buffer_size 0) 0 data'
client_recv_buffer failed = replicate max_client_buffer_size 0

-- A call of `client_msg_recvd`, for a client.
pub record Call : Type 0 where
  pub client : ℕ
  pub delivery : Delivery

abbrev pub calls_for : ℕ → List Delivery → List Call
calls_for p [] = []
calls_for p (d ∷ ds) = record { client = p; delivery = d } ∷ calls_for p ds

-- What a client that is ready leads to: the client afterwards, and the calls.
unfoldable pub serve_client : Bool → ℕ → Client → Received → Outcome (Client × List Call)
serve_client has_callbacks p c received = elim c.msgd [
  | some d ↦ do
    r ← process_msg d (client_recv_buffer received) (rcv_bytes received)
    done (record c { msgd = some r.0 }, calls_for p r.1)
  | none ↦
      if has_callbacks
      then done (
        c,
        record {
          client = p;
          delivery = record { block = client_recv_buffer received; size = rcv_bytes received };
        }
            ∷ [],
      )
      else done (c, [])
]

-- The `for` loop over the clients; `ready` is the set of descriptors that `select` leaves.
unfoldable pub serve_clients :
    Bool → (ℕ → Bool) → (ℕ → Received) → Clients → List ℕ → Outcome (Clients × List Call)
serve_clients has_callbacks ready recv heap [] = done (heap, [])
serve_clients has_callbacks ready recv heap (p ∷ ps) = elim (heap p) [
  | none ↦ undefined
  | some c ↦ do
    r ← (if ready c.comm_fd then serve_client has_callbacks p c (recv c.comm_fd) else done (c, []))
    rest ← serve_clients has_callbacks ready recv (λ i. if i == p then some (r.0) else heap i) ps
    done (rest.0, r.1 ++ rest.1)
]

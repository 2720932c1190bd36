-- ===== src/Server/Invariant.antt =====
-- What holds of a server that has been started, and that its services and new connections keep it
-- (tcp_server_controller.cpp).
use tcp_lib_with_command_par.Prelude.{
  listed, ℕ, ◌<◌, ◌≡◌, refl, Bool, true, false, Option, none, some, List, [], ◌∷◌, Outcome, done,
  ltb, if◌then◌else◌,
}
use tcp_lib_with_command_par.Server.{
  Client, Clients, Acceptor, ServiceManager, Controller, is_bit_set, running,
  not_accepting_new_connections, not_listening_clients, get_max_fd,
}

abbrev pub Distinct : List ℕ → Type 0
Distinct [] = Unit
Distinct (p ∷ ps) = (listed p ps ≡ false) × Distinct ps

abbrev pub Alive : Clients → List ℕ → Type 0
Alive heap [] = Unit
Alive heap (p ∷ ps) = ((c : Client) × (heap p ≡ some c)) × Alive heap ps

-- The acceptor, by the bit that says that connections are not accepted.
abbrev pub Accepts : Bool → Option Acceptor → Type 0
Accepts true a = a ≡ none
Accepts false a = a ≡ some (record { running = true })

-- The service manager, by the bit that says that clients are not listened to.
abbrev pub Listens : Clients → List ℕ → Bool → Option ServiceManager → Type 0
Listens heap db true s = s ≡ none
Listens heap db false s =
    (m : ℕ) × (get_max_fd heap db 0 ≡ done m)
    × (s ≡ some (record { clients = db; running = true; max_fd = m }))

-- The server runs: a service is there, with its thread and all clients of the database, unless its
-- bit says that it has been stopped, and the clients of the database are alive and distinct.
pub record Serving (heap : Clients) (c : Controller) : Type 0 where
  pub low : c.state_flags < 16
  pub up : is_bit_set c.state_flags running ≡ true
  pub accepts : Accepts (is_bit_set c.state_flags not_accepting_new_connections) c.acceptor
  pub listens : Listens heap c.client_db (is_bit_set c.state_flags not_listening_clients) c.svc_mgr
  pub alive : Alive heap c.client_db
  pub distinct : Distinct c.client_db

-- The call returns, to a server that runs.
pub record Continues (heap : Clients) (db : List ℕ) (out : Outcome Controller) : Type 0 where
  pub after : Controller
  pub returns : out ≡ done after
  pub serving : Serving heap after
  pub same_db : after.client_db ≡ db

pub get_max_fd-Alive :
    (heap : Clients) (ps : List ℕ) (m : ℕ)
    → Alive heap ps
    → (r : ℕ) × (get_max_fd heap ps m ≡ done r)
unfolding get_max_fd
get_max_fd-Alive heap [] m h = (m, refl)
get_max_fd-Alive heap (p ∷ ps) m h =
    let (c, here) = h.0 in
    let (r, e) = get_max_fd-Alive heap ps (if ltb m c.comm_fd then c.comm_fd else m) h.1 in
    (r, rw (here, get_max_fd) e)

-- ===== src/Server.antt =====
-- The TCP server: tcp_server_controller.cpp, tcp_client_db_manager.cpp,
-- tcp_client_service_manager.cpp, tcp_new_connection_acceptor.cpp and tcp_client.cpp. A pointer to
-- a client is a number. Each call is one step: the locks, the sleeps and the output are left out, and
-- a thread is whether it runs. The value that the loops over a list read past its end is not used.
-- The calls of the system succeed.
mod Flags
pub mod Invariant
mod Services
pub mod Connections
pub mod Reach
pub mod Stop
mod Restart
mod Unheard
pub mod Loop
mod Closed
mod Tests
use tcp_lib_with_command_par.Prelude.{
  ℕ, ◌+◌, Bool, true, false, not, ◌&&◌, Option, none, some, List, [], ◌∷◌, ◌++◌, Outcome, done,
  undefined, ◌>>=◌, ltb, ◌==◌, if◌then◌else◌,
}
use Prim.Native.Nat.{bit_and, bit_or, bit_xor}
use tcp_lib_with_command_par.Demarcar.{Demarcar}

-- `tcp_client` without its pointer to the server.
pub record Client : Type 0 where
  pub ip_addr : ℕ
  pub port_no : ℕ
  pub server_ip_addr : ℕ
  pub server_port_no : ℕ
  pub comm_fd : ℕ
  pub msgd : Option Demarcar

-- `tcp_new_connection_acceptor`: whether its thread has been created.
pub record Acceptor : Type 0 where
  pub running : Bool

-- `tcp_client_service_manager`: its list of clients, its thread, and the highest descriptor, which is
-- 0 where the source has -1.
pub record ServiceManager : Type 0 where
  pub clients : List ℕ
  pub running : Bool
  pub max_fd : ℕ

-- `tcp_server_controller`; `client_db` is the list of the database manager, and `has_callbacks` tells
-- whether `set_server_notif_callbacks` has been called, before which the code leaves the pointers unset.
pub record Controller : Type 0 where
  pub ip_addr : ℕ
  pub port_no : ℕ
  pub name : List ℕ
  pub state_flags : ℕ
  pub acceptor : Option Acceptor
  pub client_db : List ℕ
  pub svc_mgr : Option ServiceManager
  pub has_callbacks : Bool

-- The clients by pointer; `none` has been deleted, or was never made.
abbrev pub Clients : Type 0
Clients = ℕ → Option Client

-- The bits of `state_flags`.
abbrev pub initialized : ℕ
initialized = 1

abbrev pub running : ℕ
running = 2

abbrev pub not_accepting_new_connections : ℕ
not_accepting_new_connections = 4

abbrev pub not_listening_clients : ℕ
not_listening_clients = 8

unfoldable pub set_bit : ℕ → ℕ → ℕ
set_bit state_flags bit_value = bit_or state_flags bit_value

unfoldable pub unset_bit : ℕ → ℕ → ℕ
unset_bit state_flags bit_value = bit_and state_flags (bit_xor bit_value 0xffffffff)

unfoldable pub is_bit_set : ℕ → ℕ → Bool
is_bit_set state_flags bit_value = not (bit_and state_flags bit_value == 0)

unfoldable pub new_controller : ℕ → ℕ → List ℕ → Controller
new_controller ip_addr port_no name = record {
  ip_addr = ip_addr;
  port_no = port_no;
  name = name;
  state_flags = set_bit 0 initialized;
  acceptor = some (record { running = false });
  client_db = [];
  svc_mgr = some (record { clients = []; running = false; max_fd = 0 });
  has_callbacks = false;
}

-- `get_max_fd`; a client that has been deleted is read.
unfoldable pub get_max_fd : Clients → List ℕ → ℕ → Outcome ℕ
get_max_fd heap [] max_result = done max_result
get_max_fd heap (p ∷ ps) max_result = elim (heap p) [
  | none ↦ undefined
  | some c ↦ get_max_fd heap ps (if ltb max_result c.comm_fd then c.comm_fd else max_result)
]

-- The thread of the service manager up to its loop: the clients of the database are copied where the
-- flag says that nobody listens to them.
unfoldable pub start_service_thread : Clients → Controller → ServiceManager → Outcome Controller
start_service_thread heap c svc =
    let clients : List ℕ =
      if is_bit_set c.state_flags not_listening_clients
      then svc.clients ++ c.client_db
      else svc.clients in
    do
      max_fd ← get_max_fd heap clients 0
      done (record c {
        svc_mgr = some (record { clients = clients; running = true; max_fd = max_fd });
      })

-- `stop_tcp_client_service_manager_thread`: a thread that was never created cannot be cancelled.
unfoldable pub stop_service_thread : ServiceManager → Outcome ServiceManager
stop_service_thread svc = if svc.running then done (record svc { running = false }) else undefined

-- `tcp_client_service_manager::add_client_to_db`
unfoldable pub add_client : ServiceManager → ℕ → ServiceManager
add_client svc p = record svc { clients = svc.clients ++ p ∷ [] }

unfoldable pub client_fd_start_listen :
    Clients → Controller → ServiceManager → ℕ → Outcome Controller
client_fd_start_listen heap c svc p = do
  stopped ← stop_service_thread svc
  start_service_thread heap c (add_client stopped p)

-- `start_tcp_new_connection_acceptor_thread`
unfoldable pub start_acceptor : Controller → Outcome Controller
start_acceptor c = elim c.acceptor [
  | none ↦ undefined
  | some a ↦ done (record c { acceptor = some (record { running = true }) })
]

unfoldable pub start : Clients → Controller → Outcome Controller
start heap c = do
  accepting ← start_acceptor c
  elim accepting.svc_mgr [
    | none ↦ undefined
    | some svc ↦ do
      serving ← start_service_thread heap accepting svc
      done (record serving { state_flags = set_bit serving.state_flags running })
  ]

-- `process_new_client`: without a service manager the call is one through NULL.
unfoldable pub process_new_client : Clients → Controller → ℕ → Outcome Controller
process_new_client heap c p =
    let added : Controller = record c { client_db = c.client_db ++ p ∷ [] } in
    elim added.svc_mgr [ none ↦ undefined | some svc ↦ client_fd_start_listen heap added svc p ]

-- `tcp_new_connection_acceptor::stop`
unfoldable pub stop_acceptor : Option Acceptor → Outcome (Option Acceptor)
stop_acceptor none = undefined
stop_acceptor (some a) = if a.running then done none else undefined

-- `tcp_client_service_manager::stop`
unfoldable pub stop_service : Option ServiceManager → Outcome (Option ServiceManager)
stop_service none = undefined
stop_service (some svc) = do stopped ← stop_service_thread svc; done none

unfoldable pub stop_connection_accepting_svc : Controller → Outcome Controller
stop_connection_accepting_svc c =
    if is_bit_set c.state_flags not_accepting_new_connections then done c else (do
      gone ← stop_acceptor c.acceptor
      done (record c {
        acceptor = gone;
        state_flags = set_bit c.state_flags not_accepting_new_connections;
      }))

unfoldable pub start_connection_accepting_svc : Controller → Outcome Controller
start_connection_accepting_svc c =
    if is_bit_set c.state_flags not_accepting_new_connections
    then (do
      accepting ← start_acceptor (record c { acceptor = some (record { running = false }) })
      done (record accepting {
        state_flags = unset_bit accepting.state_flags not_accepting_new_connections;
      }))
    else done c

unfoldable pub stop_tcp_client_svc_mgr : Controller → Outcome Controller
stop_tcp_client_svc_mgr c = if is_bit_set c.state_flags not_listening_clients then done c else (do
  gone ← stop_service c.svc_mgr
  done (record c { svc_mgr = gone; state_flags = set_bit c.state_flags not_listening_clients }))

unfoldable pub start_tcp_client_svc_mgr : Clients → Controller → Outcome Controller
start_tcp_client_svc_mgr heap c =
    if is_bit_set c.state_flags not_listening_clients
    then (do
      serving ← start_service_thread heap c (record { clients = []; running = false; max_fd = 0 })
      done (record serving { state_flags = unset_bit serving.state_flags not_listening_clients }))
    else done c

-- `tcp_client_db_manager::purge`: every client is deleted; deleting one again is undefined.
unfoldable pub purge : Clients → List ℕ → Outcome Clients
purge heap [] = done heap
purge heap (p ∷ ps) = elim (heap p) [
  | none ↦ undefined
  | some c ↦ purge (λ i. if i == p then none else heap i) ps
]

-- `stop` up to `delete this`: what is left are the clients.
unfoldable pub stop : Clients → Controller → Outcome Clients
stop heap c = do
  quiet ← elim c.acceptor [ none ↦ done c | some a ↦ stop_connection_accepting_svc c ]
  silent ← elim quiet.svc_mgr [ none ↦ done quiet | some svc ↦ stop_tcp_client_svc_mgr quiet ]
  purge heap silent.client_db

-- A connection that `accept` returns, up to `process_new_client`: the client at the pointer `p`.
unfoldable pub accepted : Clients → Controller → ℕ → ℕ → ℕ → ℕ → Outcome (Clients × Controller)
accepted heap c p ip_addr port_no fd =
    let fresh : Client = record {
      ip_addr = ip_addr;
      port_no = port_no;
      server_ip_addr = c.ip_addr;
      server_port_no = c.port_no;
      comm_fd = fd;
      msgd = none;
    } in
    let heap' : Clients = λ i. if i == p then some fresh else heap i in
    do c' ← process_new_client heap' c p; done (heap', c')

-- `look_up_client_db`
unfoldable pub look_up_client_db : Clients → List ℕ → ℕ → ℕ → Outcome (Option ℕ)
look_up_client_db heap [] ip_addr port_no = done none
look_up_client_db heap (p ∷ ps) ip_addr port_no =
    let later = look_up_client_db heap ps ip_addr port_no in
    elim (heap p) [
      | none ↦ undefined
      | some c ↦ if c.ip_addr == ip_addr && c.port_no == port_no then done (some p) else later
    ]

-- ===== src/Server/Tests.antt =====
-- A server with one client, and the theorems on it.
use tcp_lib_with_command_par.Prelude.{
  ◌++◌, ◌==◌, if◌then◌else◌, aborted, arith, ◌≡◌, refl, true, none, some, [], ◌∷◌, done, undefined,
}
use tcp_lib_with_command_par.Server.{
  Client, Clients, Controller, is_bit_set, get_max_fd, start_service_thread, stop_service_thread,
  add_client, client_fd_start_listen, process_new_client, stop_tcp_client_svc_mgr, accepted, start,
  new_controller,
}
use tcp_lib_with_command_par.Server.Invariant.{Serving, Continues}
use tcp_lib_with_command_par.Server.Connections.{fresh_client, connected}
use tcp_lib_with_command_par.Server.Unheard.{stop_tcp_client_svc_mgr-accepted}
use tcp_lib_with_command_par.Server.Reach.{
  started, Steps, here, next, joined, stop_accepting, start_accepting, stop_listening,
  start_listening, serve_all, serve_all-Continues, started-Serving,
}
use tcp_lib_with_command_par.Server.Loop.{bytes, serve_clients}
use tcp_lib_with_command_par.Server.Closed.{serve_clients-closed}
use tcp_lib_with_command_par.Demarcar.{Demarcar, fixed_size}
use tcp_lib_with_command_par.Bcb.{new_bcb}
use tcp_lib_with_command_par.Bcb.Queue.{new_bcb-Holds}
use tcp_lib_with_command_par.Server.Restart.{restarts}

abbrev nobody : Clients
nobody p = none

abbrev fresh : Controller
fresh = started 2130706433 40000 (65 ∷ [])

abbrev somebody : Clients
somebody = connected nobody fresh 7 10 20 5

abbrev one_client : Controller
one_client = record fresh {
  client_db = 7 ∷ [];
  svc_mgr = some (record { clients = 7 ∷ []; running = true; max_fd = 5 });
}

abbrev unheard : Controller
unheard = record one_client { svc_mgr = none; state_flags = 11 }

one_joins : accepted nobody fresh 7 10 20 5 ≡ done (somebody, one_client)
unfolding accepted process_new_client client_fd_start_listen stop_service_thread
    start_service_thread add_client get_max_fd is_bit_set
one_joins = refl

joining : Steps (nobody, fresh) (somebody, one_client)
joining = next (joined 7 10 20 5 refl refl one_joins) here

one_client-Serving : Serving somebody one_client
one_client-Serving =
    (started-Serving nobody 2130706433 40000 (65 ∷ []) (somebody, one_client) joining).1

started-Serving_example :
    (start nobody (new_controller 2130706433 40000 (65 ∷ [])) ≡ done fresh)
    × Serving somebody one_client
started-Serving_example =
    started-Serving nobody 2130706433 40000 (65 ∷ []) (somebody, one_client) joining

serve_all-Continues_example :
    Continues somebody
      (7 ∷ [])
      (serve_all somebody one_client (stop_listening ∷ stop_accepting ∷ start_listening ∷ []))
serve_all-Continues_example =
    serve_all-Continues somebody one_client (stop_listening ∷ stop_accepting ∷ start_listening ∷ [])
      one_client-Serving

restarts_example :
    (serve_all somebody one_client (stop_accepting ∷ start_accepting ∷ []) ≡ done one_client)
    × (serve_all somebody one_client (stop_listening ∷ start_listening ∷ []) ≡ done one_client)
unfolding is_bit_set
restarts_example = restarts somebody one_client one_client-Serving refl refl

stop_tcp_client_svc_mgr-accepted_example :
    (after : Controller) × (stop_tcp_client_svc_mgr one_client ≡ done after)
    × (accepted somebody after 8 10 21 6 ≡ undefined)
stop_tcp_client_svc_mgr-accepted_example =
    stop_tcp_client_svc_mgr-accepted somebody one_client 8 10 21 6 one_client-Serving refl

-- An empty ring of eight bytes, for messages of four.
abbrev messages : Demarcar
messages = record { framing = fixed_size 4; bcb = new_bcb (λ i. 7) 8; buffer = [] }

abbrev with_messages : Client
with_messages = record {
  ip_addr = 10;
  port_no = 20;
  server_ip_addr = 2130706433;
  server_port_no = 40000;
  comm_fd = 6;
  msgd = some messages;
}

abbrev two_clients : Clients
two_clients p = if p == 8 then some with_messages else somebody p

serve_clients-closed_example :
    serve_clients true (λ fd. fd == 6) (λ fd. bytes []) two_clients ((7 ∷ []) ++ 8 ∷ []) ≡ aborted
serve_clients-closed_example =
    serve_clients-closed true (λ fd. fd == 6) (λ fd. bytes []) two_clients (7 ∷ []) [] 8
      with_messages messages [] ((fresh_client fresh 10 20 5, refl, refl), tt) refl refl
      (new_bcb-Holds (λ i. 7) 8 (omega arith) (omega arith)) refl refl

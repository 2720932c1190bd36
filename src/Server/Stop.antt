-- ===== src/Server/Stop.antt =====
-- `tcp_server_controller::stop` and the database manager's purge (tcp_client_db_manager.cpp).
use tcp_lib_with_command_par.Prelude.{
  listed, ℕ, Option, none, some, List, Outcome, done, if◌then◌else◌,
}
use tcp_lib_with_command_par.Server.{
  Clients, Acceptor, ServiceManager, Controller, stop_connection_accepting_svc,
  stop_tcp_client_svc_mgr,
}
use tcp_lib_with_command_par.Server.Invariant.{Serving}

-- The heap without the clients of a list.
abbrev pub without : Clients → List ℕ → Clients
without heap ps i = if listed i ps then none else heap i

module _ (heap : Clients) (c : Controller) (h : Serving heap c) where
  quiet_by : Option Acceptor → Outcome Controller
  quiet_by a = elim a [ none ↦ done c | some a ↦ stop_connection_accepting_svc c ]

  silent_by : Option ServiceManager → Outcome Controller
  silent_by s = elim s [ none ↦ done c | some s ↦ stop_tcp_client_svc_mgr c ]

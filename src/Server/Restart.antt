-- ===== src/Server/Restart.antt =====
-- A service that is stopped and started again (tcp_server_controller.cpp).
use tcp_lib_with_command_par.Prelude.{
  ℕ, ◌≡◌, refl, sym, ap, subst, ◌∙◌, true, false, none, some, [], ◌∷◌, done, arith,
}
use tcp_lib_with_command_par.Server.{
  Clients, ServiceManager, Controller, set_bit, unset_bit, is_bit_set,
  not_accepting_new_connections, not_listening_clients, get_max_fd, start_service_thread,
  stop_service_thread, start_acceptor, stop_acceptor, stop_service, stop_connection_accepting_svc,
  start_connection_accepting_svc, stop_tcp_client_svc_mgr, start_tcp_client_svc_mgr,
}
use tcp_lib_with_command_par.Server.Flags.{is_bit_set-set_bit, unset_bit-set_bit}
use tcp_lib_with_command_par.Server.Invariant.{Accepts, Listens, Serving}
use tcp_lib_with_command_par.Server.Reach.{
  serve_all, stop_accepting, start_accepting, stop_listening, start_listening,
}

module _ (heap : Clients) (c : Controller) where
  stop_accepting-done :
      is_bit_set c.state_flags not_accepting_new_connections ≡ false
      → c.acceptor ≡ some (record { running = true })
      → stop_connection_accepting_svc c
        ≡ done (record c {
          acceptor = none;
          state_flags = set_bit c.state_flags not_accepting_new_connections;
        })
  unfolding stop_connection_accepting_svc stop_acceptor
  stop_accepting-done clear there = rw (clear, there) refl

  start_accepting-done :
      is_bit_set c.state_flags not_accepting_new_connections ≡ true
      → start_connection_accepting_svc c
        ≡ done (record c {
          acceptor = some (record { running = true });
          state_flags = unset_bit c.state_flags not_accepting_new_connections;
        })
  unfolding start_connection_accepting_svc start_acceptor
  start_accepting-done set = rw set refl

  stop_listening-done :
      (s : ServiceManager)
      → is_bit_set c.state_flags not_listening_clients ≡ false
      → c.svc_mgr ≡ some (record s { running = true })
      → stop_tcp_client_svc_mgr c
        ≡ done
            (record c { svc_mgr = none; state_flags = set_bit c.state_flags not_listening_clients })
  unfolding stop_tcp_client_svc_mgr stop_service stop_service_thread
  stop_listening-done s clear there = rw (clear, there) refl

  start_listening-done :
      (m : ℕ)
      → is_bit_set c.state_flags not_listening_clients ≡ true
      → get_max_fd heap c.client_db 0 ≡ done m
      → start_tcp_client_svc_mgr heap c
        ≡ done (record c {
          svc_mgr = some (record { clients = c.client_db; running = true; max_fd = m });
          state_flags = unset_bit c.state_flags not_listening_clients;
        })
  unfolding start_tcp_client_svc_mgr start_service_thread
  start_listening-done m set counted = rw (set, counted) refl

module _ (heap : Clients) (c : Controller) (h : Serving heap c) where
  restart_accepting :
      is_bit_set c.state_flags not_accepting_new_connections ≡ false
      → serve_all heap c (stop_accepting ∷ start_accepting ∷ []) ≡ done c
  restart_accepting clear =
      let f = set_bit c.state_flags not_accepting_new_connections in
      let set : is_bit_set f not_accepting_new_connections ≡ true =
        is_bit_set-set_bit c.state_flags 2 2 h.low (omega arith) (omega arith) in
      let there : c.acceptor ≡ some (record { running = true }) =
        subst (λ b. Accepts b c.acceptor) clear h.accepts in
      rw
        (
          stop_accepting-done heap c clear there,
          start_accepting-done heap (record c { acceptor = none; state_flags = f }) set,
        )
        (ap (λ f. done (record c { acceptor = some (record { running = true }); state_flags = f }))
            (unset_bit-set_bit c.state_flags 2 h.low (omega arith) clear)
          ∙ ap (λ a. done (record c { acceptor = a })) (sym there))

  restart_listening :
      is_bit_set c.state_flags not_listening_clients ≡ false
      → serve_all heap c (stop_listening ∷ start_listening ∷ []) ≡ done c
  restart_listening clear =
      let f = set_bit c.state_flags not_listening_clients in
      let set : is_bit_set f not_listening_clients ≡ true =
        is_bit_set-set_bit c.state_flags 3 3 h.low (omega arith) (omega arith) in
      let (m, counted, there) = subst (λ b. Listens heap c.client_db b c.svc_mgr) clear h.listens in
      let svc : ServiceManager = record { clients = c.client_db; running = true; max_fd = m } in
      rw
        (
          stop_listening-done heap c svc clear there,
          start_listening-done heap (record c { svc_mgr = none; state_flags = f }) m set counted,
        )
        (ap (λ f. done (record c { svc_mgr = some svc; state_flags = f }))
            (unset_bit-set_bit c.state_flags 3 h.low (omega arith) clear)
          ∙ ap (λ s. done (record c { svc_mgr = s })) (sym there))

  -- On a running server whose two services run, stopping a service and starting it again leaves the
  -- server as it was, the list of clients of the service manager included.
  pub restarts :
      is_bit_set c.state_flags not_accepting_new_connections ≡ false
      → is_bit_set c.state_flags not_listening_clients ≡ false
      → (serve_all heap c (stop_accepting ∷ start_accepting ∷ []) ≡ done c)
        × (serve_all heap c (stop_listening ∷ start_listening ∷ []) ≡ done c)
  restarts accepts listens = (restart_accepting accepts, restart_listening listens)

-- ===== src/Server/Unheard.antt =====
-- A connection that arrives after the service of clients of tcp_server_controller.cpp has been stopped.
use tcp_lib_with_command_par.Prelude.{
  ℕ, ◌≡◌, refl, sym, subst, ◌∙◌, inl, inr, Bool-cases, none, done, undefined, done-injective, arith,
}
use tcp_lib_with_command_par.Server.{
  Clients, Controller, set_bit, is_bit_set, not_listening_clients, stop_service_thread,
  stop_service, stop_tcp_client_svc_mgr, accepted,
}
use tcp_lib_with_command_par.Server.Flags.{is_bit_set-set_bit}
use tcp_lib_with_command_par.Server.Invariant.{Listens, Serving}
use tcp_lib_with_command_par.Server.Services.{stop_tcp_client_svc_mgr-Continues}
use tcp_lib_with_command_par.Server.Connections.{accepted-unheard}

-- On a running server, whichever services run, the call that stops the service of clients returns, and
-- a new connection that is accepted after it calls a method of the service manager through NULL.
pub stop_tcp_client_svc_mgr-accepted :
    (heap : Clients) (c : Controller) (p ip_addr port_no fd : ℕ)
    → Serving heap c
    → heap p ≡ none
    → (after : Controller) × (stop_tcp_client_svc_mgr c ≡ done after)
      × (accepted heap after p ip_addr port_no fd ≡ undefined)
unfolding stop_tcp_client_svc_mgr stop_service stop_service_thread
stop_tcp_client_svc_mgr-accepted heap c p ip_addr port_no fd h free =
    elim (Bool-cases (is_bit_set c.state_flags not_listening_clients)) [
      | inl e ↦ (c, rw e refl, accepted-unheard heap c p ip_addr port_no fd h free e)
      | inr e ↦
          let (m, counted, there) = subst (λ b. Listens heap c.client_db b c.svc_mgr) e h.listens in
          let after : Controller = record c {
            svc_mgr = none;
            state_flags = set_bit c.state_flags not_listening_clients;
          } in
          let returns : stop_tcp_client_svc_mgr c ≡ done after = rw (e, there) refl in
          let k = stop_tcp_client_svc_mgr-Continues heap c h in
          let serving : Serving heap after =
            subst (Serving heap) (done-injective k.after after (sym k.returns ∙ returns))
              k.serving in
          (
            after,
            returns,
            accepted-unheard heap after p ip_addr port_no fd serving free
                (is_bit_set-set_bit c.state_flags 3 3 h.low (omega arith) (omega arith)),
          )
    ]

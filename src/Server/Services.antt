-- ===== src/Server/Services.antt =====
-- The commands that stop and start the services of a running server (tcp_server_controller.cpp).
use tcp_lib_with_command_par.Prelude.{
  ◌≡◌, refl, sym, subst, ◌∙◌, inl, inr, true, Bool-cases, none, some, arith,
}
use tcp_lib_with_command_par.Server.{
  Clients, ServiceManager, Controller, set_bit, unset_bit, is_bit_set,
  not_accepting_new_connections, not_listening_clients, start_service_thread, stop_service_thread,
  start_acceptor, stop_acceptor, stop_service, stop_connection_accepting_svc,
  start_connection_accepting_svc, stop_tcp_client_svc_mgr, start_tcp_client_svc_mgr,
}
use tcp_lib_with_command_par.Server.Flags.{
  set_bit-lt, unset_bit-lt, is_bit_set-set_bit, is_bit_set-unset_bit,
}
use tcp_lib_with_command_par.Server.Invariant.{
  Accepts, Listens, Serving, Continues, get_max_fd-Alive,
}

module _ (heap : Clients) (c : Controller) (h : Serving heap c) where
  pub stop_connection_accepting_svc-Continues :
      Continues heap c.client_db (stop_connection_accepting_svc c)
  unfolding stop_connection_accepting_svc stop_acceptor
  stop_connection_accepting_svc-Continues =
      elim (Bool-cases (is_bit_set c.state_flags not_accepting_new_connections)) [
        | inl e ↦ record { after = c; returns = rw e refl; serving = h; same_db = refl }
        | inr e ↦
            let there : c.acceptor ≡ some (record { running = true }) =
              subst (λ b. Accepts b c.acceptor) e h.accepts in
            record {
              after = record c {
                acceptor = none;
                state_flags = set_bit c.state_flags not_accepting_new_connections;
              };
              returns = rw (e, there) refl;
              serving = record {
                low = set_bit-lt c.state_flags 2 2 h.low (omega arith) (omega arith);
                up = is_bit_set-set_bit c.state_flags 2 1 h.low (omega arith) (omega arith) ∙ h.up;
                accepts =
                    subst (λ b. Accepts b none)
                      (sym (is_bit_set-set_bit c.state_flags 2 2 h.low (omega arith) (omega arith)))
                      refl;
                listens =
                    subst (λ b. Listens heap c.client_db b c.svc_mgr)
                      (sym (is_bit_set-set_bit c.state_flags 2 3 h.low (omega arith) (omega arith)))
                      h.listens;
                alive = h.alive;
                distinct = h.distinct;
              };
              same_db = refl;
            }
      ]

  pub start_connection_accepting_svc-Continues :
      Continues heap c.client_db (start_connection_accepting_svc c)
  unfolding start_connection_accepting_svc start_acceptor
  start_connection_accepting_svc-Continues =
      elim (Bool-cases (is_bit_set c.state_flags not_accepting_new_connections)) [
        | inl e ↦ record {
          after = record c {
            acceptor = some (record { running = true });
            state_flags = unset_bit c.state_flags not_accepting_new_connections;
          };
          returns = rw e refl;
          serving = record {
            low = unset_bit-lt c.state_flags 2 2 h.low (omega arith) (omega arith);
            up = is_bit_set-unset_bit c.state_flags 2 1 h.low (omega arith) (omega arith) ∙ h.up;
            accepts =
                subst (λ b. Accepts b (some (record { running = true })))
                  (sym (is_bit_set-unset_bit c.state_flags 2 2 h.low (omega arith) (omega arith)))
                  refl;
            listens =
                subst (λ b. Listens heap c.client_db b c.svc_mgr)
                  (sym (is_bit_set-unset_bit c.state_flags 2 3 h.low (omega arith) (omega arith)))
                  h.listens;
            alive = h.alive;
            distinct = h.distinct;
          };
          same_db = refl;
        }
        | inr e ↦ record { after = c; returns = rw e refl; serving = h; same_db = refl }
      ]

  pub stop_tcp_client_svc_mgr-Continues : Continues heap c.client_db (stop_tcp_client_svc_mgr c)
  unfolding stop_tcp_client_svc_mgr stop_service stop_service_thread
  stop_tcp_client_svc_mgr-Continues =
      elim (Bool-cases (is_bit_set c.state_flags not_listening_clients)) [
        | inl e ↦ record { after = c; returns = rw e refl; serving = h; same_db = refl }
        | inr e ↦
            let (m, counted, there) =
              subst (λ b. Listens heap c.client_db b c.svc_mgr) e h.listens in
            record {
              after = record c {
                svc_mgr = none;
                state_flags = set_bit c.state_flags not_listening_clients;
              };
              returns = rw (e, there) refl;
              serving = record {
                low = set_bit-lt c.state_flags 3 2 h.low (omega arith) (omega arith);
                up = is_bit_set-set_bit c.state_flags 3 1 h.low (omega arith) (omega arith) ∙ h.up;
                accepts =
                    subst (λ b. Accepts b c.acceptor)
                      (sym (is_bit_set-set_bit c.state_flags 3 2 h.low (omega arith) (omega arith)))
                      h.accepts;
                listens =
                    subst (λ b. Listens heap c.client_db b none)
                      (sym (is_bit_set-set_bit c.state_flags 3 3 h.low (omega arith) (omega arith)))
                      refl;
                alive = h.alive;
                distinct = h.distinct;
              };
              same_db = refl;
            }
      ]

  pub start_tcp_client_svc_mgr-Continues :
      Continues heap c.client_db (start_tcp_client_svc_mgr heap c)
  unfolding start_tcp_client_svc_mgr start_service_thread
  start_tcp_client_svc_mgr-Continues =
      elim (Bool-cases (is_bit_set c.state_flags not_listening_clients)) [
        | inl e ↦
            let (m, counted) = get_max_fd-Alive heap c.client_db 0 h.alive in
            let svc : ServiceManager = record {
              clients = c.client_db;
              running = true;
              max_fd = m;
            } in
            record {
              after = record c {
                svc_mgr = some svc;
                state_flags = unset_bit c.state_flags not_listening_clients;
              };
              returns = rw (e, counted) refl;
              serving = record {
                low = unset_bit-lt c.state_flags 3 2 h.low (omega arith) (omega arith);
                up =
                    is_bit_set-unset_bit c.state_flags 3 1 h.low (omega arith) (omega arith) ∙ h.up;
                accepts =
                    subst (λ b. Accepts b c.acceptor)
                      (sym
                        (is_bit_set-unset_bit c.state_flags 3 2 h.low (omega arith) (omega arith)))
                      h.accepts;
                listens =
                    subst (λ b. Listens heap c.client_db b (some svc))
                      (sym
                        (is_bit_set-unset_bit c.state_flags 3 3 h.low (omega arith) (omega arith)))
                      (m, counted, refl);
                alive = h.alive;
                distinct = h.distinct;
              };
              same_db = refl;
            }
        | inr e ↦ record { after = c; returns = rw e refl; serving = h; same_db = refl }
      ]

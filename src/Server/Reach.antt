-- ===== src/Server/Reach.antt =====
-- The states that a server reaches once it has been started (tcp_server_controller.cpp): commands on
-- its services and new connections, in any order.
use tcp_lib_with_command_par.Prelude.{
  done-injective, undefined≢done, ℕ, ◌≡◌, refl, sym, subst, ◌∙◌, inl, inr, true, false, Bool-cases,
  none, some, List, [], ◌∷◌, Outcome, done, ◌>>=◌, arith,
}
use tcp_lib_with_command_par.Server.{
  Clients, Controller, set_bit, is_bit_set, not_listening_clients, get_max_fd, start_service_thread,
  start_acceptor, stop_connection_accepting_svc, start_connection_accepting_svc,
  stop_tcp_client_svc_mgr, start_tcp_client_svc_mgr, accepted, start, new_controller,
}
use tcp_lib_with_command_par.Server.Invariant.{Serving, Continues}
use tcp_lib_with_command_par.Server.Services.{
  stop_connection_accepting_svc-Continues, start_connection_accepting_svc-Continues,
  stop_tcp_client_svc_mgr-Continues, start_tcp_client_svc_mgr-Continues,
}
use tcp_lib_with_command_par.Server.Connections.{connected, accepted-Joins, accepted-unheard}

pub data Service : Type 0 where
  stop_accepting : Service
  start_accepting : Service
  stop_listening : Service
  start_listening : Service

-- A command on a service.
abbrev pub serve : Clients → Controller → Service → Outcome Controller
serve heap c stop_accepting = stop_connection_accepting_svc c
serve heap c start_accepting = start_connection_accepting_svc c
serve heap c stop_listening = stop_tcp_client_svc_mgr c
serve heap c start_listening = start_tcp_client_svc_mgr heap c

abbrev pub serve_all : Clients → Controller → List Service → Outcome Controller
serve_all heap c [] = done c
serve_all heap c (k ∷ ks) = do c' ← serve heap c k; serve_all heap c' ks

-- A step of a server: a command on a service, or a connection, while there is an acceptor, whose
-- client gets a pointer that is free.
pub data Step : Clients × Controller → Clients × Controller → Type 0 where
  served :
      {heap : Clients} {c c' : Controller} (k : Service)
      → serve heap c k ≡ done c'
      → Step (heap, c) (heap, c')
  joined :
      {heap heap' : Clients} {c c' : Controller} (p ip_addr port_no fd : ℕ)
      → c.acceptor ≡ some (record { running = true })
      → heap p ≡ none
      → accepted heap c p ip_addr port_no fd ≡ done (heap', c')
      → Step (heap, c) (heap', c')

pub data Steps : Clients × Controller → Clients × Controller → Type 0 where
  here : {s : Clients × Controller} → Steps s s
  next : {s t u : Clients × Controller} → Step s t → Steps t u → Steps s u

serve-Continues :
    (heap : Clients) (c : Controller) (k : Service)
    → Serving heap c
    → Continues heap c.client_db (serve heap c k)
serve-Continues heap c stop_accepting h = stop_connection_accepting_svc-Continues heap c h
serve-Continues heap c start_accepting h = start_connection_accepting_svc-Continues heap c h
serve-Continues heap c stop_listening h = stop_tcp_client_svc_mgr-Continues heap c h
serve-Continues heap c start_listening h = start_tcp_client_svc_mgr-Continues heap c h

-- On a running server every sequence of commands that stop or start its services returns, and leaves
-- a running server with the same database of clients.
pub serve_all-Continues :
    (heap : Clients) (c : Controller) (ks : List Service)
    → Serving heap c
    → Continues heap c.client_db (serve_all heap c ks)
serve_all-Continues heap c [] h = record { after = c; returns = refl; serving = h; same_db = refl }
serve_all-Continues heap c (k ∷ ks) h =
    let first = serve-Continues heap c k h in
    let rest = serve_all-Continues heap first.after ks first.serving in
    record {
      after = rest.after;
      returns = rw first.returns rest.returns;
      serving = rest.serving;
      same_db = rest.same_db ∙ first.same_db;
    }

step-Serving : (s t : Clients × Controller) → Step s t → Serving s.0 s.1 → Serving t.0 t.1
step-Serving s t (served {heap} {c} {c'} k e) h =
    let k = serve-Continues heap c k h in
    subst (Serving heap) (done-injective k.after c' (sym k.returns ∙ e)) k.serving
step-Serving s t (joined {heap} {heap'} {c} {c'} p ip_addr port_no fd there free e) h =
    elim (Bool-cases (is_bit_set c.state_flags not_listening_clients)) [
      | inl unheard ↦ absurd (
          undefined≢done (heap', c')
            (sym (accepted-unheard heap c p ip_addr port_no fd h free unheard) ∙ e))
      | inr heard ↦
          let j = accepted-Joins heap c p ip_addr port_no fd h free heard in
          subst (λ (s : Clients × Controller). Serving s.0 s.1)
            (done-injective (connected heap c p ip_addr port_no fd, j.after) (heap', c')
              (sym j.returns ∙ e))
            j.serving
    ]

path-Serving : (s t : Clients × Controller) → Steps s t → Serving s.0 s.1 → Serving t.0 t.1
path-Serving s t here h = h
path-Serving s t (next {t = u} first rest) h = path-Serving u t rest (step-Serving s u first h)

-- What `start` makes of a new server.
abbrev pub started : ℕ → ℕ → List ℕ → Controller
started ip_addr port_no name = record {
  ip_addr = ip_addr;
  port_no = port_no;
  name = name;
  state_flags = 3;
  acceptor = some (record { running = true });
  client_db = [];
  svc_mgr = some (record { clients = []; running = true; max_fd = 0 });
  has_callbacks = false;
}

-- A new server starts, and in every state that it reaches by commands on its services and new
-- connections each service runs, with all clients of the database, exactly when its bit of the
-- flags does not say that it has been stopped, and the clients of the database are alive and distinct.
pub started-Serving :
    (heap : Clients) (ip_addr port_no : ℕ) (name : List ℕ) (t : Clients × Controller)
    → Steps (heap, started ip_addr port_no name) t
    → (start heap (new_controller ip_addr port_no name) ≡ done (started ip_addr port_no name))
      × Serving t.0 t.1
unfolding new_controller start start_acceptor start_service_thread get_max_fd set_bit is_bit_set
started-Serving heap ip_addr port_no name t steps = (
  refl,
  path-Serving (heap, started ip_addr port_no name) t steps
      (record {
        low = omega arith;
        up = refl;
        accepts = refl;
        listens = (0, refl, refl);
        alive = tt;
        distinct = tt;
      }),
)

-- ===== src/Server/Connections.antt =====
-- A new connection to a running server: `tcp_server_controller::process_new_client`, called by the
-- thread of tcp_new_connection_acceptor.cpp.
use tcp_lib_with_command_par.Prelude.{
  none≢some, listed, ℕ, ◌≡◌, refl, sym, ap, subst, ◌∙◌, inl, inr, true, false, ◌||◌, Bool-cases,
  Option, none, some, List, [], ◌∷◌, ◌++◌, done, undefined, arith, ◌==◌, if◌then◌else◌,
}
use tcp_lib_with_command_par.Server.{
  Client, Clients, ServiceManager, Controller, is_bit_set, not_listening_clients, get_max_fd,
  start_service_thread, stop_service_thread, add_client, client_fd_start_listen, process_new_client,
  accepted,
}
use tcp_lib_with_command_par.Server.Invariant.{Distinct, Alive, Listens, Serving, get_max_fd-Alive}

listed-Alive :
    (heap : Clients) (ps : List ℕ) (p : ℕ) → Alive heap ps → heap p ≡ none → listed p ps ≡ false
listed-Alive heap [] p alive free = refl
listed-Alive heap (q ∷ qs) p alive free = elim (Bool-cases (p == q)) [
  | inl e ↦ absurd (none≢some alive.0.0 (heap q) (ap heap {x = q} (ground arith) ∙ free) alive.0.1)
  | inr e ↦ rw e (listed-Alive heap qs p alive.1 free)
]

listed-append : (p q : ℕ) (ps : List ℕ) → listed p (ps ++ q ∷ []) ≡ (listed p ps || p == q)
listed-append p q [] = ground arith
listed-append p q (r ∷ rs) = ground (arith, listed-append p q rs)

Distinct-append :
    (ps : List ℕ) (p : ℕ) → Distinct ps → listed p ps ≡ false → Distinct (ps ++ p ∷ [])
Distinct-append [] p d new = (refl, tt)
Distinct-append (q ∷ qs) p d new =
    (listed-append q p qs ∙ ground (arith, d.0), Distinct-append qs p d.1 (ground arith))

abbrev pub fresh_client : Controller → ℕ → ℕ → ℕ → Client
fresh_client c ip_addr port_no fd = record {
  ip_addr = ip_addr;
  port_no = port_no;
  server_ip_addr = c.ip_addr;
  server_port_no = c.port_no;
  comm_fd = fd;
  msgd = none;
}

-- The heap with a client at a free pointer.
abbrev pub connected : Clients → Controller → ℕ → ℕ → ℕ → ℕ → Clients
connected heap c p ip_addr port_no fd i =
    if i == p then some (fresh_client c ip_addr port_no fd) else heap i

Alive-connected :
    (heap : Clients) (c : Controller) (ps : List ℕ) (p ip_addr port_no fd : ℕ)
    → Alive heap ps
    → listed p ps ≡ false
    → Alive (connected heap c p ip_addr port_no fd) (ps ++ p ∷ [])
Alive-connected heap c [] p ip_addr port_no fd alive new =
    let e : (p == p) ≡ true = ground arith in ((fresh_client c ip_addr port_no fd, rw e refl), tt)
Alive-connected heap c (q ∷ qs) p ip_addr port_no fd alive new =
    let e : (q == p) ≡ false = ground arith in
    (
      (alive.0.0, rw e alive.0.1),
      Alive-connected heap c qs p ip_addr port_no fd alive.1 (ground arith),
    )

client_fd_start_listen-done :
    (heap : Clients) (c : Controller) (ps : List ℕ) (p old m : ℕ)
    → is_bit_set c.state_flags not_listening_clients ≡ false
    → get_max_fd heap (ps ++ p ∷ []) 0 ≡ done m
    → client_fd_start_listen heap c (record { clients = ps; running = true; max_fd = old }) p
      ≡ done (record c {
        svc_mgr = some (record { clients = ps ++ p ∷ []; running = true; max_fd = m });
      })
unfolding client_fd_start_listen stop_service_thread start_service_thread add_client
client_fd_start_listen-done heap c ps p old m heard counted = rw (heard, counted) refl

process_new_client-some :
    (heap : Clients) (c : Controller) (p : ℕ) (svc : ServiceManager)
    → c.svc_mgr ≡ some svc
    → process_new_client heap c p
      ≡ client_fd_start_listen heap (record c { client_db = c.client_db ++ p ∷ [] }) svc p
unfolding process_new_client
process_new_client-some heap c p svc e =
    ap
      (λ (s : Option ServiceManager). elim s [
        | none ↦ undefined
        | some svc ↦
            client_fd_start_listen heap (record c { client_db = c.client_db ++ p ∷ [] }) svc p
      ])
      e

module _ (heap : Clients) (c : Controller) (p ip_addr port_no fd : ℕ) (h : Serving heap c)
    (free : heap p ≡ none) where
  abbrev heap' : Clients
  heap' = connected heap c p ip_addr port_no fd

  -- The server after the connection.
  pub record Joins : Type 0 where
    pub after : Controller
    pub returns : accepted heap c p ip_addr port_no fd ≡ done (heap', after)
    pub serving : Serving heap' after
    pub db : after.client_db ≡ c.client_db ++ p ∷ []

  -- While clients are listened to, a connection is added to the database and to the service manager.
  pub accepted-Joins : is_bit_set c.state_flags not_listening_clients ≡ false → Joins
  unfolding accepted
  accepted-Joins heard =
      let db : List ℕ = c.client_db ++ p ∷ [] in
      let new : listed p c.client_db ≡ false = listed-Alive heap c.client_db p h.alive free in
      let alive : Alive heap' db =
        Alive-connected heap c c.client_db p ip_addr port_no fd h.alive new in
      let (m, counted) = get_max_fd-Alive heap' db 0 alive in
      let (old, _, there) = subst (λ b. Listens heap c.client_db b c.svc_mgr) heard h.listens in
      let svc : ServiceManager = record { clients = db; running = true; max_fd = m } in
      record {
        after = record c { client_db = db; svc_mgr = some svc };
        returns =
            rw
              (
                process_new_client-some heap' c p
                    (record { clients = c.client_db; running = true; max_fd = old }) there,
                client_fd_start_listen-done heap' (record c { client_db = db }) c.client_db p old m
                    heard counted,
              )
              refl;
        serving = record {
          low = h.low;
          up = h.up;
          accepts = h.accepts;
          listens = subst (λ b. Listens heap' db b (some svc)) (sym heard) (m, counted, refl);
          alive = alive;
          distinct = Distinct-append c.client_db p h.distinct new;
        };
        db = refl;
      }

  -- On a running server whose service of clients has been stopped, but not that of connections, a
  -- new connection calls a method of the service manager through NULL.
  pub accepted-unheard :
      is_bit_set c.state_flags not_listening_clients ≡ true
      → accepted heap c p ip_addr port_no fd ≡ undefined
  unfolding accepted process_new_client
  accepted-unheard unheard =
      let gone : c.svc_mgr ≡ none =
        subst (λ b. Listens heap c.client_db b c.svc_mgr) unheard h.listens in
      rw gone refl

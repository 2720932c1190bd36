-- ===== src/App.antt =====
-- The server application: src/main.cpp, with network_utils.cpp. A pointer to a server is a number;
-- `objects` has the servers that have not been deleted. What the application prints is left out.
pub mod Atoi
pub mod Reading
mod Registry
mod Dangling
mod Commands
mod Records
mod Given
mod Tree
mod Tests
use tcp_lib_with_command_par.Prelude.{
  ℕ, zero, suc, ◌+◌, ◌-◌, ℤ, pos, negsuc, true, Option, none, some, List, [], ◌∷◌, ◌++◌, Outcome,
  done, undefined, ◌>>=◌, ◌==◌, if◌then◌else◌,
}
use tcp_lib_with_command_par.Prelude.CString.{codes, str_eq}
use tcp_lib_with_command_par.SerBuf.{SerBuff}
use tcp_lib_with_command_par.Tlv.{tlv_unit, tlv_units}
use tcp_lib_with_command_par.Cli.{OpMode, config_disable, config_enable, operational, mode_unknown}
use tcp_lib_with_command_par.Server.{
  Client, Clients, Controller, running, is_bit_set, new_controller, start, stop,
  stop_connection_accepting_svc, start_connection_accepting_svc, stop_tcp_client_svc_mgr,
  start_tcp_client_svc_mgr,
}
use tcp_lib_with_command_par.App.Reading.{
  Args, extract_cmd_code, is_leaf, leaf_id_of, no_args, read_args, text, value_of,
}

-- The command codes.
abbrev pub tcp_server_create : ℕ
tcp_server_create = 1

abbrev pub tcp_server_start : ℕ
tcp_server_start = 2

abbrev pub tcp_server_show_tcp_server : ℕ
tcp_server_show_tcp_server = 3

abbrev pub tcp_server_stop_conn_accept : ℕ
tcp_server_stop_conn_accept = 4

abbrev pub tcp_server_stop_client_listen : ℕ
tcp_server_stop_client_listen = 5

abbrev pub tcp_server_stop : ℕ
tcp_server_stop = 6

abbrev pub tcp_server_connect_remote : ℕ
tcp_server_connect_remote = 7

-- The functions of the system on addresses; `inet_pton` is `none` for a text that is no address.
pub record Net : Type 0 where
  pub inet_pton : List ℕ → Option ℕ
  pub htonl : ℕ → ℕ

unfoldable pub network_convert_ip_p_to_n : Net → List ℕ → ℕ
network_convert_ip_p_to_n net ip_addr =
    net.htonl (elim (net.inet_pton ip_addr) [ none ↦ 0 | some res ↦ res ])

abbrev pub Objects : Type 0
Objects = ℕ → Option Controller

-- `tcp_server_list`, the servers by pointer, and their clients.
pub record App : Type 0 where
  pub servers : List ℕ
  pub objects : Objects
  pub clients : Clients

unfoldable pub tcp_server_lookup : Objects → List ℕ → List ℕ → Outcome (Option ℕ)
tcp_server_lookup objects [] server_name = done none
tcp_server_lookup objects (p ∷ ps) server_name =
    let later = tcp_server_lookup objects ps server_name in
    elim (objects p) [
      | none ↦ undefined
      | some ctrlr ↦ if str_eq ctrlr.name server_name then done (some p) else later
    ]

unfoldable pub put_server : App → ℕ → Option Controller → App
put_server app p c = record app { objects = λ i. if i == p then c else app.objects i }

unfoldable pub set_server_notif_callbacks : Controller → Controller
set_server_notif_callbacks c = record c { has_callbacks = true }

-- TCP_SERVER_CREATE; the new server is at the pointer `fresh`.
unfoldable pub create_server : Net → ℕ → App → Args → List ℕ → Outcome (App × ℤ)
create_server net fresh app args name = do
  found ← tcp_server_lookup app.objects app.servers name
  elim found [
    | some p ↦ done (app, negsuc 0)
    | none ↦ do
      ip_addr ← text (some args.ip_addr)
      let server =
            set_server_notif_callbacks
              (new_controller (network_convert_ip_p_to_n net ip_addr) args.port_no name) in
          done (
            record (put_server app fresh (some server)) { servers = app.servers ++ fresh ∷ [] },
            pos 0,
          )
  ]

-- The other cases: the server with the name, or the error that there is none.
unfoldable pub on_server : App → List ℕ → (ℕ → Controller → Outcome (App × ℤ)) → Outcome (App × ℤ)
on_server app name act = do
  found ← tcp_server_lookup app.objects app.servers name
  elim found [
    | none ↦ done (app, negsuc 0)
    | some p ↦ elim (app.objects p) [ none ↦ undefined | some c ↦ act p c ]
  ]

abbrev pub updated : App → ℕ → Outcome Controller → Outcome (App × ℤ)
updated app p out = do c ← out; done (put_server app p (some c), pos 0)

unfoldable pub conn_accept : App → OpMode → ℕ → Controller → Outcome (App × ℤ)
conn_accept app config_enable p c = updated app p (stop_connection_accepting_svc c)
conn_accept app config_disable p c = updated app p (start_connection_accepting_svc c)
conn_accept app operational p c = done (app, pos 0)
conn_accept app mode_unknown p c = done (app, pos 0)

unfoldable pub client_listen : App → OpMode → ℕ → Controller → Outcome (App × ℤ)
client_listen app config_enable p c = updated app p (stop_tcp_client_svc_mgr c)
client_listen app config_disable p c = updated app p (start_tcp_client_svc_mgr app.clients c)
client_listen app operational p c = done (app, pos 0)
client_listen app mode_unknown p c = done (app, pos 0)

-- TCP_SERVER_STOP: the server is deleted, and its pointer stays in the list.
unfoldable pub stop_server : App → OpMode → ℕ → Controller → Outcome (App × ℤ)
stop_server app config_enable p c = do
  clients ← stop app.clients c
  done (record (put_server app p none) { clients = clients }, pos 0)
stop_server app config_disable p c = done (app, negsuc 0)
stop_server app operational p c = done (app, pos 0)
stop_server app mode_unknown p c = done (app, pos 0)

-- TCP_SERVER_CONNECT_REMOTE: `create_active_client` does nothing.
unfoldable pub connect_remote : App → Args → OpMode → ℕ → Controller → Outcome (App × ℤ)
connect_remote app args config_enable p c = do ip_addr ← text args.remote_ip_addr; done (app, pos 0)
connect_remote app args _ p c = done (app, pos 0)

-- The switch of `config_tcp_server_handler` on a code that is not negative.
unfoldable pub run_command : Net → ℕ → App → ℕ → Args → OpMode → Outcome (App × ℤ)
run_command net fresh app code args mode =
    let with : (ℕ → Controller → Outcome (App × ℤ)) → Outcome (App × ℤ) =
      λ act. (do name ← text args.server_name; on_server app name act) in
    if code == tcp_server_create
    then (do name ← text args.server_name; create_server net fresh app args name)
    else if code == tcp_server_start
    then with (λ p c. updated app p (start app.clients c))
    else if code == tcp_server_stop_conn_accept
    then with (conn_accept app mode)
    else if code == tcp_server_stop_client_listen
    then with (client_listen app mode)
    else if code == tcp_server_stop
    then with (stop_server app mode)
    else if code == tcp_server_connect_remote
    then with (connect_remote app args mode)
    else done (app, pos 0)

unfoldable pub config_tcp_server_handler : Net → ℕ → App → SerBuff → OpMode → Outcome (App × ℤ)
config_tcp_server_handler net fresh app ser_buff mode = do
  cmd_code ← extract_cmd_code ser_buff
  args ← read_args ser_buff 0 (tlv_units ser_buff - 1) no_args
  elim cmd_code [
    | pos code ↦ run_command net fresh app code args mode
    | negsuc n ↦ done (app, pos 0)
  ]

-- `tcp_server_controller::display` and `display_client_db`: the clients that are shown.
unfoldable pub display_clients : Clients → List ℕ → Outcome (List Client)
display_clients heap [] = done []
display_clients heap (p ∷ ps) = elim (heap p) [
  | none ↦ undefined
  | some c ↦ do rest ← display_clients heap ps; done (c ∷ rest)
]

unfoldable pub display : Clients → Controller → Outcome (List Client)
display heap c =
    if is_bit_set c.state_flags running then display_clients heap c.client_db else done []

-- The loop of `show_tcp_server_handler`, with `n` records left.
unfoldable pub read_name : SerBuff → ℕ → ℕ → Option (List ℕ) → Outcome (Option (List ℕ))
read_name ser_buff i zero name = done name
read_name ser_buff i (suc n) name = do
  unit ← tlv_unit ser_buff i
  read_name ser_buff (i + 1) n
      (if is_leaf (leaf_id_of unit) (codes "tcp-server-name") then some (value_of unit) else name)

-- `show_tcp_server_handler`: what it returns, and the clients that it shows.
unfoldable pub show_tcp_server_handler : App → SerBuff → Outcome (ℤ × List Client)
show_tcp_server_handler app ser_buff = do
  cmd_code ← extract_cmd_code ser_buff
  server_name ← read_name ser_buff 0 (tlv_units ser_buff - 1) none
  elim cmd_code [
    | negsuc n ↦ done (pos 0, [])
    | pos code ↦
        if code == tcp_server_show_tcp_server
        then (do
          name ← text server_name
          found ← tcp_server_lookup app.objects app.servers name
          elim found [
            | none ↦ done (negsuc 0, [])
            | some p ↦ elim (app.objects p) [
              | none ↦ undefined
              | some c ↦ do clients ← display app.clients c; done (pos 0, clients)
            ]
          ])
        else done (pos 0, [])
  ]

-- ===== src/App/Tree.antt =====
-- The commands of the application: `tcp_build_cli` of src/main.cpp. The statics of the blocks are
-- numbers after those of the library, and the handlers are applications 1 and 2.
use tcp_lib_with_command_par.Prelude.{ℕ, ℤ, none, Outcome, ◌>>=◌}
use tcp_lib_with_command_par.Prelude.CString.{codes}
use tcp_lib_with_command_par.CmdTree.{
  Store, Callback, application, int, string, ipv4, leaf_named, set_param_cmd_code, show, config,
}
use tcp_lib_with_command_par.CmdTree.Negation.{support_cmd_negation}
use tcp_lib_with_command_par.CmdTree.Boot.{named, add, add_coded}
use tcp_lib_with_command_par.App.{
  tcp_server_create, tcp_server_start, tcp_server_show_tcp_server, tcp_server_stop_conn_accept,
  tcp_server_stop_client_listen, tcp_server_connect_remote,
}

abbrev pub tcp_server : ℕ
tcp_server = 50

abbrev pub server_name : ℕ
server_name = 51

abbrev pub connect : ℕ
connect = 52

abbrev pub remote_machine_addr : ℕ
remote_machine_addr = 53

abbrev pub remote_machine_port : ℕ
remote_machine_port = 54

abbrev pub dis_conn_accept : ℕ
dis_conn_accept = 55

abbrev pub disable_client_listen : ℕ
disable_client_listen = 56

abbrev pub tcp_server_addr : ℕ
tcp_server_addr = 57

abbrev pub tcp_server_port : ℕ
tcp_server_port = 58

abbrev pub start_server : ℕ
start_server = 59

abbrev pub show_tcp_server : ℕ
show_tcp_server = 60

abbrev pub show_server_name : ℕ
show_server_name = 61

abbrev pub config_handler : Callback
config_handler = application 1

abbrev pub show_handler : Callback
show_handler = application 2

-- The two negations are at the pointers `no1` and `no2`; `choice` is the number that `scanf` reads.
unfoldable pub tcp_build_config_cli_tree : ℕ → ℕ → ℕ → ℤ → Store → Outcome Store
tcp_build_config_cli_tree fuel no1 no2 choice s0 = do
  s1 ← add config tcp_server (named "tcp-server") none "config tcp-server" s0
  s2 ←
      add_coded tcp_server server_name (leaf_named string (codes "tcp-server-name") none)
        config_handler "tcp server name" tcp_server_create s1
  s3 ← add server_name connect (named "connect") none "connect tcp-server" s2
  s4 ← set_param_cmd_code s3 server_name tcp_server_create
  s5 ←
      add connect remote_machine_addr (leaf_named ipv4 (codes "remote-addr") none) none
        "Remote IPV4 address" s4
  s6 ←
      add_coded remote_machine_addr remote_machine_port (leaf_named int (codes "remote-port") none)
        config_handler "Remote port" tcp_server_connect_remote s5
  s7 ←
      add_coded server_name dis_conn_accept (named "disable-conn-accept") config_handler
        "Connection Accept Settings" tcp_server_stop_conn_accept s6
  s8 ←
      add_coded server_name disable_client_listen (named "disable-client-listen") config_handler
        "Stop Listening" tcp_server_stop_client_listen s7
  s9 ←
      add server_name tcp_server_addr (leaf_named ipv4 (codes "tcp-server-addr") none) none
        "tcp server address" s8
  s10 ←
      add_coded tcp_server_addr tcp_server_port (leaf_named int (codes "tcp-server-port") none)
        config_handler "tcp server port no" tcp_server_create s9
  s11 ←
      add_coded server_name start_server (named "start") config_handler "start tcp server"
        tcp_server_start s10
  s12 ← support_cmd_negation fuel s11 server_name no1 choice
  support_cmd_negation fuel s12 config no2 choice

unfoldable pub tcp_build_show_cli_tree : Store → Outcome Store
tcp_build_show_cli_tree s0 = do
  s1 ← add show show_tcp_server (named "tcp-server") none "show tcp-server" s0
  add_coded show_tcp_server show_server_name (leaf_named string (codes "tcp-server-name") none)
      show_handler "tcp server name" tcp_server_show_tcp_server s1

unfoldable pub tcp_build_cli : ℕ → ℕ → ℕ → ℤ → Store → Outcome Store
tcp_build_cli fuel no1 no2 choice store = do
  configured ← tcp_build_config_cli_tree fuel no1 no2 choice store
  tcp_build_show_cli_tree configured

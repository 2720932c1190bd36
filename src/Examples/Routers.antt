-- ===== src/Examples/Routers.antt =====
-- CommandParser/testapp.c: the commands on routers. The handlers are applications 1 to 3, the display
-- callback is 1, and the validation of a VLAN is application 1.
use tcp_lib_with_command_par.Prelude.{
  ℕ, ◌&&◌, ℤ, pos, negsuc, Bool, false, Option, none, some, List, Outcome, done, ◌>>=◌, ltb,
}
use tcp_lib_with_command_par.Prelude.CString.{codes}
use tcp_lib_with_command_par.CmdTree.{
  Store, Callback, application, UserValidation, application_validation, int, string, ipv4,
  leaf_named, init_param, libcli_register_param, libcli_register_display_callback, show, config,
}
use tcp_lib_with_command_par.CmdTree.Negation.{support_cmd_negation}
use tcp_lib_with_command_par.CmdTree.Boot.{named, add, add_coded}
use tcp_lib_with_command_par.Cli.{Cli, set_device_name}
use tcp_lib_with_command_par.App.Atoi.{atoi_int}

abbrev pub cmsh : ℕ
cmsh = 50

abbrev pub ip : ℕ
ip = 51

abbrev pub ip_v6 : ℕ
ip_v6 = 52

abbrev pub config_router : ℕ
config_router = 53

abbrev pub config_router_name : ℕ
config_router_name = 54

abbrev pub igmp : ℕ
igmp = 55

abbrev pub igmp_config : ℕ
igmp_config = 56

abbrev pub config_router_name_name : ℕ
config_router_name_name = 57

abbrev pub groups : ℕ
groups = 58

abbrev pub groups_vlan : ℕ
groups_vlan = 59

abbrev pub groups_vlan_vlan : ℕ
groups_vlan_vlan = 60

abbrev pub groups_group_ip : ℕ
groups_group_ip = 61

abbrev pub group_ip_vlan : ℕ
group_ip_vlan = 62

abbrev pub group_ip_vlan_id : ℕ
group_ip_vlan_id = 63

abbrev pub mtrace : ℕ
mtrace = 64

abbrev pub source : ℕ
source = 65

abbrev pub source_ip : ℕ
source_ip = 66

abbrev pub destination : ℕ
destination = 67

abbrev pub dest_ip : ℕ
dest_ip = 68

abbrev pub group : ℕ
group = 69

abbrev pub group_ip : ℕ
group_ip = 70

abbrev pub group2 : ℕ
group2 = 71

abbrev pub group_ip2 : ℕ
group_ip2 = 72

abbrev pub groups_handler : Callback
groups_handler = application 1

abbrev pub router_name_handler : Callback
router_name_handler = application 2

abbrev pub mtrace_handler : Callback
mtrace_handler = application 3

-- `user_vlan_validation_callback` returns 0
unfoldable pub user_vlan_validation_callback : List ℕ → Outcome Bool
user_vlan_validation_callback vlan_id = do
  vlan_no ← atoi_int vlan_id
  done (elim vlan_no [ pos n ↦ ltb 0 n && ltb n 4096 | negsuc n ↦ false ])

unfoldable pub config_router_name_handler : Cli → Outcome Cli
config_router_name_handler cli = set_device_name cli (codes "router2")

abbrev pub vlan_validation : Option UserValidation
vlan_validation = some (application_validation 1)

-- The parameters of `show ip` and `config router`; `cmsh` is registered below NULL, the root.
unfoldable pub show_ip_commands : Store → Outcome Store
show_ip_commands s0 = do
  s1 ←
      libcli_register_param (init_param s0 cmsh (named "cmsh") none (codes "cmsh hidden commands"))
        none cmsh
  s2 ← add show ip (named "ip") none "Internet Protocol(IP)" s1
  s3 ← add show ip_v6 (named "ipv6") none "Internet Protocol(IPV6)" s2
  s4 ← add config config_router (named "router") none "Configuration Router" s3
  s5 ← add config_router config_router_name (named "name") none "configure router name" s4
  s6 ← add ip igmp (named "igmp") none "IGMP Protocol" s5
  s7 ←
      add igmp igmp_config (named "configuration") (some groups_handler)
        "IGMP Protocol Configuration" s6
  add config_router_name config_router_name_name (leaf_named string (codes "cons-name") none)
      (some router_name_handler) "Name of Console" s7

-- The parameters of `show ip igmp groups`.
unfoldable pub igmp_commands : Store → Outcome Store
igmp_commands s0 = do
  s1 ← add igmp groups (named "groups") (some groups_handler) "Ipv4 Group Address" s0
  s2 ← add groups groups_vlan (named "vlan") none "vlan" s1
  s3 ← libcli_register_display_callback s2 groups_vlan 1
  s4 ←
      add groups_vlan groups_vlan_vlan (leaf_named int (codes "vlan-id") vlan_validation)
        (some groups_handler) "Vlan id(1-4095)" s3
  s5 ←
      add groups groups_group_ip (leaf_named ipv4 (codes "group-ip") none) (some groups_handler)
        "Multicast Group Address" s4
  s6 ← add groups_group_ip group_ip_vlan (named "vlan") none "Vlan" s5
  add group_ip_vlan group_ip_vlan_id (leaf_named int (codes "vlan-id") vlan_validation)
      (some groups_handler) "Vlan id(1-4095)" s6

-- The parameters of `config mtrace`.
unfoldable pub mtrace_commands : Store → Outcome Store
mtrace_commands s0 = do
  s1 ← add config mtrace (named "mtrace") none "mtrace command" s0
  s2 ← add mtrace source (named "source") none "source command" s1
  s3 ←
      add_coded source source_ip (leaf_named ipv4 (codes "source-ip") none) mtrace_handler
        "Source Ipv4 address" 1 s2
  s4 ← add source_ip destination (named "destination") none "destination command" s3
  s5 ←
      add_coded destination dest_ip (leaf_named ipv4 (codes "destination-ip") none) mtrace_handler
        "Destination Ipv4 address" 2 s4
  s6 ← add source_ip group (named "group") none "group command" s5
  s7 ←
      add_coded group group_ip (leaf_named ipv4 (codes "group-ip") none) mtrace_handler
        "Multicast Group Ipv4 address" 4 s6
  s8 ← add dest_ip group2 (named "group") none "group command" s7
  add_coded group2 group_ip2 (leaf_named ipv4 (codes "group-ip") none) mtrace_handler
      "Multicast Group Ipv4 address" 3 s8

unfoldable pub testapp_commands : ℕ → ℕ → ℤ → Store → Outcome Store
testapp_commands fuel no_at choice s0 = do
  s1 ← show_ip_commands s0
  s2 ← igmp_commands s1
  s3 ← mtrace_commands s2
  support_cmd_negation fuel s3 config no_at choice

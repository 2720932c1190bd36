-- ===== src/App/Dangling.antt =====
-- A server that the command TCP_SERVER_STOP has deleted, and the list of servers (src/main.cpp).
use tcp_lib_with_command_par.Prelude.{ℕ, none, ◌==◌, if◌then◌else◌}
use tcp_lib_with_command_par.App.{App, Objects}

abbrev deleted : Objects → ℕ → Objects
deleted objects p i = if i == p then none else objects i

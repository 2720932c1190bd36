-- ===== src/Examples.antt =====
-- The example applications of CommandParser: main2.c, main3.c and main4.c (Nodes) and testapp.c
-- (Routers), each the commands that it registers after `init_libcli`, and its own functions.
mod Nodes
mod Routers
mod Trees

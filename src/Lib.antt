-- ===== src/Lib.antt =====
-- Verification of the TCP server library of this repository and of its command line.
--
-- The repository is a TCP server library and the command line that it uses as its console.
--
-- CommandParser is a library that gives an application a command line: the application registers
-- its commands in a tree, the parser matches the words of a line along that tree, collects the
-- values of leaves in a buffer of TLV records, and calls the command's handler with that buffer.
-- The TCP server library at the root of the repository uses it as its console.
--
-- Parts and files:
--   Prelude      outcomes of a call, blocks of memory, C strings, lists over native numbers
--   SerBuf       CommandParser/serialize.c: the growing byte buffer. Grow is the doubling loop,
--                Append what a write does, Cursor the checkpoint, skipping and truncation, Decode
--                reading back.
--   StringUtil   CommandParser/string_util.c. Trim is string_space_trim, Words the calls of strtok,
--                Table, Texts and Tokens the table of tokenizer, Lines grep and
--                string_fetch_integer, Replace replaceSubstring.
--   CmdTree      CommandParser/cmd_hier.c and .h. Find is find_matching_param of parser.c, Choices,
--                MatchLoop and Match its result, Negation is support_cmd_negation, Register the
--                registration of a command, Branch the lookup of a branch, Boot and Commands the tree of
--                init_libcli.
--   Tlv          CommandParser/cmdtlv.h, and the walk over the leaves of a branch in cmd_hier.c. Units
--                is the buffer as a list of records, Branch the walk, Reverse the exchange of records,
--                Leaves the whole function.
--   Cli          the state of the command line, the cursor and the console name in cmd_hier.c. Handlers
--                models clistd.c, Console is the name of a mode, Top the way back to the root,
--                Up the way up from the mode of a leaf.
--   Parser       CommandParser/parser.c: the walk of a line along the tree and the dispatch. Line is the
--                processing of a line and of a file; Keeps, Rejection and Settle are about lines that
--                no handler is called for, RootMode about the mode character at the root. Prompt is the
--                loop at the terminal with the handlers that process a line again.
--   Bcb          byte_circular_buffer.cpp: the ring of bytes. Queue relates it to a list, Pieces,
--                Write, Front, Read and Round are the two operations, Refine a sequence of calls.
--   Demarcar     tcp_msg_demarcar.cpp and its two classes for messages of fixed and variable size: Sizes,
--                Fixed, Stream (a sequence of receipts) and Variable.
--   Server       tcp_server_controller.cpp, tcp_client_db_manager.cpp, tcp_client_service_manager.cpp and
--                tcp_new_connection_acceptor.cpp. Flags is the bits of the state, Invariant what holds
--                of a running server, Services, Connections, Unheard, Restart and Stop its operations, Reach
--                the states that it reaches, Loop a round of the service of clients, Closed a
--                connection that has been closed.
--   App          main.cpp and network_utils.cpp, the server application: its command handlers. Atoi is
--                the conversion of texts, Reading, Records and Given the reading of a TLV buffer, Tree and
--                Commands the commands that it registers, Registry and Dangling the list of servers.
--   UtParser     CommandParser/ut/utinfra/ut_parser.c, the runner of test files. Directives is what is done
--                for a line, Loop the lines and run_test_case, Handler the handler of its commands. Sound,
--                Keeps, Inner and Invariant are about the sizes of its buffers, Select and Isolated the
--                choice of a test case, Plain and Checks the text of a line, Verdicts, Judging, Counting
--                and Report its results, Answers and Timeout the output of a show command.
--   Examples     CommandParser/main2.c, main3.c and main4.c (Nodes) and testapp.c (Routers), the example
--                applications; Trees is the commands that they register.
-- The parser calls the handler of a parameter through a record (Env) that stands for the callbacks of
-- the library and of the application, and that holds the numbers which scanf reads and the lines that
-- fgets reads behind them.
-- Functions keep their names. A function that may fail an assertion, meet undefined behaviour or
-- not end returns an Outcome (Prelude/Result). State is passed on explicitly: a SerBuff for
-- ser_buff_t, a table of cells for the static tokens array, a store of parameters for the param_t
-- objects, whose pointers are numbers.
--
-- Bounds and fuel. The doubling loop has fuel 32, and a size of at least 1 leaves the range of int
-- after 31 doublings. The calls of strtok have the length of the text as fuel, and each takes at
-- least one byte. The walks to the root and the dump of commands have fuel for the depth of the tree
-- as an argument. The rows of the console name are the 16 of the code. The loops that cut messages have
-- one round more than the bytes held, and each round but the last takes at least one byte. The loop of
-- replaceSubstring has one round more than the length of the string, and comes closer to its end in
-- each. The lines of a test file are a list, of which the runner takes one or more from the front in each
-- round. Sizes and positions are natural numbers; int overflow of a size is undefined, and the uint16_t
-- of the ring wrap around. The flags of a server are below 16, and every such value is run.
--
-- Not modelled: failure of calloc and realloc, NULL arguments, output to the terminal, the input
-- functions (the number that scanf reads and the line that fgets reads behind it are arguments), the
-- values that loops over a std::list read past its end and do not use, the glthread copy and the message queue
-- of the test runner (records of operations that its model takes), the example clients, the locks
-- of the server, and the calls of the system on sockets and threads, which are taken to succeed: a
-- thread is whether it runs, a step of the server is one whole call, and a client's pointer is a
-- number.
pub mod App
pub mod Bcb
pub mod Cli
pub mod CmdTree
pub mod Demarcar
pub mod Examples
pub mod Parser
pub mod Prelude
pub mod SerBuf
pub mod Server
pub mod StringUtil
pub mod Tlv
pub mod UtParser

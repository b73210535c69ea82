-- ===== src/Lib.antt =====
-- The SNMP agent of the openWRT SDK monitor (src/*.c): a daemon that answers SNMP version 1 and 2c
-- over UDP and TCP from a table of values, beside a serial port reader that fills the table and a
-- text server.
--
-- How the parts interact: the loop of mini_snmpd.c receives a packet into a client, asks
-- `snmp_packet_complete` (TCP only), and hands it to `snmp`, both in protocol.c. `snmp` decodes
-- the request, tests the community, runs the handler of the request's type over the table `g_mib`
-- (searched by mib.c with the comparison of utils.c), and encodes the response into the same
-- packet, which the loop sends. mib.c builds the table at the start and updates it in every round,
-- from the struct that the thread of parser_sdk.c fills from the answers that serial.c receives.
-- server.c answers text commands from the same struct. sdk.c starts the three threads.
--
-- Files, in the order of their use, and the code that they model:
--   Common (with Tests, Lists, Int, Bits): shared helpers. Numbers are natural numbers; an `int` is
--     an integer ℤ, with `to_int` and `to_unsigned` for the casts from and to 32 bits.
--   Types, Ber: the constants and structs of src/mini_snmpd.h. A list stands for the used part of
--     an array, so its length is the length field beside the array. `short` lengths are natural
--     numbers, which is exact below 2 ^ 15.
--   Outcome: results of the code. `ok` returns a value, `fail` is `return -1` (in the server, also
--     the exit of the program), `fault` is a read or write outside an array, and `hang` is a loop
--     that has run out of rounds. Outcome/Holds says which bytes an array holds at a place.
--   Decode: `decode_snmp_element_*` of src/protocol.c. A decoder takes the packet, the used size
--     and the position, and returns the value and the new position. Decode/Header, Values and Oids
--     have the proofs.
--   Message: `decode_snmp_request`, one function for each kind of element. Proofs in Message/Ends.
--   Encode: `get_*_length`, `encode_snmp_*` and `encode_snmp_response`. A function that writes to
--     `buffer` returns the bytes it writes; `put` places them in the packet, from its end to its
--     front. Encode/Headers, Integers (with Digits) and Oids (with Subids) are about the elements;
--     Write, Reply, Varbinds and Whole are about the whole response.
--   Mib: `oid_cmp` of src/utils.c, and `mib_find` and `mib_findnext` of src/mib.c. Mib/Search and
--     Mib/Order have the proofs. Mib/Element: `encode_snmp_element_*` of src/mib.c, with the proofs
--     in Mib/Element/Back.
--     Mib/Build: `mib_build_entry`, `mib_update_entry`, `mib_build` and `mib_update`, with
--     `__DEMO__` defined as in the Makefile; the 30 calls are a list of cells, in the order of the
--     code. Mib/Build/Entry, Update and Table have the proofs. Mib/Walk: a client that repeats
--     GETNEXT.
--   Handle: `handle_snmp_get`, `_getnext`, `_set` and `_getbulk`. Proofs in Handle/Replies and
--     Handle/Bulk; Handle/Lookup: the answers to a GET by the entries of the MIB.
--   Agent: `snmp_packet_complete` and `snmp`; the globals that they read are a record. Proofs in
--     Agent/Framing and Agent/Access; Agent/Lookup: a GET by the entries of the MIB; Agent/Table:
--     requests for the cells of the table.
--   Format: `oid_ntoa` and `oid_aton` of src/utils.c; Format/Element: `snmp_element_as_string` of
--     src/protocol.c. Proofs: Format/Print, Format/Back, Format/Element/Hex.
--   Server: the handlers of src/mini_snmpd.c for UDP packets and connections and
--     `find_oldest_client` of src/utils.c; Server/Tcp: the handlers of a connected client;
--     Server/Timer: `ticks_since` of src/utils.c and the times of the loop, with the rounding to a
--     `float` as a parameter; proofs in Server/Timer/Exact. Server/Sockets: the calls that open
--     the sockets; Server/Prepare: the start and the sockets together, up to the loop.
--     Server/Loop: what stands in front of the sockets and of the loop of `run_snmpd` (the times
--     and the MIB) and one round of the loop. What the system calls return is an argument of a
--     round. The list of pointers to clients is a list of clients: no two slots share one. Proofs:
--     Server/Room and Buffers about the arrays, Clients and Slots about the list, Rounds about the
--     loop as a step relation; Oldest, Closed, Udp, and Datagram for a GET of the table over UDP.
--   Sdk: `struct sdk_param` of src/parser_sdk.h and `get_sdkinfo` of src/utils.c. Sdk/Parse: the
--     parsing of a status answer in src/parser_sdk.c, with `strtol` as an argument and what ISO C
--     says of it as the hypothesis `ReadsNumbers`.
--   Text: `threadworker` of src/server.c; `sprintf` with "%d" is its argument `print`, with what
--     it writes as the hypothesis `IsPrint`. Text/Number and Text/Lists have the proofs.
--     Text/Accept: the loop of `server_run`.
--   Serial: `request_port` of src/serial.c and the turns of `threading_sdk_serial` of
--     src/parser_sdk.c; what the system calls return is an argument. Serial/Port:
--     `open_serial_port`. Proofs: Serial/Polls about the requests, Readings about what the parser
--     takes from an answer, Shown from the answer to a GET, Turns about the values of the thread.
--     Serial/Fields: the parser as single writes to the shared struct.
--   System: the three threads of `main` in src/sdk.c as steps on the state that they share: the
--     serial thread takes one step for its requests, one for each write to the struct, and one for
--     its other two messages; a round of the SNMP loop is one step, although its reads of the
--     struct may also be interrupted. System/Threads has the invariant, System/Status what the
--     serial thread makes of an answer, and System/Whole the composition of its steps.
--   Linux: `read_file`, `read_value` and `read_values` of src/utils.c, with `strstr`, `isspace` and
--     `strtoul` as parameters; Linux/System: `get_process_uptime`, `get_meminfo`, `get_cpuinfo` and
--     `get_netinfo` of src/linux.c. Proofs in Linux/Values and Linux/Network.
--   Tests: the theorems at concrete inputs, and runs.
--
-- Bounds: `size_t`, `int` and `unsigned int` have 32 bits, with the wrap written out where the
-- code can reach it. The loops over bytes are recursions on the number of bytes left. Three loops
-- have a number of rounds: those over the subids of an OID, in the decoder and in `oid_aton` (17
-- rounds, as each round adds a subid and a 17th one fails), and that over the variable bindings
-- (17 rounds, as each adds an OID and a 17th one fails). The requests to the device are a
-- recursion on the exchanges that are given, and the loops of the threads on the turns that are
-- given.
--
-- Not modelled: log and debug output, with the dumps of src/utils.c; `errno`; `split`, which is
-- nowhere called; the random numbers of `get_demoinfo`; a `malloc` of mib.c that gives nothing;
-- the signal handlers, which only set `g_quit`; the setup of the socket in `server_run`, and the
-- pauses of the serial thread, which are system calls; how `main` starts and joins the threads,
-- and what it does where that fails; `get_loadinfo` and `get_diskinfo`, which compute in floating
-- point.
pub mod Common
pub mod Types
pub mod Ber
pub mod Outcome
pub mod Decode
pub mod Message
pub mod Encode
pub mod Mib
pub mod Handle
pub mod Agent
pub mod Format
pub mod Server
pub mod Sdk
pub mod Text
pub mod Serial
pub mod System
pub mod Linux
pub mod Tests

-- ===== src/Lib.antt =====
-- icehydra is a broker for processes on one machine. Publishers and subscribers are configured in a
-- JSON file; each links to the client library (icehydra.c) and connects to the broker (main.c) on a
-- unix socket. A client sends a message that names the ids of its receivers; the broker takes the ids
-- off and passes the message on to each of them. The broker also answers questions about the shared
-- memories of the configuration.
--
-- The parts, and the files that model them:
-- - Wire: the message head of include/conf.h, PROTOCOL_CMD, as a record; `encode` and `decode` are its
--   eight bytes in memory. The functions of src/conf.c that fill a head in keep their names.
-- - Kernel: the system calls, as a record of functions over the state of everything outside the
--   process. Kernel/Stream states what is relied on of sockets: bytes come and go in order, at most as
--   many as asked for.
-- - Socket: tcp_recv_protocol_cmd and tcp_send_protocol_cmd of src/unix_socket.c, tcp_send_noblock and
--   tcp_recv_noblock of src/icehydra_util.c. Each loop runs on fuel. A round either counts the 2000
--   retries down or moves at least one byte, so that the fuel is the sum of both and one; the theorems
--   show that no run needs more.
-- - Node: a configured process, pub_sub_node_t, and the searches of src/conf.c. The linked list is the
--   list of its nodes in the order in which list_for_each visits them, without the start node.
-- - Broker/Cast: broadcast_cmd. Broker/Reserve: parser_reserve_cmd. Broker/Loop: a pass of `while(1)`
--   in main.c, from the descriptors that it waits for to the commands that it carries out, and
--   accept_unix_tcp of src/unix_socket.c; Broker/Loop/Reach is the loop as a whole, Serve a pass in
--   which one process has a message, Watch what select is given, Close what follows a failed
--   broadcast, Safe, Causes and Pass what can go wrong. FD_SET of a descriptor that is not below FD_SETSIZE,
--   1024, is a fault, and so is a peer's path that fills sun_path. The state is the list of
--   nodes, and the descriptors and counters that `main` keeps.
-- - Client: icehydra.c, with its variable `client_connfd` passed in and out.
-- - Relay: the parts together. Deliver and Answer are the broker at a client's message and at a client's
--   command; Journey is a message from the client that sends it, through a pass of the broker's loop,
--   to the process that receives it, each on a system of its own. Two systems are joined by a record,
--   `Carries`: what is written at one end of a connection is what can be read at the other.
-- - Links: the doubly linked list of include/list.h, as a memory of two addresses at each address. Ring
--   says what list the pointers stand for; Insert, Move, Splice, Visit and Entries are about the
--   operations. Visit is also the bridge to Node, for the nodes as get_node_start chains them up.
-- - Chains: the singly linked list of the same header, as one address at each address and an end for
--   each list. Chains/Line says what list it stands for; the rest is as in Links.
-- - Storage: the system calls for files, processes and shared memories, as a record of parameters. Files:
--   the functions of src/icehydra_util.c that use them. Shm: the three variants of src/shm_manager.c, the
--   one that is built by default (System V) in Shm itself.
-- - Config: get_node_start of src/conf.c, from the text of the file to the list of processes. cJSON is
--   a record of parameters; that parsing a value shortens the text bounds the fuel. Config/Memories,
--   Config/Items and Config/Order are about a file that describes its processes: what each of them is
--   read into, and their order.
-- - Client/Recv: ih_recv_data, which takes one message into the caller's buffer.
-- - Client/Infos: ih_get_shm_infos and the functions that attach a shared memory. Its loops may run on,
--   so that their fuel is an argument. Answered and Found are about a broker that answers, Closed about
--   one that has gone, Attach and Named about the search by name in the buffer that was filled.
--   Node/Entries is that buffer: the layout of SHM_NODE_T, written and read.
-- - Names: name_fix of src/icehydra_util.c. The bytes that really stand at what calloc returns are a
--   parameter, `reserved`, since name_fix writes a byte more than it asks for.
-- - Setup: the sockets of src/unix_socket.c are opened, bound and connected, and the functions of
--   icehydra.c that connect a client. Kernel/Unix has the system calls, and what is relied on of them.
-- - Passing: send_fd_unix_domain, send_errno_unix_domain and recv_fd_unix_domain of src/unix_socket.c. The
--   receiver waits for one message after the other, so that the fuel is an argument.
-- - Main: parse_opt and `main` of main.c: the start-up in the order of the source, and so many passes of
--   the loop, which is Broker/Loop. Main/Open is the opening of the server's
--   socket, Main/Passes any number of passes. The file's and the sockets' side of the system are two
--   worlds.
--   Main/Described is the program as a whole, started with a file that describes its processes.
-- - Traces: print_cmd_head, print_data_char and isShmInfo of src/conf.c. What is printed is a list of
--   calls of printf. The loop and ih_recv_data print each message that they receive, since the build
--   without NDEBUG is modelled.
-- - Run: a computation that returns, faults, or runs out of fuel. A fault is an access outside a buffer
--   or an array, or through a null pointer.
-- - Prelude: lists, options and integers over the native numbers. Tests: every theorem with hypotheses
--   at a concrete input, with simulated systems (Tests/Sim, Asked, Bytes).
--
-- A byte is a number below 256, an `int` is an integer; where the source narrows one to a field of a
-- head, the wrap-around is written out. The counts br_num and datalen of a client's message, and the
-- descriptors that reach the system, are not negative. A string is the list of its bytes before the
-- final NUL.
--
-- Not modelled: the copy of cJSON (src/cJSON.c); the sample program test/sub_test.c; other output that
-- is printed, and the pauses between retries; failing
-- allocations, and a build in which assertions are off; argp, which calls parse_opt, and its table of
-- options; the macros of include/icehydra_util.h and include/conf.h that nothing uses (BIT_GET, BIT_SET,
-- BIT_CLEAR, min, set_nonblock, GET_PROTOCOL_LEN); the macros of include/list.h that combine a loop with
-- a struct's offset, but for list_for_each_entry.
pub mod Prelude
pub mod Run
pub mod Wire
pub mod Kernel
pub mod Socket
pub mod Node
pub mod Broker
pub mod Client
pub mod Relay
pub mod Setup
pub mod Passing
pub mod Links
pub mod Chains
pub mod Main
pub mod Traces
pub mod Storage
pub mod Files
pub mod Shm
pub mod Names
pub mod Config
mod Tests

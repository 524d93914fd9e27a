-- ===== src/Lib.antt =====
-- WireCommand (Linux): servers that run LS, PWD and CAT for their clients, over a binary protocol
-- of framed requests and responses. This library models the code that the programs share, the three
-- servers and the client.
--
-- The parts, and how they interact:
--
-- - Common: lists and Boolean tests on native numbers, `size_t` sums modulo 2 ^ 64
--   (Common/Machine), the values of `errno`, and a call that returns 0 or -1 as a `Status`. A
--   pointer that may be NULL is an `Option`.
-- - Buffer (src/buffer.c, include/wirecommand/buffer.h): the byte buffer that grows on demand up
--   to a limit, with its block, length, capacity and limit. `realloc()` is an argument, with what
--   C says of it as the hypothesis `IsRealloc` (Buffer/Contents); Buffer/Plain has a `realloc()`
--   that meets it. Buffer/Ptr is the same functions through a pointer that may be NULL.
-- - Protocol (src/protocol.c, include/wirecommand/protocol.h): the encoders append frames to a
--   Buffer, the parsers read bytes. Protocol/Frame describes the frames without the code,
--   Protocol/Stream cuts a stream of bytes into requests.
-- - Queue (src/queue.c, include/wirecommand/queue.h): the linked list on an explicit heap; a load
--   through a bad pointer is a fault. Queue/Segment says when the pointers of a queue spell out a
--   list of requests. Queue/Spec is the queue as a list, and Queue/Refine holds the linked list
--   against it.
-- - Commands (src/commands.c, include/wirecommand/commands.h): the quoting of an argument, the
--   command line, and the run of a child. Commands/Shell is an independent reading of POSIX
--   quoting.
-- - Sockets (src/socket_utils.c): writing all of a region, and making a descriptor non-blocking.
-- - Logging (src/logging.c, include/wirecommand/logging.h): the minimum level, and the line that
--   a call writes.
-- - Programs (src/main_tcp.c, src/main_uds.c, src/main_uds_threaded.c): `main` of the servers,
--   from the command line to the exit status. The handler and its installing are written alike in
--   the three files, and modelled once. The dispositions of signals are in Sockets/Signals.
-- - Uds (src/server_uds.c): the client table (Uds/Table), reading and the entry into the queue
--   (Uds/Input), writing (Uds/Output), the responses (Uds/Respond), the processing of the queue
--   (Uds/Process), the event loop with the accepting of clients (Uds/Loop), and the run around it
--   (Uds/Main, Uds/Ended). Uds/Connected, Uds/Ready, Uds/Served, Uds/Invariant and Uds/Consistent
--   are about the invariant of the table and the queue, and Uds/Preserved is what the reading of
--   a client keeps. Uds/Watched is about the list that is polled. Uds/Ordered and Uds/Elsewhere
--   are about the order of the answers to each client, in the terms of Tcp/Served; for that a
--   `Client` of the model also has the bytes that its socket has given and taken. Uds/Admission
--   relates a stream of requests to the queue that it enters; Uds/Reading and Uds/Failing are
--   about the reading of a client when it succeeds and when it fails. The model stands on
--   Queue/Spec, not on the linked list. Uds/Plain has a request and calls for the tests.
-- - Tcp (src/server_tcp.c): the session of one worker (Tcp/Serve: a `Session` is its two buffers
--   with the bytes that its socket has given and taken, and a `Round` is what the calls of one
--   round of its loop return), the table of workers (Tcp/Table), and the threads as a step
--   relation (Tcp/System), in which any thread may go on at any time. Tcp/Invariant, Tcp/Safety,
--   Tcp/Stop and Tcp/Sessions are the theorems on it. Tcp/Main is `wc_server_tcp_run` as a
--   function of what its calls return, with Tcp/Ended on its end and Tcp/Handed on a client that
--   is accepted. A step of the main thread is one slot; before the stop, the main thread of the
--   model may reap or start in any free slot at any time, which includes what the loop of
--   `wc_server_tcp_run` does (it reaps after each accept, where that of src/server_uds_threaded.c
--   reaps at one place only); the relation does not say when it does so.
-- - Threaded (src/server_uds_threaded.c): its workers (Threaded/Serve) and its table
--   (Threaded/Table), written once more in the source and here. Threaded/Same and Threaded/Slots
--   compare them with those of Tcp; Threaded/System is the same relation of steps with the
--   operations of this server, and Threaded/Interleaved says that each step of it is one of
--   Tcp/System. Threaded/Main and Threaded/Ended are its run.
-- - Client (src/main_client.c): the command line (Client/Options), the loop that reads the
--   response and prints it (Client/Receive), and `main` with its exit statuses (Client/Main,
--   Client/Exit); Client/Whole is about what was read when a response was printed. Arguments is
--   what the programs use of the C library on the texts of a command line: `strcmp()`,
--   `strcasecmp()` in the POSIX locale and `strtoul()` with base 10 and 64 bits;
--   Arguments/Servers has the options of src/main_tcp.c, src/main_uds.c and
--   src/main_uds_threaded.c.
-- - Endpoints: the opening of the listeners of the three servers and the connecting of the
--   client; Endpoints/Closed says which descriptors they leave open.
-- - Exchange: the client and a worker together, from the request that is encoded to the response
--   that is printed; Exchange/Single is the same with the single-threaded server.
--
-- Fuel and bounds. The loops of Buffer, Commands and Uds run on fuel that the functions themselves
-- supply (the length of what is left, and one round more); the theorems show that it is enough, or
-- state the result without a condition on fuel. The loops of the queue take fuel from the queue's
-- `length` field, and their theorems say that they end. A loop over system calls runs on the list
-- of their results, and would block behind the last.
--
-- Parameters. `realloc()`, `malloc()` (as the pointer that it returns, or as a Boolean), `popen()`
-- with the child behind it, `read()`, `write()`, `send()`, `accept()`, `poll()`, `fcntl()`, the
-- locks, `pthread_create()`, `pthread_join()`, `strerror()` and `snprintf()` are arguments of the
-- definitions that use them. A client's descriptor is a number; `none` stands for -1 or any
-- negative one. What `wc_socket_set_nonblocking` gives is an argument of the code that calls it. A
-- slot of the table is named by its index where the code has a pointer to it.
--
-- Not modelled: the usage texts and `perror()`, the calls of the logger within the other parts
-- (they change no state of the callers and keep `errno`), the tests and the scripts. When a handler
-- runs is not modelled: that the stop flag is read as set is an argument of each loop. In
-- Tcp/System a failing `pthread_join()` before the stop leaves its slot in use, and is no step. In
-- Tcp/Main and Threaded/Main the workers enter only by the slots that they mark as finished between
-- two rounds.
pub mod Common
pub mod Buffer
pub mod Protocol
pub mod Queue
pub mod Commands
pub mod Sockets
pub mod Logging
pub mod Uds
pub mod Tcp
pub mod Threaded
pub mod Arguments
pub mod Client
pub mod Endpoints
pub mod Programs
pub mod Exchange

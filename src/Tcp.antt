-- ===== src/Tcp.antt =====
-- src/server_tcp.c: the server with a thread for each client. The children hold the session of one
-- worker, the table of workers, the interleaving of the threads, and the theorems on them. What the
-- system calls return is an argument.
pub mod Serve
pub mod Served
pub mod Rounds
pub mod Table
pub mod System
pub mod Invariant
pub mod Safety
pub mod Stop
pub mod Sessions
pub mod Handed
pub mod Main
pub mod Ended
pub mod Plain
mod Examples

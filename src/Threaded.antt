-- ===== src/Threaded.antt =====
-- src/server_uds_threaded.c: the server with a thread for each client over a Unix domain socket. Its
-- workers and its table are written once more in the source, and here; Threaded/Same holds them against
-- those of src/server_tcp.c.
pub mod Serve
pub mod Table
pub mod Same
pub mod Slots
pub mod Main
pub mod Ended
pub mod System
pub mod Interleaved
mod Examples

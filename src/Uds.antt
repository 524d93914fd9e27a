-- ===== src/Uds.antt =====
-- src/server_uds.c: the single-threaded server over `poll()`. The children hold its client table, its
-- input, its output, the processing of the queue and the event loop, and the theorems on them. What
-- the system calls return is an argument: a list of the results that a loop meets, or a value.
pub mod Table
pub mod Slots
pub mod Input
pub mod Admission
pub mod Entry
pub mod Arrival
pub mod Storing
pub mod Reading
pub mod Failing
pub mod Output
pub mod Respond
pub mod Response
pub mod Process
pub mod Drain
pub mod Loop
pub mod Preserved
pub mod Connected
pub mod Ready
pub mod Served
pub mod Bound
pub mod Run
pub mod Invariant
pub mod Consistent
pub mod Ordered
pub mod Elsewhere
pub mod Watched
pub mod Main
pub mod Ended
pub mod Plain
mod Examples

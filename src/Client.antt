-- ===== src/Client.antt =====
-- src/main_client.c: the client. The children hold the options and the reading of the response, with the
-- theorems on them.
pub mod Options
pub mod Receive
pub mod Printed
mod Whole
pub mod Main
pub mod Exit
mod Examples

-- ===== src/Endpoints/Plain.antt =====
-- Calls that open a socket: they are for the tests.
use wire_command_c.Common.{ok, fail, enoent, value}
use wire_command_c.Endpoints.{Calls, converted}

abbrev pub endpoint_calls : Calls
endpoint_calls = record {
  inet_pton = converted;
  socket = value 3;
  setsockopt = ok;
  nonblocking = ok;
  unlink = fail enoent;
  bind = ok;
  listen = ok;
  connect = ok;
}

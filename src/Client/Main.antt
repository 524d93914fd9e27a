-- ===== src/Client/Main.antt =====
-- `main` of src/main_client.c, from the command line to the exit status.
use wire_command_c.Common.{
  ℕ, Option, none, some, List, [], ◌∷◌, ◌==◌, if◌then◌else◌, Status, ok, fail, Outcome, value,
  error, Bytes, uint16_max,
}
use wire_command_c.Buffer.{Buffer, Realloc}
use wire_command_c.Protocol.{encode_request}
use wire_command_c.Sockets.{WriteResult, Written, returned, blocked, write_all}
use wire_command_c.Endpoints
use wire_command_c.Endpoints.{Opened, connect_uds, connect_tcp}
use wire_command_c.Client.Options.{Options, Command, parse_arguments}
use wire_command_c.Client.Receive.{ReadResult, receive_response}

-- What the calls return: `writes` are those of `write()` to the socket, `prints` those to the standard
-- output.
pub record MainCalls : Type 0 where
  pub realloc₁ : Realloc
  pub realloc₂ : Realloc
  pub ignore_sigpipe : Status
  pub endpoint : Endpoints.Calls
  pub writes : List WriteResult
  pub reads : List ReadResult
  pub prints : List WriteResult
  pub close : Status

-- The exit status, `none` if a call has not returned; what was written to the socket and to the standard
-- output; and the descriptors.
pub record Ended : Type 0 where
  pub status : Option ℕ
  pub sent : Bytes
  pub printed : Bytes
  pub opened : List ℕ
  pub closed : List ℕ

-- The buffer that the request is encoded into.
abbrev pub no_request : Buffer
no_request = record { block = none; length = 0; capacity = 0; max_size = uint16_max }

abbrev pub exited : ℕ → Ended
exited status = record { status = some status; sent = []; printed = []; opened = []; closed = [] }

abbrev pub waiting : ℕ → Bytes → Bytes → Ended
waiting fd sent printed = record {
  status = none;
  sent = sent;
  printed = printed;
  opened = fd ∷ [];
  closed = [];
}

-- `close()`, which makes a success a failure if it fails.
abbrev pub after_close : Status → ℕ → ℕ
after_close ok result = result
after_close (fail e) result = if result == 0 then 1 else result

abbrev pub closing : Status → ℕ → Bytes → Bytes → ℕ → Ended
closing close fd sent printed result = record {
  status = some (after_close close result);
  sent = sent;
  printed = printed;
  opened = fd ∷ [];
  closed = fd ∷ [];
}

unfoldable pub after_receive : Status → ℕ → Bytes → Written → Ended
after_receive close fd sent (returned ok printed) = closing close fd sent printed 0
after_receive close fd sent (returned (fail e) printed) = closing close fd sent printed 1
after_receive close fd sent (blocked printed) = waiting fd sent printed

unfoldable pub after_send : MainCalls → ℕ → Written → Ended
unfolding after_receive
after_send calls fd (returned ok sent) =
    after_receive calls.close fd sent (receive_response calls.prints calls.reads)
after_send calls fd (returned (fail e) sent) = closing calls.close fd sent [] 1
after_send calls fd (blocked sent) = waiting fd sent []

abbrev pub connect : Endpoints.Calls → Options → Opened
connect calls o = if o.use_tcp then connect_tcp calls else connect_uds calls o.socket_path

unfoldable pub after_connect : MainCalls → Buffer → Opened → Outcome ℕ → Ended
unfolding after_send
after_connect calls request o (error e) = record {
  status = some 1;
  sent = [];
  printed = [];
  opened = o.opened;
  closed = o.closed;
}
after_connect calls request o (value fd) =
    after_send calls fd (write_all calls.writes request.block request.length)

unfoldable pub after_sigpipe : MainCalls → Command → Buffer → Status → Ended
unfolding after_connect
after_sigpipe calls command request (fail e) = exited 1
after_sigpipe calls command request ok =
    let o = connect calls.endpoint command.options in after_connect calls request o o.result

unfoldable pub after_encode : MainCalls → Command → Status × Buffer → Ended
unfolding after_sigpipe
after_encode calls command (fail e, request) = exited 1
after_encode calls command (ok, request) = after_sigpipe calls command request calls.ignore_sigpipe

unfoldable pub after_arguments : MainCalls → Option Command → Ended
unfolding after_encode
after_arguments calls none = exited 2
after_arguments calls (some command) = after_encode calls command (
    encode_request calls.realloc₁ calls.realloc₂ no_request command.type command.argument
      command.argument_length)

unfoldable pub run_client : MainCalls → List Bytes → Ended
unfolding after_arguments
run_client calls arguments = after_arguments calls (parse_arguments arguments)

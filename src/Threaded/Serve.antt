-- ===== src/Threaded/Serve.antt =====
-- The session of one worker of src/server_uds_threaded.c. The types of the system calls' results are
-- those of Tcp/Serve.
use wire_command_c.Common.{
  ℕ, Bool, true, false, Option, none, some, List, [], ◌∷◌, ◌++◌, ◌==◌, ◌&&◌, if◌then◌else◌, not,
  ltb, min, length, take, sub_size, Status, ok, fail, Errno, einval, emsgsize, eproto, econnreset,
  Bytes, uint16_max,
}
use wire_command_c.Buffer.{Buffer, append, consume}
use wire_command_c.Buffer.Contents.{contents}
use wire_command_c.Protocol.{
  ParseResult, RequestType, Request, complete, need_more, invalid, request_ls, request_pwd,
  request_cat, parse_request,
}
use wire_command_c.Commands.{Environment, CommandResult, no_result, ls, pwd, cat}
use wire_command_c.Uds.Respond.{Calls, respond}
use wire_command_c.Tcp.Serve.{
  Processed, ReadResult, got, end_of_stream, read_again, read_failed, Moved, stored, SendResult,
  sent, send_again, send_failed, taken, Session, PollResult, poll_interrupted, poll_failed,
  timed_out, ready, Round, Turn,
}

abbrev pub read_size : ℕ
read_size = 4096

abbrev pub input_limit : ℕ
input_limit = uint16_max

abbrev pub output_limit : ℕ
output_limit = 65537

abbrev pub room : Buffer → ℕ
room input =
    let available = sub_size input.max_size input.length in
    if ltb available read_size then available else read_size

unfoldable pub run_command : Environment → RequestType → Option Bytes → ℕ → Status × CommandResult
run_command env type argument argument_length =
    if type == request_ls
    then ls env argument argument_length uint16_max
    else if type == request_pwd
    then (if not (argument_length == 0) then (fail einval, no_result) else pwd env uint16_max)
    else if type == request_cat
    then cat env argument argument_length uint16_max
    else (fail einval, no_result)

-- The lines behind the command are those of `wc_uds_encode_command_response` (Uds/Respond).
unfoldable pub encode_response : Calls → Buffer → Request → Status × Buffer
unfolding run_command
encode_response calls output request =
    respond calls output
      (run_command calls.command request.type (some request.argument) request.argument_length)

-- What follows the response to a request of `consumed` bytes.
unfoldable pub after_encode : Buffer → ℕ → Status × Buffer → Processed
after_encode input consumed (fail e, output) = (fail e, input, output)
after_encode input consumed (ok, output) =
    let (s, input') = consume input consumed in (s, input', output)

-- What the parser has found in the input.
unfoldable pub on_parse : Calls → Buffer → Buffer → ParseResult Request → Processed
unfolding after_encode
on_parse calls input output need_more = (ok, input, output)
on_parse calls input output invalid = (fail eproto, input, output)
on_parse calls input output (complete request consumed) =
    after_encode input consumed (encode_response calls output request)

unfoldable pub process_request : Calls → Buffer → Buffer → Processed
unfolding on_parse
process_request calls input output =
    on_parse calls input output (parse_request input.block input.length)

-- The result of a `read()` into a buffer with room for some bytes.
unfoldable pub on_read : ReadResult → Buffer → Moved
on_read (got realloc xs) input =
    let chunk = take (room input) xs in
    if length chunk == 0
    then (fail econnreset, input, [])
    else stored (take (room input) xs) (append realloc input (some chunk) (length chunk))
on_read end_of_stream input = (fail econnreset, input, [])
on_read read_again input = (ok, input, [])
on_read (read_failed e) input = (fail e, input, [])

unfoldable pub read : ReadResult → Buffer → Moved
unfolding on_read
read r input = if room input == 0 then (fail emsgsize, input, []) else on_read r input

-- A `send()` of 0 bytes leaves `errno` as it was `before`.
unfoldable pub write : Errno → SendResult → Buffer → Moved
write before (sent n) output =
    let bytes_written = min n output.length in
    if bytes_written == 0
    then (fail before, output, [])
    else taken (take bytes_written (contents output)) (consume output bytes_written)
write before send_again output = (ok, output, [])
write before (send_failed e) output = (fail e, output, [])

unfoldable pub after_write : Bool → Bool → Session → Moved → Turn
after_write broken hung_up s (fail e, output, xs) =
    (false, record s { output = output; sent_bytes = s.sent_bytes ++ xs })
after_write broken hung_up s (ok, output, xs) =
    let s' : Session = record s { output = output; sent_bytes = s.sent_bytes ++ xs } in
    if broken
    then (false, s')
    else if hung_up && output.length == 0
    then (false, s')
    else (true, s')

unfoldable pub after_read : Round → Bool → Bool → Bool → Session → Moved → Turn
unfolding after_write
after_read round writable broken hung_up s (fail e, input, xs) =
    (false, record s { input = input; received = s.received ++ xs })
after_read round writable broken hung_up s (ok, input, xs) =
    after_write broken hung_up (record s { input = input; received = s.received ++ xs })
      (if writable
        then write round.errno_before_send round.sending s.output
        else (ok, s.output, []))

unfoldable pub after_poll : Round → Session → PollResult → Turn
unfolding after_read
after_poll round s poll_interrupted = (true, s)
after_poll round s poll_failed = (false, s)
after_poll round s timed_out = (true, s)
after_poll round s (ready readable writable broken hung_up) =
    after_read round writable broken hung_up s
      (if readable then read round.reading s.input else (ok, s.input, []))

unfoldable pub after_process : Round → Session → Processed → Turn
unfolding after_poll
after_process round s (fail e, input, output) = (false, record s { input = input; output = output })
after_process round s (ok, input, output) =
    after_poll round (record s { input = input; output = output }) round.poll

unfoldable pub worker_round : Round → Session → Turn
unfolding after_process
worker_round round s = after_process round s (
    if s.output.length == 0
    then process_request round.calls s.input s.output
    else (ok, s.input, s.output))

-- The loop over its rounds, until one breaks it; true if none has.
unfoldable pub worker_loop : List Round → Session → Turn
unfolding worker_round
worker_loop [] s = (true, s)
worker_loop (round ∷ rounds) s =
    let (go_on, s') = worker_round round s in
    let rest = worker_loop rounds s' in if go_on then rest else (false, s')

-- The buffers at the start of `wc_threaded_uds_worker_main`.
abbrev pub fresh : Session
fresh = record {
  input = record { block = none; length = 0; capacity = 0; max_size = input_limit };
  output = record { block = none; length = 0; capacity = 0; max_size = output_limit };
  received = [];
  sent_bytes = [];
}

-- ===== src/Threaded/Same.antt =====
-- The workers and the slots of src/server_uds_threaded.c do what those of src/server_tcp.c do.
use wire_command_c.Common.{
  ℕ, ◌≡◌, refl, ◌∙◌, Bool, List, [], ◌∷◌, ◌++◌, ap, Status, ok, fail, Errno,
}
use wire_command_c.Buffer.{Buffer}
use wire_command_c.Protocol.{ParseResult, complete, need_more, invalid, Request, parse_request}
use wire_command_c.Uds.Respond.{Calls}
use wire_command_c.Tcp.Serve
use wire_command_c.Tcp.Serve.{
  ReadResult, got, end_of_stream, read_again, read_failed, SendResult, sent, send_again,
  send_failed, Session, Round, Processed, Moved, PollResult, poll_interrupted, poll_failed,
  timed_out, ready,
}
use wire_command_c.Threaded.Serve.{
  encode_response, run_command, after_encode, on_parse, process_request, on_read, read, write,
  after_write, after_read, after_poll, after_process, worker_round, worker_loop,
}

encode_response-same :
    (calls : Calls) (output : Buffer) (r : Request)
    → encode_response calls output r ≡ Serve.encode_response calls output r
unfolding encode_response run_command Serve.encode_response Serve.run_command
encode_response-same calls output r = refl

after_encode-same :
    (input : Buffer) (k : ℕ) (x : Status × Buffer)
    → after_encode input k x ≡ Serve.after_encode input k x
unfolding after_encode Serve.after_encode
after_encode-same input k (ok, output) = refl
after_encode-same input k (fail e, output) = refl

on_parse-same :
    (calls : Calls) (input output : Buffer) (p : ParseResult Request)
    → on_parse calls input output p ≡ Serve.on_parse calls input output p
unfolding on_parse Serve.on_parse
on_parse-same calls input output need_more = refl
on_parse-same calls input output invalid = refl
on_parse-same calls input output (complete r k) =
    ap (after_encode input k) (encode_response-same calls output r)
    ∙ after_encode-same input k (Serve.encode_response calls output r)

process_request-same :
    (calls : Calls) (input output : Buffer)
    → process_request calls input output ≡ Serve.process_request calls input output
unfolding process_request Serve.process_request
process_request-same calls input output =
    on_parse-same calls input output (parse_request input.block input.length)

on_read-same : (r : ReadResult) (input : Buffer) → on_read r input ≡ Serve.on_read r input
unfolding on_read Serve.on_read
on_read-same (got realloc xs) input = refl
on_read-same end_of_stream input = refl
on_read-same read_again input = refl
on_read-same (read_failed e) input = refl

read-same : (r : ReadResult) (input : Buffer) → read r input ≡ Serve.read_client r input
unfolding read Serve.read_client
read-same r input = rw (on_read-same r input) refl

write-same :
    (errno : Errno) (r : SendResult) (output : Buffer)
    → write errno r output ≡ Serve.write_client errno r output
unfolding write Serve.write_client
write-same errno (sent n) output = refl
write-same errno send_again output = refl
write-same errno (send_failed e) output = refl

after_write-same :
    (broken hung_up : Bool) (s : Session) (x : Moved)
    → after_write broken hung_up s x ≡ Serve.after_write broken hung_up s x
unfolding after_write Serve.after_write
after_write-same broken hung_up s (ok, output, xs) = refl
after_write-same broken hung_up s (fail e, output, xs) = refl

after_read-same :
    (round : Round) (writable broken hung_up : Bool) (s : Session) (x : Moved)
    → after_read round writable broken hung_up s x
      ≡ Serve.after_read round writable broken hung_up s x
unfolding after_read Serve.after_read
after_read-same round writable broken hung_up s (fail e, input, xs) = refl
after_read-same round writable broken hung_up s (ok, input, xs) =
    rw (write-same round.errno_before_send round.sending s.output)
      (after_write-same broken hung_up (record s { input = input; received = s.received ++ xs }) _)

after_poll-same :
    (round : Round) (s : Session) (p : PollResult)
    → after_poll round s p ≡ Serve.after_poll round s p
unfolding after_poll Serve.after_poll
after_poll-same round s poll_interrupted = refl
after_poll-same round s poll_failed = refl
after_poll-same round s timed_out = refl
after_poll-same round s (ready readable writable broken hung_up) =
    rw (read-same round.reading s.input) (after_read-same round writable broken hung_up s _)

after_process-same :
    (round : Round) (s : Session) (x : Processed)
    → after_process round s x ≡ Serve.after_process round s x
unfolding after_process Serve.after_process
after_process-same round s (fail e, input, output) = refl
after_process-same round s (ok, input, output) = after_poll-same round _ round.poll

pub worker_round-same :
    (round : Round) (s : Session) → worker_round round s ≡ Serve.worker_round round s
unfolding worker_round Serve.worker_round
worker_round-same round s =
    rw (process_request-same round.calls s.input s.output) (after_process-same round s _)

-- A worker of the threaded server over a Unix domain socket runs through the same sessions as one of the
-- server over TCP, with the same bytes received and sent, whatever the system calls return.
pub worker_loop-same :
    (rounds : List Round) (s : Session) → worker_loop rounds s ≡ Serve.worker_loop rounds s
unfolding worker_loop Serve.worker_loop
worker_loop-same [] s = refl
worker_loop-same (round ∷ rounds) s =
    rw (worker_round-same round s, worker_loop-same rounds (Serve.worker_round round s).1) refl

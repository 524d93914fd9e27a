-- ===== src/Uds/Examples.antt =====
-- The theorems on src/server_uds.c at concrete inputs.
use wire_command_c.Common.{
  All, ◌≡◌, ℕ, ok, refl, true, false, some, none, [], List, ◌∷◌, arith, other, codes,
}
use wire_command_c.Buffer.{Buffer, append, consume}
use wire_command_c.Buffer.Contents.{IsValid}
use wire_command_c.Buffer.Plain.{plain_realloc, plain-IsRealloc}
use wire_command_c.Uds.Plain.{pwd_frame, calls}
use wire_command_c.Protocol.{request_pwd, parse_request}
use wire_command_c.Protocol.Stream.{cut-nil}
use wire_command_c.Queue.{QueuedRequest}
use wire_command_c.Queue.Spec
use wire_command_c.Uds.Table.{Client, Clients, input_limit, output_limit}
use wire_command_c.Uds.Slots.{get_slot}
use wire_command_c.Uds.Input.{
  ReadResult, store_appended, enqueue_complete_requests, read_client, got, interrupted, would_block,
}
use wire_command_c.Uds.Arrival.{Admitted, enqueue_complete_requests-Admitted}
use wire_command_c.Uds.Reading.{ReadBy}
use wire_command_c.Uds.Failing.{FailsBy, read_client_lem}
use wire_command_c.Uds.Respond.{Calls, run_command, encode_command_response}
use wire_command_c.Uds.Response.{Responded, response_text, encode_command_response-Responded}
use wire_command_c.Uds.Process.{set_slot, build_poll_list, process_queue}
use wire_command_c.Uds.Loop.{PollResult, polled, connected, run_loop, serve_all}
use wire_command_c.Uds.Bound.{IsBounded}
use wire_command_c.Uds.Run.{run_loop-IsBounded}
use wire_command_c.Uds.Invariant.{IsConsistent}
use wire_command_c.Uds.Consistent.{IsSoundRun, run_loop-IsConsistent}
use wire_command_c.Endpoints.Plain.{endpoint_calls}
use wire_command_c.Uds.Main.{RunCalls, run_server}
use wire_command_c.Uds.Ended.{IsEmptied, run_server-IsEmptied}
use wire_command_c.Uds.Watched.{Polled, build_poll_list-Polled, Awaited, process_queue-Awaited}

abbrev idle_output : Buffer
idle_output = record { block = none; length = 0; capacity = 0; max_size = output_limit }

abbrev reader : Client
reader = record {
  fd = some 5;
  input = record { block = none; length = 0; capacity = 0; max_size = input_limit };
  output = idle_output;
  received = [];
  sent_bytes = [];
}

-- A client with one request in its input.
abbrev sender : Client
sender = record reader {
  input = record { block = some pwd_frame; length = 6; capacity = 6; max_size = input_limit };
}

reader-IsValid : IsValid reader.input
reader-IsValid = omega arith

sender-IsValid : IsValid sender.input
sender-IsValid = omega arith

enqueue_complete_requests-Admitted_example :
    Admitted (λ k. true) 5 sender [] (enqueue_complete_requests (λ k. true) sender [])
enqueue_complete_requests-Admitted_example =
    enqueue_complete_requests-Admitted 5 (λ k. true) sender [] refl sender-IsValid (omega arith)

abbrev reads : List ReadResult
reads = interrupted ∷ got plain_realloc (λ k. true) pwd_frame ∷ would_block ∷ []

read_client_lem_example :
    ReadBy 5 reader [] reads (read_client (other 0) reads reader [])
    × FailsBy 5 (other 0) reader [] reads (read_client (other 0) reads reader [])
read_client_lem_example =
    read_client_lem 5 (other 0) reads reader [] refl reader-IsValid (omega arith) ([], cut-nil)
      (tt, (plain-IsRealloc, (tt, tt)))

abbrev table : Clients
table = reader ∷ record reader { fd = none } ∷ []

abbrev request : QueuedRequest
request = record { client_fd = 5; type = request_pwd; argument_length = 0; argument = [] }

encode_command_response-Responded_example :
    Responded calls idle_output
      (response_text calls (run_command calls.command request))
      (encode_command_response calls idle_output request)
encode_command_response-Responded_example =
    encode_command_response-Responded calls idle_output request (λ k. plain-IsRealloc)
      plain-IsRealloc plain-IsRealloc (record { valid = omega arith; empty = refl; limit = refl })

-- A round in which the reader sends PWD.
abbrev rounds : List ((ℕ → Calls) × PollResult)
rounds =
    (
      λ k. calls,
      polled false true
          (record {
            index = 0;
            readable = true;
            reads = reads;
            errno_before_reads = other 0;
            writable = false;
            writes = [];
            errno_before_writes = other 0;
            hung_up = false;
          }
            ∷ [])
          (connected 6 ok ∷ []),
    )
    ∷ []

run_loop-IsBounded_example : IsBounded (run_loop rounds table []).2
run_loop-IsBounded_example = run_loop-IsBounded rounds table [] (omega arith)

table-IsConsistent : IsConsistent (λ c. c ≡ calls) table []
table-IsConsistent = record {
  ready = (
    record {
      input_valid = reader-IsValid;
      input_max = refl;
      drained = ([], cut-nil);
      output_valid = omega arith;
      output_max = refl;
    },
    (tt, tt),
  );
  distinct = (refl, (tt, tt));
  waiting = tt;
  ordered = (
    record {
      answered = [];
      waiting = [];
      stream = refl;
      replies = refl;
      queue = refl;
      carried = tt;
    },
    (tt, tt),
  );
}

rounds-IsSoundRun : IsSoundRun rounds table []
unfolding run_loop process_queue serve_all get_slot set_slot read_client store_appended append
    enqueue_complete_requests parse_request Spec.enqueue consume
rounds-IsSoundRun = (
  λ k. (λ j. plain-IsRealloc, plain-IsRealloc, plain-IsRealloc),
  ((tt, (plain-IsRealloc, (tt, tt))), tt),
  (refl, tt),
  tt,
)

-- All rounds have the same calls.
rounds-Uses : All (λ round. (k : ℕ) → round.0 k ≡ calls) rounds
rounds-Uses = (λ k. refl, tt)

run_loop-IsConsistent_example :
    (let x = run_loop rounds table [] in IsConsistent (λ c. c ≡ calls) x.1 x.2)
run_loop-IsConsistent_example =
    run_loop-IsConsistent (λ c. c ≡ calls) rounds table [] rounds-Uses rounds-IsSoundRun
      table-IsConsistent

abbrev run_calls : RunCalls
run_calls = record { endpoint = endpoint_calls; rounds = rounds; close = ok; unlink = ok }

run_server-IsEmptied_example : IsEmptied (run_server run_calls true (some (codes "/tmp/s")) table)
run_server-IsEmptied_example = run_server-IsEmptied run_calls true (some (codes "/tmp/s")) table

build_poll_list-Polled_example : Polled 3 table (build_poll_list 3 table)
build_poll_list-Polled_example = build_poll_list-Polled 3 table

process_queue-Awaited_example :
    Awaited 3 (process_queue (λ k. calls) table (request ∷ request ∷ []))
process_queue-Awaited_example = process_queue-Awaited 3 (λ k. calls) table (request ∷ request ∷ [])

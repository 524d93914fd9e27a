-- ===== src/Exchange/Run.antt =====
-- A run of src/server_uds.c that answers PWD to its one client.
use wire_command_c.Common.{
  ◌≡◌, ℕ, Bool, true, false, other, refl, none, some, [], List, ◌∷◌, ◌++◌, ok,
}
use wire_command_c.Buffer.{
  init, consume, append, grow, new_capacity, grow_loop, first_capacity, copy_in,
}
use wire_command_c.Buffer.Plain.{plain_realloc, plain-IsRealloc, zeros}
use wire_command_c.Protocol.{request_pwd, append_frame, parse_request, encode_response}
use wire_command_c.Uds.Plain.{pwd_frame, calls}
use wire_command_c.Uds.Respond.{Calls}
use wire_command_c.Uds.Input
use wire_command_c.Uds.Output.{SendResult, sent, write_client, on_send, after_consume}
use wire_command_c.Uds.Table.{Client, clients_init, has_free_client_slot, add_client, find_client}
use wire_command_c.Uds.Slots.{get_slot}
use wire_command_c.Uds.Process.{
  set_slot, process_queue, process_loop, on_first, answered as answered_by,
}
use wire_command_c.Queue.{QueuedRequest}
use wire_command_c.Queue.Spec
use wire_command_c.Commands.{
  pwd, run, read_loop, append_chunk, finish, strip_newline, result_destroy,
}
use wire_command_c.Uds.Respond.{
  respond, encode_text, text_length, written, run_command, encode_command_response,
}
use wire_command_c.Uds.Loop.{
  Events, PollResult, polled, connected, serve_all, run_loop, serve, admit, accept_clients,
  after_read, after_write,
}
use wire_command_c.Uds.Consistent.{IsSoundRun}

-- One slot of the single-threaded server, which a client takes, sends its request in, and is answered in.
abbrev pub slot : Client
slot = record {
  fd = none;
  input = record { block = none; length = 0; capacity = 0; max_size = 65535 };
  output = record { block = none; length = 0; capacity = 0; max_size = 65537 };
  received = [];
  sent_bytes = [];
}

abbrev events : Bool → List Input.ReadResult → Bool → List SendResult → Events
events readable reads' writable writes = record {
  index = 0;
  readable = readable;
  reads = reads';
  errno_before_reads = other 0;
  writable = writable;
  writes = writes;
  errno_before_writes = other 0;
  hung_up = false;
}

abbrev pub single_rounds : List ((ℕ → Calls) × PollResult)
single_rounds =
    (λ k. calls, polled false true [] (connected 5 ok ∷ []))
    ∷ (
      λ k. calls,
      polled false false
          (events true (Input.got plain_realloc (λ k. true) pwd_frame ∷ Input.would_block ∷ [])
              false []
            ∷ [])
          [],
    )
    ∷ (λ k. calls, polled false false (events false [] true (sent 9 ∷ []) ∷ []) [])
    ∷ []

abbrev pub served : Client
served = record {
  fd = some 5;
  input = record {
    block = some (pwd_frame ++ zeros 58);
    length = 0;
    capacity = 64;
    max_size = 65535;
  };
  output = record {
    block = some (0 ∷ 1 ∷ 47 ∷ zeros 61);
    length = 0;
    capacity = 64;
    max_size = 65537;
  };
  received = pwd_frame;
  sent_bytes = 0 ∷ 1 ∷ 47 ∷ [];
}

pub single_rounds-IsSoundRun : IsSoundRun single_rounds (clients_init (slot ∷ [])) []
unfolding process_queue serve_all clients_init
single_rounds-IsSoundRun = (
  λ k. (λ j. plain-IsRealloc, plain-IsRealloc, plain-IsRealloc),
  tt,
  (refl, tt),
  (
    λ k. (λ j. plain-IsRealloc, plain-IsRealloc, plain-IsRealloc),
    ((plain-IsRealloc, (tt, tt)), tt),
    tt,
    (λ k. (λ j. plain-IsRealloc, plain-IsRealloc, plain-IsRealloc), (tt, tt), tt, tt),
  ),
)

-- The client with its request in the queue, and with the response in its output.
abbrev asked : Client
asked = record served { output = slot.output; sent_bytes = [] }

abbrev answered_client : Client
answered_client = record served { output = record served.output { length = 3 }; sent_bytes = [] }

abbrev waiting : QueuedRequest
waiting = record { client_fd = 5; type = request_pwd; argument_length = 0; argument = [] }

accepted : admit (clients_init (slot ∷ [])) 5 ok ≡ record slot { fd = some 5 } ∷ []
unfolding admit add_client init clients_init
accepted = refl

has_read :
    serve
      (events true
        (Input.got plain_realloc (λ k. true) pwd_frame ∷ Input.would_block ∷ [])
        false
        [])
      (record slot { fd = some 5 })
      []
    ≡ (asked, waiting ∷ [])
unfolding serve Input.read_client Input.on_read Input.store_bytes Input.store_appended
    Input.next_round Input.enqueue_complete_requests Input.enqueue_loop Input.take_request
    Input.consume_queued append grow new_capacity grow_loop first_capacity copy_in parse_request
    Spec.enqueue consume after_read after_write
has_read = refl

has_answered : process_queue (λ k. calls) (asked ∷ []) (waiting ∷ []) ≡ (answered_client ∷ [], [])
unfolding process_queue process_loop on_first find_client get_slot encode_command_response
    run_command pwd run read_loop append_chunk finish strip_newline result_destroy respond
    encode_text text_length written encode_response append_frame append grow new_capacity grow_loop
    first_capacity copy_in answered_by set_slot
has_answered = refl

has_sent : serve (events false [] true (sent 9 ∷ [])) answered_client [] ≡ (served, [])
unfolding serve after_read after_write write_client on_send after_consume consume
has_sent = refl

pub single_rounds-served :
    get_slot (run_loop single_rounds (clients_init (slot ∷ [])) []).1 0 ≡ some served
unfolding run_loop process_queue process_loop serve_all get_slot set_slot accept_clients
    has_free_client_slot clients_init
single_rounds-served = rw (accepted, has_read, has_answered, has_sent) refl

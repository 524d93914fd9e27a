-- ===== src/Tcp/Plain.antt =====
-- A run of one worker of src/server_tcp.c that answers PWD.
use wire_command_c.Common.{ok, some, ◌++◌, ℕ, ◌≡◌, refl, true, false, none, [], List, ◌∷◌, other}
use wire_command_c.Buffer.Plain.{zeros, plain_realloc, plain-IsRealloc}
use wire_command_c.Uds.Plain.{pwd_frame, calls}
use wire_command_c.Buffer.{append, grow, new_capacity, grow_loop, first_capacity, copy_in, consume}
use wire_command_c.Protocol
use wire_command_c.Protocol.{parse_request, append_frame}
use wire_command_c.Commands.{
  pwd, run, read_loop, append_chunk, finish, strip_newline, result_destroy,
}
use wire_command_c.Uds.Respond.{respond, encode_text, text_length, written}
use wire_command_c.Tcp.Serve.{
  after_process, after_poll, after_read, after_write, read_client, on_read, process_request,
  on_parse, encode_response, after_encode, run_command, write_client, got, sent, ready, read_again,
  Session, Round, worker_loop, worker_round, fresh,
}
use wire_command_c.Tcp.Rounds.{IsSoundRound}

-- A round in which the request for PWD arrives, and one in which the response is taken.
abbrev pub reading : Round
reading = record {
  calls = calls;
  poll = ready true false false false;
  reading = got plain_realloc pwd_frame;
  sending = sent 0;
  errno_before_send = other 0;
}

abbrev pub writing : ℕ → Round
writing n = record {
  calls = calls;
  poll = ready false true false false;
  reading = read_again;
  sending = sent n;
  errno_before_send = other 0;
}

pub reading-IsSoundRound : IsSoundRound reading
reading-IsSoundRound = record {
  sound_calls = (λ k. plain-IsRealloc, plain-IsRealloc, plain-IsRealloc);
  sound_read = plain-IsRealloc;
}

pub writing-IsSoundRound : (n : ℕ) → IsSoundRound (writing n)
writing-IsSoundRound n = record {
  sound_calls = (λ k. plain-IsRealloc, plain-IsRealloc, plain-IsRealloc);
  sound_read = tt;
}

abbrev pub rounds : List Round
rounds = reading ∷ writing 9 ∷ []

abbrev pub after_reading : Session
after_reading = record {
  input = record {
    block = some (pwd_frame ++ zeros 58);
    length = 6;
    capacity = 64;
    max_size = 65535;
  };
  output = record { block = none; length = 0; capacity = 0; max_size = 65537 };
  received = pwd_frame;
  sent_bytes = [];
}

pub reading-after_reading : worker_round reading fresh ≡ (true, after_reading)
unfolding worker_loop worker_round after_process after_poll after_read after_write read_client
    on_read process_request on_parse encode_response after_encode run_command write_client append
    grow new_capacity grow_loop first_capacity copy_in consume parse_request
    Protocol.encode_response append_frame pwd run read_loop append_chunk finish strip_newline
    result_destroy respond encode_text text_length written
reading-after_reading = refl

process_request-pwd : process_request calls after_reading.input after_reading.output ≡ (
  ok,
  record { block = some (pwd_frame ++ zeros 58); length = 0; capacity = 64; max_size = 65535 },
  record { block = some (0 ∷ 1 ∷ 47 ∷ zeros 61); length = 3; capacity = 64; max_size = 65537 },
)
unfolding worker_loop worker_round after_process after_poll after_read after_write read_client
    on_read process_request on_parse encode_response after_encode run_command write_client append
    grow new_capacity grow_loop first_capacity copy_in consume parse_request
    Protocol.encode_response append_frame pwd run read_loop append_chunk finish strip_newline
    result_destroy respond encode_text text_length written
process_request-pwd = refl

abbrev pub after_writing : Session
after_writing = record {
  input = record {
    block = some (pwd_frame ++ zeros 58);
    length = 0;
    capacity = 64;
    max_size = 65535;
  };
  output = record {
    block = some (0 ∷ 1 ∷ 47 ∷ zeros 61);
    length = 0;
    capacity = 64;
    max_size = 65537;
  };
  received = pwd_frame;
  sent_bytes = 0 ∷ 1 ∷ 47 ∷ [];
}

writing-sent : worker_round (writing 9) after_reading ≡ (true, after_writing)
unfolding worker_round after_process after_poll after_read after_write write_client consume
writing-sent = rw process_request-pwd refl

pub rounds-after_writing : worker_loop rounds fresh ≡ (true, after_writing)
unfolding worker_loop
rounds-after_writing = rw (reading-after_reading, writing-sent) refl

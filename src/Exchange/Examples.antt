-- ===== src/Exchange/Examples.antt =====
-- The theorem on an exchange at a concrete one: PWD.
use wire_command_c.Common.{◌≡◌, refl, ap, none, some, [], List, ◌∷◌, ◌++◌, arith, ok, length}
use wire_command_c.Buffer.{Buffer}
use wire_command_c.Buffer.{append, grow, new_capacity, grow_loop, first_capacity, copy_in}
use wire_command_c.Buffer.Plain.{plain_realloc, plain-IsRealloc, zeros}
use wire_command_c.Protocol.{request_pwd, encode_request, append_frame}
use wire_command_c.Protocol.Parse.{request_of}
use wire_command_c.Sockets.{write_all}
use wire_command_c.Client.Receive.{receive_response}
use wire_command_c.Client.Receive.{ReadResult, got}
use wire_command_c.Client.Printed.{Delivers, all_there, piece}
use wire_command_c.Uds.Plain.{pwd_frame}
use wire_command_c.Uds.Respond.{Calls}
use wire_command_c.Tcp.Served.{reply}
use wire_command_c.Tcp.Plain.{
  rounds, after_writing, rounds-after_writing, reading-IsSoundRound, writing-IsSoundRound,
}
use wire_command_c.Exchange.{Printed, IsOfRound, exchange}
use wire_command_c.Exchange.Single.{IsOfRun, exchange_single}
use wire_command_c.Exchange.Run.{
  slot, single_rounds, served, single_rounds-IsSoundRun, single_rounds-served,
}
use wire_command_c.Client.Main.{no_request}

-- The encoded request.
abbrev request : Buffer
request = record {
  block = some (pwd_frame ++ zeros 58);
  length = 6;
  capacity = 64;
  max_size = 65535;
}

request-encoded :
    encode_request plain_realloc plain_realloc no_request request_pwd none 0 ≡ (ok, request)
unfolding encode_request append_frame append grow new_capacity grow_loop first_capacity copy_in
request-encoded = refl

abbrev reads : List ReadResult
reads = got plain_realloc (0 ∷ 1 ∷ 47 ∷ []) ∷ []

reads-Delivers : Delivers reads after_writing.sent_bytes
reads-Delivers =
    piece plain_realloc (0 ∷ 1 ∷ 47 ∷ []) plain-IsRealloc (λ p n. cc) (omega arith) (omega arith)
      all_there

exchange_example :
    (calls : Calls) × IsOfRound rounds calls
    × (let text = reply (calls, request_of request_pwd []) in
        receive_response [] reads ≡ write_all [] (some text) (length text))
exchange_example =
    exchange plain_realloc plain_realloc request_pwd none 0 rounds after_writing [] plain-IsRealloc
      plain-IsRealloc (omega arith) request-encoded
      (reading-IsSoundRound, (writing-IsSoundRound 9, tt))
      (ap (λ turn. turn.1) rounds-after_writing) refl refl (λ e. cc) reads-Delivers

exchange_single_example : Printed (IsOfRun single_rounds) request_pwd none 0 [] reads
exchange_single_example =
    exchange_single plain_realloc plain_realloc request_pwd none 0 single_rounds (slot ∷ []) 0 5
      served [] plain-IsRealloc plain-IsRealloc (omega arith) request-encoded
      single_rounds-IsSoundRun single_rounds-served refl refl refl (λ e. cc) reads-Delivers

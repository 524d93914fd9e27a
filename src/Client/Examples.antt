-- ===== src/Client/Examples.antt =====
-- The theorems on src/main_client.c at concrete inputs.
use wire_command_c.Common.{All, ok, ◌≡◌, refl, some, [], ◌∷◌, List, arith, Bytes, codes, true}
use wire_command_c.Buffer.Plain.{plain_realloc, plain-IsRealloc}
use wire_command_c.Sockets.{write_all}
use wire_command_c.Sockets.Laws.{WrittenOf}
use wire_command_c.Arguments.{strtoul, unsigned_or_none}
use wire_command_c.Client.Whole.{IsSoundRead}
use wire_command_c.Client.Main.{MainCalls, run_client}
use wire_command_c.Client.Exit.{IsExit, run_client-IsExit}
use wire_command_c.Endpoints.Plain.{endpoint_calls}
use wire_command_c.Sockets.{wrote, write_interrupted}
use wire_command_c.Client.Receive.{ReadResult, got, interrupted, receive_response}
use wire_command_c.Client.Printed.{Delivers, all_there, again, piece, receive_response-frame}
use wire_command_c.Client.Options.{
  parse_port, Options, default_options, parse_options, parse_arguments, option_turn,
}
use wire_command_c.Client.Options.Checked.{IsChecked, parse_options-IsChecked}

-- The response of one slash, whose first byte arrives alone.
abbrev reads : List ReadResult
reads = got plain_realloc (0 ∷ []) ∷ interrupted ∷ got plain_realloc (1 ∷ 47 ∷ []) ∷ []

reads-Delivers : Delivers reads (0 ∷ 1 ∷ 47 ∷ [])
reads-Delivers =
    piece plain_realloc (0 ∷ []) plain-IsRealloc (λ p n. cc) (omega arith) (omega arith)
      (again (
        piece plain_realloc (1 ∷ 47 ∷ []) plain-IsRealloc (λ p n. cc) (omega arith) (omega arith)
          all_there))

receive_response-frame_example :
    (receive_response [] reads ≡ write_all [] (some (47 ∷ [])) 1)
    × WrittenOf (47 ∷ []) (receive_response [] reads)
receive_response-frame_example = receive_response-frame [] (47 ∷ []) (omega arith) reads-Delivers

abbrev arguments : List Bytes
arguments = codes "--port" ∷ codes "80" ∷ codes "PWD" ∷ []

abbrev options : Options
options = record default_options { tcp_port = 80; use_tcp = true }

arguments-options : parse_options default_options arguments ≡ some (options, codes "PWD" ∷ [])
unfolding parse_options option_turn parse_port strtoul unsigned_or_none
arguments-options = refl

parse_options-IsChecked_example : IsChecked options
parse_options-IsChecked_example =
    parse_options-IsChecked arguments (codes "PWD" ∷ []) options arguments-options

-- Calls by which the client sends its request in two pieces and prints one byte.
abbrev main_calls : MainCalls
main_calls = record {
  realloc₁ = plain_realloc;
  realloc₂ = plain_realloc;
  ignore_sigpipe = ok;
  endpoint = endpoint_calls;
  writes = wrote 2 ∷ write_interrupted ∷ wrote 4 ∷ [];
  reads = reads;
  prints = wrote 1 ∷ [];
  close = ok;
}

reads-IsSoundRead : All IsSoundRead reads
reads-IsSoundRead = ((plain-IsRealloc, omega arith), (tt, ((plain-IsRealloc, omega arith), tt)))

run_client-IsExit_example :
    IsExit main_calls (parse_arguments arguments) (run_client main_calls arguments)
run_client-IsExit_example =
    run_client-IsExit main_calls arguments plain-IsRealloc plain-IsRealloc reads-IsSoundRead

-- ===== src/Client/Receive.antt =====
-- `wc_client_receive_response` of src/main_client.c.
use wire_command_c.Common.{
  ℕ, none, some, List, [], ◌∷◌, ◌==◌, if◌then◌else◌, ltb, length, take, sub_size, Status, ok, fail,
  Errno, eproto, epipe, Bytes,
}
use wire_command_c.Buffer.{Buffer, Realloc, append}
use wire_command_c.Protocol.{ParseResult, complete, need_more, invalid, Response, parse_response}
use wire_command_c.Sockets.{WriteResult, Written, returned, blocked, write_all}

-- What one call of `read()` does: bytes (of which it takes as many as it is asked for), with the
-- `realloc()` that stores them, the end of the stream, EINTR, or another failure.
pub data ReadResult : Type 0 where
  got : Realloc → Bytes → ReadResult
  end_of_stream interrupted : ReadResult
  read_failed : Errno → ReadResult

abbrev pub read_size : ℕ
read_size = 4096

abbrev pub input_limit : ℕ
input_limit = 65537

abbrev pub room : Buffer → ℕ
room input =
    let available = sub_size input.max_size input.length in
    if ltb available read_size then available else read_size

-- What follows the append of the bytes, with the further rounds in `next`.
unfoldable pub after_append : (Buffer → Written) → Status × Buffer → Written
after_append next (fail e, input) = returned (fail e) []
after_append next (ok, input) = next input

unfoldable pub on_read : (Buffer → Written) → Buffer → ReadResult → Written
unfolding after_append
on_read next input (got realloc xs) =
    let chunk = take (room input) xs in
    if length chunk == 0
    then returned (fail epipe) []
    else after_append next (append realloc input (some chunk) (length chunk))
on_read next input end_of_stream = returned (fail epipe) []
on_read next input interrupted = next input
on_read next input (read_failed e) = returned (fail e) []

-- One round: `more` is what follows when the response is not yet there. What is written goes to the
-- standard output, by the calls of `write()` in `ws`.
unfoldable pub on_parse : List WriteResult → Buffer → Written → ParseResult Response → Written
on_parse ws input more (complete response consumed) =
    write_all ws (some response.body) response.data_length
on_parse ws input more invalid = returned (fail eproto) []
on_parse ws input more need_more =
    if input.length == input.max_size then returned (fail eproto) [] else more

-- The results of the calls of `read()` in turn; behind the last one the client waits.
unfoldable pub receive_loop : List WriteResult → List ReadResult → Buffer → Written
unfolding on_parse on_read
receive_loop ws [] input = on_parse ws input (blocked []) (parse_response input.block input.length)
receive_loop ws (r ∷ rs) input =
    on_parse ws input (on_read (receive_loop ws rs) input r)
      (parse_response input.block input.length)

abbrev pub no_input : Buffer
no_input = record { block = none; length = 0; capacity = 0; max_size = input_limit }

unfoldable pub receive_response : List WriteResult → List ReadResult → Written
unfolding receive_loop
receive_response ws rs = receive_loop ws rs no_input

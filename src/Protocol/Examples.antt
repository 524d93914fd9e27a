-- ===== src/Protocol/Examples.antt =====
-- The theorems on src/protocol.c at concrete inputs, and runs of its functions.
use wire_command_c.Common.{
  ◌+◌, ◌≤◌, ◌≡◌, ◌≢◌, refl, ◌⊎◌, inr, none, some, [], ◌∷◌, ◌++◌, arith, length, drop, Bytes,
  uint16_max, ok,
}
use wire_command_c.Buffer.{Buffer, append, new_capacity}
use wire_command_c.Buffer.Contents.{contents}
use wire_command_c.Buffer.Plain.{plain_realloc, plain-IsRealloc, empty_buffer, empty_buffer-IsValid}
use wire_command_c.Protocol.{
  request_cat, request_pwd, complete, need_more, invalid, encode_request, encode_response,
  append_frame, parse_request, parse_response,
}
use wire_command_c.Protocol.Frame.{request_frame, response_frame, IsRequestType}
use wire_command_c.Protocol.Parse.{
  request_of, response_of, parse_request-complete, parse_response-outcome,
}
use wire_command_c.Protocol.Stream.{cut, feed, cut-append}
use wire_command_c.Protocol.RoundTrip.{parse_request-encode_request, parse_response-encode_response}

-- "/a"
abbrev path : Bytes
path = 47 ∷ 97 ∷ []

-- CAT /a
abbrev cat_frame : Bytes
cat_frame = 0 ∷ 8 ∷ 0 ∷ 3 ∷ 0 ∷ 2 ∷ 47 ∷ 97 ∷ []

-- PWD, as README.md ("Manual client") prints it
abbrev pwd_frame : Bytes
pwd_frame = 0 ∷ 6 ∷ 0 ∷ 2 ∷ 0 ∷ 0 ∷ []

abbrev encoded : Buffer
encoded = (encode_request plain_realloc plain_realloc empty_buffer request_cat (some path) 2).1

encode_request_runs : contents encoded ≡ cat_frame
unfolding encode_request append_frame append new_capacity
encode_request_runs = refl

encode_pwd_runs :
    contents (encode_request plain_realloc plain_realloc empty_buffer request_pwd none 0).1
    ≡ pwd_frame
unfolding encode_request append_frame append new_capacity
encode_pwd_runs = refl

encode_request_ok :
    encode_request plain_realloc plain_realloc empty_buffer request_cat (some path) 2
    ≡ (ok, encoded)
unfolding encode_request append_frame append new_capacity
encode_request_ok = refl

parse_request_runs : parse_request (some cat_frame) 8 ≡ complete (request_of request_cat path) 8
unfolding parse_request
parse_request_runs = refl

parse_request_refuses : parse_request (some (0 ∷ 6 ∷ 0 ∷ 4 ∷ 0 ∷ 0 ∷ [])) 6 ≡ invalid
unfolding parse_request
parse_request_refuses = refl

parse_request_waits : parse_request (some cat_frame) 7 ≡ need_more
unfolding parse_request
parse_request_waits = refl

parse_request-encode_request_example :
    parse_request
      (some (drop 0 (contents encoded) ++ 1 ∷ []))
      (length (drop 0 (contents encoded) ++ 1 ∷ []))
    ≡ complete (request_of request_cat path) (6 + 2)
parse_request-encode_request_example =
    parse_request-encode_request plain_realloc plain_realloc plain-IsRealloc plain-IsRealloc
      empty_buffer empty_buffer-IsValid request_cat (some path) 2 (1 ∷ []) (inr (omega arith))
      encode_request_ok

abbrev response : Buffer
response = (encode_response plain_realloc plain_realloc empty_buffer (some path) 2).1

encode_response_ok :
    encode_response plain_realloc plain_realloc empty_buffer (some path) 2 ≡ (ok, response)
unfolding encode_response append_frame append new_capacity
encode_response_ok = refl

parse_response-encode_response_example :
    parse_response
      (some (drop 0 (contents response) ++ []))
      (length (drop 0 (contents response) ++ []))
    ≡ complete (response_of path) (2 + 2)
parse_response-encode_response_example =
    parse_response-encode_response plain_realloc plain_realloc plain-IsRealloc plain-IsRealloc
      empty_buffer empty_buffer-IsValid (some path) 2 [] (inr (omega arith)) encode_response_ok

parse_request-complete_example :
    IsRequestType request_cat
    × (cat_frame ≡ request_frame request_cat path ++ [])
    × (request_of request_cat path ≡ request_of request_cat path)
    × (8 ≡ 6 + 2)
parse_request-complete_example =
    parse_request-complete cat_frame (request_of request_cat path) 8 (omega arith)
      parse_request_runs

parse_response-outcome_example :
    ((parse_response (some (0 ∷ 2 ∷ 5 ∷ [])) 3 ≡ need_more)
      × ((body rest : Bytes)
          → length body ≤ uint16_max
          → 0 ∷ 2 ∷ 5 ∷ [] ≢ response_frame body ++ rest))
    ⊎ ((body : Bytes) × (parse_response (some (0 ∷ 2 ∷ 5 ∷ [])) 3
          ≡ complete (response_of body) (2 + length body))
        × (0 ∷ 2 ∷ 5 ∷ [] ≡ response_frame body ++ drop (2 + length body) (0 ∷ 2 ∷ 5 ∷ [])))
parse_response-outcome_example = parse_response-outcome (0 ∷ 2 ∷ 5 ∷ []) (omega arith)

-- A request cut in two.
cut-append_example : cut (cat_frame ++ pwd_frame) ≡ feed (cut cat_frame) pwd_frame
cut-append_example = cut-append cat_frame pwd_frame

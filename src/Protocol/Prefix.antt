-- ===== src/Protocol/Prefix.antt =====
-- What the response parser of src/protocol.c says while a frame arrives.
use wire_command_c.Common.{
  ◌+◌, ◌*◌, ◌%◌, ◌^◌, ◌≤◌, ◌<◌, ◌≡◌, refl, some, [], ◌∷◌, ◌++◌, arith, length, length-append,
  uint16_max, Bytes,
}
use wire_command_c.Protocol.{need_more, parse_response}
use wire_command_c.Protocol.Frame.{response_frame, decode-u16}

-- The parser waits as long as a part of the frame is missing.
pub parse_response-prefix :
    (xs ys body : Bytes)
    → length body ≤ uint16_max
    → xs ++ ys ≡ response_frame body
    → 0 < length ys
    → parse_response (some xs) (length xs) ≡ need_more
unfolding parse_response
parse_response-prefix [] ys body small e pos = refl
parse_response-prefix (a ∷ []) ys body small e pos = refl
parse_response-prefix (a ∷ b ∷ rest) ys body small e pos =
    let size : length (rest ++ ys) ≡ length body = ground (arith, e) in
    let count : (a * 256 + b) % 2 ^ 16 ≡ length body =
      ground (arith, e, decode-u16 (length body) small) in
    ground (arith, size, count, length-append rest ys)

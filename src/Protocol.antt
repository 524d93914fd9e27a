-- ===== src/Protocol.antt =====
-- src/protocol.c and include/wirecommand/protocol.h: the frames of requests and responses. A parser
-- returns a view of the caller's bytes; here the view is the list of the bytes that it spans.
pub mod Ptr
pub mod Frame
pub mod Append
pub mod Encode
pub mod Parse
pub mod Prefix
pub mod Stream
pub mod RoundTrip
mod Examples
use wire_command_c.Common.{
  ℕ, ◌+◌, ◌-◌, ◌*◌, ◌/◌, ◌%◌, ◌^◌, Bool, Option, none, some, [], ◌∷◌, ◌++◌, ltb, ◌==◌,
  if◌then◌else◌, ◌&&◌, ◌||◌, not, take, drop, get_or, length, add_size, sub_size, uint16_max,
  einval, emsgsize, Status, ok, fail, Bytes, is_null, bytes,
}
use wire_command_c.Buffer.{Buffer, Realloc, append}

abbrev pub request_length_offset : ℕ
request_length_offset = 0

abbrev pub request_type_offset : ℕ
request_type_offset = 2

abbrev pub request_argument_length_offset : ℕ
request_argument_length_offset = 4

abbrev pub request_header_size : ℕ
request_header_size = 6

abbrev pub response_length_offset : ℕ
response_length_offset = 0

abbrev pub response_header_size : ℕ
response_header_size = 2

-- `enum wc_request_type`, whose C type holds any unsigned number.
abbrev pub RequestType : Type 0
RequestType = ℕ

abbrev pub request_ls : RequestType
request_ls = 1

abbrev pub request_pwd : RequestType
request_pwd = 2

abbrev pub request_cat : RequestType
request_cat = 3

-- What a parser returns; the number is the value of `*consumed`, which is 0 for the other two.
pub data ParseResult (A : Type 0) : Type 0 where
  complete : A → ℕ → ParseResult A
  need_more : ParseResult A
  invalid : ParseResult A

pub record Request : Type 0 where
  pub type : RequestType
  pub argument : Bytes
  pub argument_length : ℕ
  pub message_length : ℕ

pub record Response : Type 0 where
  pub body : Bytes
  pub data_length : ℕ
  pub message_length : ℕ

-- `data[at] << 8 | data[at + 1]`; the low byte is below 256, so that the `or` is a sum.
abbrev pub decode_u16 : Bytes → ℕ → ℕ
decode_u16 xs start = (get_or xs start 0 * 256 + get_or xs (start + 1) 0) % 2 ^ 16

-- The two bytes stored for a `uint16_t`, with the cast of the value to it.
abbrev pub encode_u16 : ℕ → Bytes
encode_u16 value = (value % 2 ^ 16 / 256 % 256) ∷ (value % 2 ^ 16 % 256) ∷ []

abbrev pub request_type_valid : ℕ → Bool
request_type_valid type = type == request_ls || (type == request_pwd || type == request_cat)

-- The two appends of an encoder. If the second one fails, the length is put back.
unfoldable pub append_frame :
    Realloc → Realloc → Buffer → Bytes → Option Bytes → ℕ → Status × Buffer
append_frame realloc₁ realloc₂ output header src size =
    let (s, b) = append realloc₁ output (some header) (length header) in
    elim s [
      | fail e ↦ (fail e, b)
      | ok ↦
          (let (s', b') = append realloc₂ b src size in
            elim s' [ ok ↦ (ok, b') | fail e ↦ (fail e, record b' { length = output.length }) ])
    ]

-- The test that a message of that length fits behind the output.
abbrev no_room : Buffer → ℕ → Bool
no_room output message_length =
    ltb output.max_size output.length || ltb (sub_size output.max_size output.length) message_length

abbrev request_header : RequestType → ℕ → Bytes
request_header type argument_length =
    encode_u16 (add_size request_header_size argument_length)
    ++ (encode_u16 type ++ encode_u16 argument_length)

unfoldable pub encode_request :
    Realloc → Realloc → Buffer → RequestType → Option Bytes → ℕ → Status × Buffer
encode_request realloc₁ realloc₂ output type argument argument_length =
    if is_null argument && not (argument_length == 0)
    then (fail einval, output)
    else if not (request_type_valid type)
    then (fail einval, output)
    else if ltb (uint16_max - request_header_size) argument_length
    then (fail emsgsize, output)
    else if no_room output (add_size request_header_size argument_length)
    then (fail emsgsize, output)
    else append_frame realloc₁ realloc₂ output (request_header type argument_length) argument
        argument_length

unfoldable pub encode_response : Realloc → Realloc → Buffer → Option Bytes → ℕ → Status × Buffer
encode_response realloc₁ realloc₂ output src data_length =
    if is_null src && not (data_length == 0)
    then (fail einval, output)
    else if ltb uint16_max data_length
    then (fail emsgsize, output)
    else if no_room output (add_size response_header_size data_length)
    then (fail emsgsize, output)
    else append_frame realloc₁ realloc₂ output (encode_u16 data_length) src data_length

unfoldable pub parse_request : Option Bytes → ℕ → ParseResult Request
parse_request src size =
    let xs = bytes src in
    let request_length = decode_u16 xs request_length_offset in
    let request_type = decode_u16 xs request_type_offset in
    let argument_length = decode_u16 xs request_argument_length_offset in
    if is_null src && not (size == 0)
    then invalid
    else if ltb size request_header_size
    then need_more
    else if not (request_type_valid request_type)
    then invalid
    else if ltb request_length request_header_size
    then invalid
    else if not (request_length == add_size request_header_size argument_length)
    then invalid
    else if ltb size request_length
    then need_more
    else complete
        (record {
          type = request_type;
          argument = take argument_length (drop request_header_size xs);
          argument_length = argument_length;
          message_length = request_length;
        })
        request_length

pub parse_response : Option Bytes → ℕ → ParseResult Response
parse_response src size =
    let xs = bytes src in
    let response_length = decode_u16 xs response_length_offset in
    let message_length = add_size response_header_size response_length in
    if is_null src && not (size == 0)
    then invalid
    else if ltb size response_header_size
    then need_more
    else if ltb size message_length
    then need_more
    else complete
        (record {
          body = take response_length (drop response_header_size xs);
          data_length = response_length;
          message_length = message_length;
        })
        message_length

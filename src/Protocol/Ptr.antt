-- ===== src/Protocol/Ptr.antt =====
-- The functions of src/protocol.c as they are called, with the pointers that may be NULL: the output
-- buffer of an encoder, and the two places that a parser writes its results to.
use wire_command_c.Common.{
  ℕ, Option, none, some, Bytes, Status, on_object, is_null, ◌&&◌, not, ◌==◌, if◌then◌else◌,
}
use wire_command_c.Buffer.{Buffer, Realloc}
use wire_command_c.Protocol
use wire_command_c.Protocol.{
  RequestType, ParseResult, complete, need_more, invalid, Request, Response,
}

unfoldable pub encode_request :
    Realloc → Realloc → Option Buffer → RequestType → Option Bytes → ℕ → Status × Option Buffer
encode_request realloc₁ realloc₂ output type argument argument_length =
    on_object output λ b. Protocol.encode_request realloc₁ realloc₂ b type argument argument_length

unfoldable pub encode_response :
    Realloc → Realloc → Option Buffer → Option Bytes → ℕ → Status × Option Buffer
encode_response realloc₁ realloc₂ output src data_length =
    on_object output λ b. Protocol.encode_response realloc₁ realloc₂ b src data_length

-- What stands at the two places after a parse of bytes that may be read.
stored : {A : Type 0} → A → ParseResult A → A × ℕ
stored old (complete r n) = (r, n)
stored old need_more = (old, 0)
stored old invalid = (old, 0)

-- With NULL for a place, or for bytes that there are, nothing is stored.
parse_into :
    {A : Type 0}
    → Option A
    → Option ℕ
    → Option Bytes
    → ℕ
    → ParseResult A
    → ParseResult A × Option A × Option ℕ
unfolding stored
parse_into none consumed src size r = (invalid, none, consumed)
parse_into (some old) none src size r = (invalid, some old, none)
parse_into (some old) (some n) src size r =
    if is_null src && not (size == 0)
    then (invalid, some old, some n)
    else (let (new, m) = stored old r in (r, some new, some m))

unfoldable pub parse_request :
    Option Bytes → ℕ → Option Request → Option ℕ → ParseResult Request × Option Request × Option ℕ
unfolding parse_into
parse_request src size request consumed =
    parse_into request consumed src size (Protocol.parse_request src size)

unfoldable pub parse_response :
    Option Bytes
    → ℕ
    → Option Response
    → Option ℕ
    → ParseResult Response × Option Response × Option ℕ
unfolding parse_into
parse_response src size response consumed =
    parse_into response consumed src size (Protocol.parse_response src size)

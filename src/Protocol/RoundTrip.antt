-- ===== src/Protocol/RoundTrip.antt =====
-- What one side encodes by src/protocol.c, the other side parses back.
use wire_command_c.Common.{
  ℕ, ◌+◌, ◌≡◌, ◌∙◌, sym, ap, inl, inr, Option, some, ◌++◌, arith, length, take, drop, ok, Bytes,
  bytes, drop-append_all,
}
use wire_command_c.Buffer.{Buffer, Realloc}
use wire_command_c.Buffer.Contents.{contents, IsValid, IsRealloc, length-contents}
use wire_command_c.Buffer.Laws.{Extends, IsReadable}
use wire_command_c.Protocol.{
  RequestType, complete, encode_request, encode_response, parse_request, parse_response,
}
use wire_command_c.Protocol.Encode.{
  RequestEncoded, ResponseEncoded, encode_request_lem, encode_response_lem,
}
use wire_command_c.Protocol.Parse.{
  request_of, response_of, parse_request-frame, parse_response-frame,
}

-- The bytes behind the old length are those that were put there.
appended :
    {b b' : Buffer} {xs : Bytes} → IsValid b → Extends b xs b' → drop b.length (contents b') ≡ xs
appended {b} {b'} {xs} v x =
    ap (λ (t : Bytes). drop b.length t) x.holds
    ∙ drop-append_all b.length (contents b) xs (sym (length-contents b v))

module _ (realloc₁ realloc₂ : Realloc) (law₁ : IsRealloc realloc₁) (law₂ : IsRealloc realloc₂)
    (b : Buffer) (v : IsValid b) where
  -- A request that was encoded behind the contents of the output, followed by any bytes, is parsed
  -- back: the type, the argument and the lengths are those that were encoded, and the frame and no
  -- more is consumed.
  pub parse_request-encode_request :
      (type : RequestType) (argument : Option Bytes) (n : ℕ) (rest : Bytes) {b' : Buffer}
      → IsReadable argument n
      → encode_request realloc₁ realloc₂ b type argument n ≡ (ok, b')
      → let xs = drop b.length (contents b') ++ rest in
        parse_request (some xs) (length xs)
        ≡ complete (request_of type (take n (bytes argument))) (6 + n)
  parse_request-encode_request type argument n rest {b'} readable e =
      go (rw e at (encode_request_lem realloc₁ realloc₂ law₁ law₂ b v type argument n readable))
    where
      go :
          RequestEncoded realloc₁ realloc₂ b type argument n (ok, b')
          → let xs = drop b.length (contents b') ++ rest in
            parse_request (some xs) (length xs)
            ≡ complete (request_of type (take n (bytes argument))) (6 + n)
      go (inl (_, t, fits, l, x)) = rw (appended v x) (
          parse_request-frame type (take n (bytes argument)) rest t (omega arith)
          ∙ ap (λ (k : ℕ). complete (request_of type (take n (bytes argument))) (6 + k)) l)
      go (inr (err, bad, _, _)) = cc

  -- The same for a response.
  pub parse_response-encode_response :
      (src : Option Bytes) (n : ℕ) (rest : Bytes) {b' : Buffer}
      → IsReadable src n
      → encode_response realloc₁ realloc₂ b src n ≡ (ok, b')
      → let xs = drop b.length (contents b') ++ rest in
        parse_response (some xs) (length xs) ≡ complete (response_of (take n (bytes src))) (2 + n)
  parse_response-encode_response src n rest {b'} readable e =
      go (rw e at (encode_response_lem realloc₁ realloc₂ law₁ law₂ b v src n readable))
    where
      go :
          ResponseEncoded realloc₁ realloc₂ b src n (ok, b')
          → let xs = drop b.length (contents b') ++ rest in
            parse_response (some xs) (length xs)
            ≡ complete (response_of (take n (bytes src))) (2 + n)
      go (inl (_, fits, l, x)) = rw (appended v x) (
          parse_response-frame (take n (bytes src)) rest (omega arith)
          ∙ ap (λ (k : ℕ). complete (response_of (take n (bytes src))) (2 + k)) l)
      go (inr (err, bad, _, _)) = cc

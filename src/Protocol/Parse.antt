-- ===== src/Protocol/Parse.antt =====
-- Which inputs the parsers of src/protocol.c accept, refuse, or leave open.
use wire_command_c.Common.{
  ℕ, suc, ◌+◌, ◌≤◌, ◌≡◌, ◌≢◌, refl, ◌∙◌, sym, ap, ◌⊎◌, inl, inr, Option, none, some, ◌∷◌, [], ◌++◌,
  arith, true, ltb, length, take, drop, Bool-cases, uint16_max, Bytes, bytes, length-append,
  length-take, get_or-take, take-drop-take, take-append_self, IsBytes, take-append-drop, add_size,
}
use wire_command_c.Protocol.{
  RequestType, complete, need_more, Request, Response, request_type_valid, parse_request,
  parse_response, decode_u16,
}
use wire_command_c.Protocol.Frame.{
  decode-u16, request_frame, response_frame, IsRequestType, →request_type_valid,
  request_type_valid→,
}

-- A parse of `size` bytes depends on these alone: what lies behind them in the block is not read.
pub parse_request-take :
    (src : Option Bytes) (size : ℕ)
    → size ≤ length (bytes src)
    → parse_request src size ≡ parse_request (some (take size (bytes src))) size
unfolding parse_request
parse_request-take none size h = ground arith
parse_request-take (some xs) size h = elim (Bool-cases (ltb size 6)) [
  | inl e ↦ rw e
  | inr f ↦
      rw
        (
          get_or-take size 0 xs 0 (ground (arith, f)),
          get_or-take size 1 xs 0 (ground (arith, f)),
          get_or-take size 2 xs 0 (ground (arith, f)),
          get_or-take size 3 xs 0 (ground (arith, f)),
          get_or-take size 4 xs 0 (ground (arith, f)),
          get_or-take size 5 xs 0 (ground (arith, f)),
        )
        (ground (arith, f, take-drop-take size 6 (decode_u16 xs 4) xs))
]

abbrev pub request_of : RequestType → Bytes → Request
request_of type argument = record {
  type = type;
  argument = argument;
  argument_length = length argument;
  message_length = 6 + length argument;
}

-- A request frame at the front of the bytes is accepted, whatever follows it, and nothing else is consumed.
pub parse_request-frame :
    (type : RequestType) (argument rest : Bytes)
    → IsRequestType type
    → 6 + length argument ≤ uint16_max
    → let xs = request_frame type argument ++ rest in
      parse_request (some xs) (length xs)
      ≡ complete (request_of type argument) (6 + length argument)
unfolding parse_request
parse_request-frame type argument rest t h =
    rw
      (
        decode-u16 (6 + length argument) h,
        decode-u16 type (ground arith),
        decode-u16 (length argument) (omega arith),
        →request_type_valid type t,
      )
      (ground
        (arith, length-append argument rest, take-append_self (length argument) argument rest))

-- What the tests of the parser let pass, as numbers.
abbrev pub Accepted : Bytes → Request → ℕ → Type 0
Accepted xs r k =
    (request_type_valid (decode_u16 xs 2) ≡ true)
    × (decode_u16 xs 0 ≡ 6 + decode_u16 xs 4)
    × (decode_u16 xs 0 ≤ length xs)
    × (k ≡ decode_u16 xs 0)
    × (r.type ≡ decode_u16 xs 2)
    × (r.argument ≡ take (decode_u16 xs 4) (drop 6 xs))
    × (r.argument_length ≡ decode_u16 xs 4)
    × (r.message_length ≡ k)

pub accepted :
    (xs : Bytes) (r : Request) (k : ℕ)
    → parse_request (some xs) (length xs) ≡ complete r k
    → (6 ≤ length xs) × Accepted xs r k
unfolding parse_request
accepted xs r k h = (ground arith, ground arith)

-- A complete parse has found a frame: the bytes consumed are the request frame of what is reported,
-- of one of the three types, and the lengths reported are those of the argument and of the frame.
pub parse_request-complete :
    (xs : Bytes) (r : Request) (k : ℕ)
    → IsBytes xs
    → parse_request (some xs) (length xs) ≡ complete r k
    → IsRequestType r.type
      × (xs ≡ request_frame r.type r.argument ++ drop k xs)
      × (r ≡ request_of r.type r.argument)
      × (k ≡ 6 + length r.argument)
parse_request-complete (a ∷ b ∷ c ∷ d ∷ e ∷ f ∷ rest) r k bs h =
    let t = accepted (a ∷ b ∷ c ∷ d ∷ e ∷ f ∷ rest) r k h in
    let n = decode_u16 (a ∷ b ∷ c ∷ d ∷ e ∷ f ∷ rest) 4 in
    let size : length r.argument ≡ n =
      ap (λ (xs : Bytes). length xs) t.1.5 ∙ omega (arith, length-take n rest) in
    let left : drop k (a ∷ b ∷ c ∷ d ∷ e ∷ f ∷ rest) ≡ drop n rest =
      ap (λ (j : ℕ). drop j (a ∷ b ∷ c ∷ d ∷ e ∷ f ∷ rest))
        (let m : k ≡ suc (suc (suc (suc (suc (suc n))))) = omega arith in m) in
    let split : r.argument ++ drop n rest ≡ rest =
      ap (λ (xs : Bytes). xs ++ drop n rest) t.1.5 ∙ take-append-drop n rest in
    (
      request_type_valid→ r.type (ap request_type_valid t.1.4 ∙ t.1.0),
      rw (left, split) (ground (arith, size)),
      ground (arith, size),
      omega (arith, size),
    )
parse_request-complete xs r k bs h = absurd (let t = accepted xs r k h in omega arith)

-- A parse of a response depends on the first `size` bytes alone.
pub parse_response-take :
    (src : Option Bytes) (size : ℕ)
    → size ≤ length (bytes src)
    → parse_response src size ≡ parse_response (some (take size (bytes src))) size
unfolding parse_response
parse_response-take none size h = ground arith
parse_response-take (some xs) size h = elim (Bool-cases (ltb size 2)) [
  | inl e ↦ rw e
  | inr f ↦
      rw (get_or-take size 0 xs 0 (ground (arith, f)), get_or-take size 1 xs 0 (ground (arith, f)))
        (ground (arith, f, take-drop-take size 2 (decode_u16 xs 0) xs))
]

abbrev pub response_of : Bytes → Response
response_of body = record {
  body = body;
  data_length = length body;
  message_length = 2 + length body;
}

-- A response frame at the front of the bytes is accepted, whatever follows it.
pub parse_response-frame :
    (body rest : Bytes)
    → length body ≤ uint16_max
    → let xs = response_frame body ++ rest in
      parse_response (some xs) (length xs) ≡ complete (response_of body) (2 + length body)
unfolding parse_response
parse_response-frame body rest h =
    rw (decode-u16 (length body) h)
      (ground (arith, length-append body rest, take-append_self (length body) body rest))

parse_response-either :
    (xs : Bytes)
    → IsBytes xs
    → (parse_response (some xs) (length xs) ≡ need_more)
      ⊎ ((body : Bytes) × (parse_response (some xs) (length xs)
            ≡ complete (response_of body) (2 + length body))
          × (xs ≡ response_frame body ++ drop (2 + length body) xs))
unfolding parse_response
parse_response-either [] bs = inl refl
parse_response-either (a ∷ []) bs = inl refl
parse_response-either (a ∷ b ∷ rest) bs =
    let n = decode_u16 (a ∷ b ∷ rest) 0 in
    elim (Bool-cases (ltb (length (a ∷ b ∷ rest)) (add_size 2 n))) [
      | inl e ↦ inl (ground (arith, e))
      | inr f ↦
          let size : length (take n rest) ≡ n = ground (arith, length-take n rest, f) in
          let left : drop (2 + length (take n rest)) (a ∷ b ∷ rest) ≡ drop n rest =
            ap (λ (j : ℕ). drop j (a ∷ b ∷ rest))
              (let m : 2 + length (take n rest) ≡ suc (suc n) = omega (arith, size) in m) in
          inr (
            take n rest,
            rw f (ground (arith, size)),
            rw (left, take-append-drop n rest) (ground (arith, size)),
          )
    ]

-- The response parser refuses no bytes: it reports the frame that is there, with its lengths, or waits, and
-- then no response frame begins the bytes.
pub parse_response-outcome :
    (xs : Bytes)
    → IsBytes xs
    → ((parse_response (some xs) (length xs) ≡ need_more)
        × ((body rest : Bytes) → length body ≤ uint16_max → xs ≢ response_frame body ++ rest))
      ⊎ ((body : Bytes) × (parse_response (some xs) (length xs)
            ≡ complete (response_of body) (2 + length body))
          × (xs ≡ response_frame body ++ drop (2 + length body) xs))
parse_response-outcome xs bs = elim (parse_response-either xs bs) [
  | inl e ↦ inl (
    e,
    λ body rest small same.
        let found = parse_response-frame body rest small in
        let stuck = rw same at e in
        let bad : need_more ≡ complete (response_of body) (2 + length body) = sym stuck ∙ found in
        absurd (cc),
  )
  | inr found ↦ inr found
]

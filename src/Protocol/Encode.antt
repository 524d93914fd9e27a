-- ===== src/Protocol/Encode.antt =====
-- What `wc_protocol_encode_request` and `wc_protocol_encode_response` of src/protocol.c append, and
-- what they leave when they fail.
use wire_command_c.Common.{
  ℕ, ◌+◌, ◌-◌, ◌≤◌, ◌<◌, ◌≡◌, ◌≢◌, refl, ◌⊎◌, inl, inr, Option, none, some, ◌++◌, arith, false,
  ◌&&◌, not, ◌==◌, ltb, length, take, Bool-cases, is_null, uint16_max, Errno, Status, ok, fail,
  einval, emsgsize, enomem, Bytes, bytes, add_size, length-take, take-nil,
}
use wire_command_c.Buffer.{Buffer, Realloc}
use wire_command_c.Buffer.Contents.{IsValid, IsRealloc}
use wire_command_c.Buffer.Laws.{Extends, IsReadable, Refuses}
use wire_command_c.Protocol.{
  RequestType, request_type_valid, encode_request, encode_response, encode_u16, request_header,
  no_room,
}
use wire_command_c.Protocol.Frame.{
  u16, request_frame, response_frame, IsRequestType, →request_type_valid, request_type_valid→,
}
use wire_command_c.Protocol.Append.{SameBytes, SameBytes-refl, Framed, append_frame-Framed}

encode_u16-u16 : (v : ℕ) → v ≤ uint16_max → encode_u16 v ≡ u16 v
encode_u16-u16 v h = ground arith

-- The bytes to be read are as many as announced.
readable-length :
    (src : Option Bytes) (size : ℕ)
    → is_null src && not (size == 0) ≡ false
    → IsReadable src size
    → length (take size (bytes src)) ≡ size
readable-length none size given readable = ground (arith, take-nil {A = ℕ} size)
readable-length (some xs) size given (inl e) = absurd (cc)
readable-length (some xs) size given (inr h) = omega (arith, length-take size xs)

-- Why a request cannot be encoded.
pub data RequestFailure (realloc₁ realloc₂ : Realloc) (b : Buffer) (type : RequestType)
    (argument : Option Bytes) (n : ℕ) : Errno → Type 0 where
  no_argument : argument ≡ none → n ≢ 0 → RequestFailure realloc₁ realloc₂ b type argument n einval
  bad_type : ¬ (IsRequestType type) → RequestFailure realloc₁ realloc₂ b type argument n einval
  above_u16 : uint16_max < 6 + n → RequestFailure realloc₁ realloc₂ b type argument n emsgsize
  above_limit :
      b.max_size < b.length + (6 + n) → RequestFailure realloc₁ realloc₂ b type argument n emsgsize
  out_of_memory :
      6 + n ≤ uint16_max
      → b.length + (6 + n) ≤ b.max_size
      → Refuses realloc₁ ⊎ Refuses realloc₂
      → RequestFailure realloc₁ realloc₂ b type argument n enomem

-- Why a response cannot be encoded.
pub data ResponseFailure (realloc₁ realloc₂ : Realloc) (b : Buffer) (src : Option Bytes) (n : ℕ)
    : Errno → Type 0 where
  no_body : src ≡ none → n ≢ 0 → ResponseFailure realloc₁ realloc₂ b src n einval
  body_above_u16 : uint16_max < n → ResponseFailure realloc₁ realloc₂ b src n emsgsize
  body_above_limit :
      b.max_size < b.length + (2 + n) → ResponseFailure realloc₁ realloc₂ b src n emsgsize
  body_out_of_memory :
      n ≤ uint16_max
      → b.length + (2 + n) ≤ b.max_size
      → Refuses realloc₁ ⊎ Refuses realloc₂
      → ResponseFailure realloc₁ realloc₂ b src n enomem

header-frame :
    (type : RequestType) (n : ℕ) (xs : Bytes)
    → IsRequestType type
    → length xs ≡ n
    → 6 + n ≤ uint16_max
    → request_header type n ++ xs ≡ request_frame type xs
header-frame type n xs t l h =
    ground (arith, l, encode_u16-u16 (6 + n), encode_u16-u16 n, encode_u16-u16 type)

body-frame :
    (n : ℕ) (xs : Bytes) → length xs ≡ n → n ≤ uint16_max → encode_u16 n ++ xs ≡ response_frame xs
body-frame n xs l h = ground (arith, l, encode_u16-u16 n)

-- The two ends of `wc_protocol_encode_request`.
abbrev pub RequestEncoded :
    Realloc → Realloc → Buffer → RequestType → Option Bytes → ℕ → Status × Buffer → Type 0
RequestEncoded realloc₁ realloc₂ b type argument n (s, b') =
    ((s ≡ ok)
      × IsRequestType type
      × (6 + n ≤ uint16_max)
      × (length (take n (bytes argument)) ≡ n)
      × Extends b (request_frame type (take n (bytes argument))) b')
    ⊎ ((e : Errno) × (s ≡ fail e)
        × SameBytes b b'
        × RequestFailure realloc₁ realloc₂ b type argument n e)

-- The two ends of `wc_protocol_encode_response`.
abbrev pub ResponseEncoded :
    Realloc → Realloc → Buffer → Option Bytes → ℕ → Status × Buffer → Type 0
ResponseEncoded realloc₁ realloc₂ b src n (s, b') =
    ((s ≡ ok)
      × (n ≤ uint16_max)
      × (length (take n (bytes src)) ≡ n)
      × Extends b (response_frame (take n (bytes src))) b')
    ⊎ ((e : Errno) × (s ≡ fail e) × SameBytes b b' × ResponseFailure realloc₁ realloc₂ b src n e)

request_end :
    (realloc₁ realloc₂ : Realloc) (b : Buffer) (type : RequestType) (argument : Option Bytes)
    (n : ℕ) (r : Status × Buffer)
    → IsRequestType type
    → 6 + n ≤ uint16_max
    → b.length + (6 + n) ≤ b.max_size
    → length (take n (bytes argument)) ≡ n
    → Framed realloc₁ realloc₂ b (request_header type n ++ take n (bytes argument)) r
    → RequestEncoded realloc₁ realloc₂ b type argument n r
request_end realloc₁ realloc₂ b type argument n r t fits room l (inl (es, x)) =
    inl (es, t, fits, l, rw (header-frame type n (take n (bytes argument)) t l fits) at x)
request_end realloc₁ realloc₂ b type argument n r t fits room l (inr (es, same, refused)) =
    inr (enomem, es, same, out_of_memory fits room refused)

response_end :
    (realloc₁ realloc₂ : Realloc) (b : Buffer) (src : Option Bytes) (n : ℕ) (r : Status × Buffer)
    → n ≤ uint16_max
    → b.length + (2 + n) ≤ b.max_size
    → length (take n (bytes src)) ≡ n
    → Framed realloc₁ realloc₂ b (encode_u16 n ++ take n (bytes src)) r
    → ResponseEncoded realloc₁ realloc₂ b src n r
response_end realloc₁ realloc₂ b src n r fits room l (inl (es, x)) =
    inl (es, fits, l, rw (body-frame n (take n (bytes src)) l fits) at x)
response_end realloc₁ realloc₂ b src n r fits room l (inr (es, same, refused)) =
    inr (enomem, es, same, body_out_of_memory fits room refused)

module _ (realloc₁ realloc₂ : Realloc) (law₁ : IsRealloc realloc₁) (law₂ : IsRealloc realloc₂)
    (b : Buffer) (v : IsValid b) where
  -- On a well-formed output, `wc_protocol_encode_request` either appends the request frame of the type
  -- and of the `n` bytes of the argument, for one of the three types, or fails for one of the listed
  -- reasons and leaves the bytes of the output, its length and its limit as they were.
  pub encode_request_lem :
      (type : RequestType) (argument : Option Bytes) (n : ℕ)
      → IsReadable argument n
      → RequestEncoded realloc₁ realloc₂ b type argument n
          (encode_request realloc₁ realloc₂ b type argument n)
  unfolding encode_request
  encode_request_lem type argument n readable =
      elim (Bool-cases (is_null argument && not (n == 0))) [
        | inl e ↦
            rw e (inr (einval, refl, SameBytes-refl v, no_argument (ground arith) (ground arith)))
        | inr given ↦ elim (Bool-cases (request_type_valid type)) [
          | inr e ↦
              rw (given, e)
                (inr (
                  einval,
                  refl,
                  SameBytes-refl v,
                  bad_type (λ t. let h = →request_type_valid type t in cc),
                ))
          | inl t ↦ elim (Bool-cases (ltb (uint16_max - 6) n)) [
            | inl e ↦
                rw (given, t, e)
                  (inr (emsgsize, refl, SameBytes-refl v, above_u16 (ground (arith, e))))
            | inr f ↦ elim (Bool-cases (no_room b (add_size 6 n))) [
              | inl e ↦
                  rw (given, t, f, e)
                    (inr (emsgsize, refl, SameBytes-refl v, above_limit (ground (arith, e, f))))
              | inr g ↦
                  rw (given, t, f, g)
                    (request_end realloc₁ realloc₂ b type argument n _ (request_type_valid→ type t)
                      (ground (arith, f)) (ground (arith, f, g))
                      (readable-length argument n given readable)
                      (append_frame-Framed realloc₁ realloc₂ law₁ law₂ b v (request_header type n)
                        argument n given readable (ground (arith, f, g))))
            ]
          ]
        ]
      ]

  -- On a well-formed output, `wc_protocol_encode_response` either appends the response frame of the `n`
  -- bytes, or fails for one of the listed reasons and leaves the bytes of the output, its length and
  -- its limit as they were.
  pub encode_response_lem :
      (src : Option Bytes) (n : ℕ)
      → IsReadable src n
      → ResponseEncoded realloc₁ realloc₂ b src n (encode_response realloc₁ realloc₂ b src n)
  unfolding encode_response
  encode_response_lem src n readable = elim (Bool-cases (is_null src && not (n == 0))) [
    | inl e ↦ rw e (inr (einval, refl, SameBytes-refl v, no_body (ground arith) (ground arith)))
    | inr given ↦ elim (Bool-cases (ltb uint16_max n)) [
      | inl e ↦
          rw (given, e) (inr (emsgsize, refl, SameBytes-refl v, body_above_u16 (ground (arith, e))))
      | inr f ↦ elim (Bool-cases (no_room b (add_size 2 n))) [
        | inl e ↦
            rw (given, f, e)
              (inr (emsgsize, refl, SameBytes-refl v, body_above_limit (ground (arith, e, f))))
        | inr g ↦
            rw (given, f, g)
              (response_end realloc₁ realloc₂ b src n _ (ground (arith, f)) (ground (arith, f, g))
                (readable-length src n given readable)
                (append_frame-Framed realloc₁ realloc₂ law₁ law₂ b v (encode_u16 n) src n given
                  readable (ground (arith, f, g))))
      ]
    ]
  ]

-- ===== src/Exchange.antt =====
-- One exchange of the client of src/main_client.c with a worker of src/server_tcp.c, from the encoded
-- request to the printed response.
pub mod Single
mod Run
mod Examples
use mathlib.Core.List.{Memᴰ}
use mathlib.Core.List.Memᴰ.{head, tail}
use wire_command_c.Common.{
  ℕ, ◌+◌, ◌≤◌, ◌<◌, ◌≡◌, ◌≢◌, refl, ◌∙◌, sym, ap, subst, Option, none, some, List, [], ◌∷◌, ◌++◌,
  append-nil, arith, inl, inr, length, take, drop, drop-append_all, ok, Bytes, bytes, All,
  uint16_max,
}
use wire_command_c.Buffer.{Buffer, Realloc}
use wire_command_c.Buffer.Contents.{IsValid, IsRealloc, contents}
use wire_command_c.Buffer.Laws.{IsReadable}
use wire_command_c.Protocol.{RequestType, Request, encode_request, parse_request}
use wire_command_c.Protocol.Frame.{request_frame, response_frame, IsRequestType}
use wire_command_c.Protocol.Parse.{request_of, parse_request-frame}
use wire_command_c.Protocol.Encode.{RequestEncoded, encode_request_lem}
use wire_command_c.Protocol.Stream.{Stream, more, rest_is, cut, cut-complete, cut-nil}
use wire_command_c.Sockets.{WriteResult, write_all}
use wire_command_c.Client.Receive.{ReadResult, receive_response}
use wire_command_c.Client.Main.{no_request}
use wire_command_c.Client.Printed.{Delivers, receive_response-frame}
use wire_command_c.Uds.Respond.{Calls}
use wire_command_c.Tcp.Serve.{Session, Round, worker_loop, fresh}
use wire_command_c.Tcp.Served.{Answered, Carries, reply, frames, before, Served, InOrder}
use wire_command_c.Tcp.Rounds.{IsSoundRound, worker_loop-InOrder}

-- The client prints the reply to its request under calls that are among `C`, as far as `write()` takes it.
abbrev pub Printed :
    (Calls → Type 0) → RequestType → Option Bytes → ℕ → List WriteResult → List ReadResult → Type 0
Printed C type argument n ws rs =
    (calls : Calls) × C calls
    × (let text = reply (calls, request_of type (take n (bytes argument))) in
        receive_response ws rs ≡ write_all ws (some text) (length text))

cut-request_frame :
    (type : RequestType) (argument : Bytes)
    → IsRequestType type
    → 6 + length argument ≤ uint16_max
    → cut (request_frame type argument) ≡ more (request_of type argument) (rest_is [])
cut-request_frame type argument t small =
    let frame = request_frame type argument in
    let found =
      ap (λ (xs : Bytes). parse_request (some xs) (length xs)) (sym (append-nil frame))
      ∙ parse_request-frame type argument [] t small in
    cut-complete frame (request_of type argument) (6 + length argument) found
    ∙ ap (λ (xs : Bytes). more (request_of type argument) (cut xs)) nothing_left
    ∙ ap (more (request_of type argument)) cut-nil
  where
    nothing_left : drop (6 + length argument) (request_frame type argument) ≡ []
    nothing_left =
        ap (drop (6 + length argument)) (sym (append-nil (request_frame type argument)))
        ∙ drop-append_all (6 + length argument) (request_frame type argument) [] (omega arith)

-- Where the replies to the requests of a stream have been sent, something and all of them, and the stream
-- is one request, its reply has been sent.
sent-reply :
    (C : Calls → Type 0) (answered : List Answered) (t : Stream) (received sent : Bytes)
    (output : Buffer) (r : Request)
    → cut received ≡ before answered t
    → sent ++ contents output ≡ frames answered
    → All (Carries C) answered
    → cut received ≡ more r (rest_is [])
    → output.length ≡ 0
    → sent ≢ []
    → (calls : Calls) × C calls
      × (sent ≡ response_frame (reply (calls, r)))
      × (length (reply (calls, r)) ≤ uint16_max)
sent-reply C answered t received sent output r stream replies carried single z some_sent =
    by_answers answered (sym single ∙ stream)
      (sym (append-nil sent)
        ∙ ap (λ (k : ℕ). sent ++ take k (bytes output.block)) (sym z)
        ∙ replies)
      carried
  where
    by_answers :
        (rs : List Answered)
        → more r (rest_is []) ≡ before rs t
        → sent ≡ frames rs
        → All (Carries C) rs
        → (calls : Calls) × C calls
          × (sent ≡ response_frame (reply (calls, r)))
          × (length (reply (calls, r)) ≤ uint16_max)
    by_answers [] e f h = absurd (some_sent f)
    by_answers ((calls, r') ∷ []) e f ((used, h), hs) =
        let same : r' ≡ r = cc in
        (
          calls,
          used,
          f
              ∙ append-nil (response_frame (reply (calls, r')))
              ∙ ap (λ x. response_frame (reply (calls, x))) same,
          subst (λ x. length (reply (calls, x)) ≤ uint16_max) same h,
        )
    by_answers ((calls, r') ∷ (calls', r'') ∷ rs) e f h = absurd (cc)

-- The client prints what was sent for its request.
pub sent-Printed :
    (C : Calls → Type 0) (realloc₁ realloc₂ : Realloc) (type : RequestType)
    (argument : Option Bytes) (n : ℕ) {b' : Buffer} (ws : List WriteResult) {rs : List ReadResult}
    (answered : List Answered) (t : Stream) (received sent : Bytes) (output : Buffer)
    → IsRealloc realloc₁
    → IsRealloc realloc₂
    → IsReadable argument n
    → encode_request realloc₁ realloc₂ no_request type argument n ≡ (ok, b')
    → cut received ≡ before answered t
    → sent ++ contents output ≡ frames answered
    → All (Carries C) answered
    → received ≡ contents b'
    → output.length ≡ 0
    → sent ≢ []
    → Delivers rs sent
    → Printed C type argument n ws rs
sent-Printed C realloc₁ realloc₂ type argument n {b'} ws {rs} answered t received sent output law₁
      law₂ readable e stream replies carried same z some_sent d =
    encoded (
      rw e at (
        encode_request_lem realloc₁ realloc₂ law₁ law₂ no_request (omega arith) type argument n
          readable))
  where
    encoded :
        RequestEncoded realloc₁ realloc₂ no_request type argument n (ok, b')
        → Printed C type argument n ws rs
    encoded (inr (err, bad, unchanged, why)) = absurd (cc)
    encoded (inl (worked, known, small, l, x)) =
        let cuts =
          cut-request_frame type (take n (bytes argument)) known (omega (arith, l, small)) in
        let (calls, used, all_sent, fits) =
          sent-reply C answered t received sent output (request_of type (take n (bytes argument)))
            stream replies carried (ap cut (same ∙ x.holds) ∙ cuts) z some_sent in
        let text = reply (calls, request_of type (take n (bytes argument))) in
        (calls, used, (receive_response-frame ws text fits (subst (Delivers rs) all_sent d)).0)

-- The calls are those of one of the rounds.
abbrev pub IsOfRound : List Round → Calls → Type 0
IsOfRound rounds calls = (round : Round) × Memᴰ round rounds × (round.calls ≡ calls)

All-own :
    (rounds part : List Round)
    → ((round : Round) → Memᴰ round part → Memᴰ round rounds)
    → All (λ round. IsOfRound rounds round.calls) part
All-own rounds [] f = tt
All-own rounds (round ∷ part) f =
    ((round, f round (head refl), refl), All-own rounds part (λ other m. f other (tail m)))

-- The client encodes a request. A worker receives these bytes, in whatever pieces, and sends its output to
-- the end. The reads of the client deliver what was sent, in whatever pieces. Then the client writes to
-- its standard output exactly the worker's reply to that type and that argument, under the calls of one of
-- the rounds that the worker runs, as far as `write()` takes it, and returns what the writing returns.
pub exchange :
    (realloc₁ realloc₂ : Realloc) (type : RequestType) (argument : Option Bytes) (n : ℕ)
    {b' : Buffer} (rounds : List Round) (s : Session) (ws : List WriteResult) {rs : List ReadResult}
    → IsRealloc realloc₁
    → IsRealloc realloc₂
    → IsReadable argument n
    → encode_request realloc₁ realloc₂ no_request type argument n ≡ (ok, b')
    → All IsSoundRound rounds
    → (worker_loop rounds fresh).1 ≡ s
    → s.received ≡ contents b'
    → s.output.length ≡ 0
    → s.sent_bytes ≢ []
    → Delivers rs s.sent_bytes
    → (calls : Calls) × IsOfRound rounds calls
      × (let text = reply (calls, request_of type (take n (bytes argument))) in
          receive_response ws rs ≡ write_all ws (some text) (length text))
exchange realloc₁ realloc₂ type argument n {b'} rounds s ws {rs} law₁ law₂ readable e sound run
      received z some_sent d =
    let (answered, served) = subst (InOrder (IsOfRound rounds)) run (
      worker_loop-InOrder (IsOfRound rounds) rounds (All-own rounds rounds (λ round m. m)) sound) in
    sent-Printed (IsOfRound rounds) realloc₁ realloc₂ type argument n ws answered
      (cut (contents s.input)) s.received s.sent_bytes s.output law₁ law₂ readable e served.stream
      served.replies served.carried received z some_sent d

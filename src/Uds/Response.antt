-- ===== src/Uds/Response.antt =====
-- What src/server_uds.c answers to a queued request.
use wire_command_c.Common.{
  ℕ, suc, ◌≤◌, ◌<◌, ◌≡◌, refl, ◌∙◌, ap, true, Option, some, ◌++◌, arith, ◌⊎◌, inl, inr, Bool-cases,
  ◌==◌, if◌then◌else◌, leb, length, length-take, take, size_mod, take_all, Status, ok, fail, Errno,
  eio, enomem, Bytes, bytes, uint16_max,
}
use wire_command_c.Buffer.{Buffer}
use wire_command_c.Buffer.Laws.{Refuses}
use wire_command_c.Buffer.Contents.{IsValid, IsRealloc, contents}
use wire_command_c.Protocol.{request_ls, request_pwd, request_cat, encode_response}
use wire_command_c.Protocol.Frame.{response_frame}
use wire_command_c.Protocol.Encode.{
  ResponseFailure, no_body, body_above_u16, body_above_limit, body_out_of_memory, ResponseEncoded,
  encode_response_lem,
}
use wire_command_c.Queue.{QueuedRequest}
use wire_command_c.Commands.Bounds.{Bounded, IsEnvironment, ls-Bounded, pwd-Bounded, cat-Bounded}
use wire_command_c.Uds.Table.{output_limit}
use wire_command_c.Commands.{Environment, CommandResult}
use wire_command_c.Uds.Respond.{
  Calls, error_text, text_length, written, encode_text, respond, run_command,
  encode_command_response,
}

-- The text of a response: the bytes of the command's result, or the error text, cut at 255 bytes.
abbrev pub response_text : Calls → Status × CommandResult → Bytes
response_text calls (ok, r) = take r.length (bytes r.block)
response_text calls (fail e, r) = written (error_text calls e)

-- An output with nothing in it, under the limit of the server.
pub record IsIdle (output : Buffer) : Type 0 where
  pub valid : IsValid output
  pub empty : output.length ≡ 0
  pub limit : output.max_size ≡ output_limit

-- The two ends of a response: the output holds the frame of the text and nothing else, or the output is
-- still empty because `realloc()` has refused a block, or because `snprintf()` has failed.
abbrev pub Responded : Calls → Buffer → Bytes → Status × Buffer → Type 0
Responded calls output text (s, output') =
    ((s ≡ ok)
      × (length text ≤ uint16_max)
      × IsValid output'
      × (output'.max_size ≡ output_limit)
      × (contents output' ≡ response_frame text))
    ⊎ ((((s ≡ fail enomem) × (Refuses calls.realloc₁ ⊎ Refuses calls.realloc₂))
          ⊎ ((s ≡ fail eio) × (calls.snprintf_fails ≡ true)))
        × IsIdle output')

-- A response to an empty output, of bytes that one frame can carry, cannot be refused for its size.
encode_response-Responded :
    (calls : Calls) (output : Buffer) (src : Option Bytes) (n : ℕ)
    → IsRealloc calls.realloc₁
    → IsRealloc calls.realloc₂
    → IsIdle output
    → n ≤ uint16_max
    → n ≤ length (bytes src)
    → Responded calls output
        (take n (bytes src))
        (encode_response calls.realloc₁ calls.realloc₂ output src n)
encode_response-Responded calls output src n law₁ law₂ idle small given = go _ (
    encode_response_lem calls.realloc₁ calls.realloc₂ law₁ law₂ output idle.valid src n (inr given))
  where
    failure :
        (e : Errno)
        → ResponseFailure calls.realloc₁ calls.realloc₂ output src n e
        → (e ≡ enomem) × (Refuses calls.realloc₁ ⊎ Refuses calls.realloc₂)
    failure e (no_body absent z) = absurd (let t = rw absent at given in omega arith)
    failure e (body_above_u16 h) = absurd (omega arith)
    failure e (body_above_limit h) = absurd (omega (arith, idle.empty, idle.limit))
    failure e (body_out_of_memory h k refused) = (refl, refused)

    go :
        (r : Status × Buffer)
        → ResponseEncoded calls.realloc₁ calls.realloc₂ output src n r
        → Responded calls output (take n (bytes src)) r
    go (s, b) (inl (es, fits, l, x)) = inl (
      es,
      omega arith,
      x.valid,
      x.limit ∙ idle.limit,
      x.holds
          ∙ ap (λ (k : ℕ). take k (bytes output.block) ++ response_frame (take n (bytes src)))
              idle.empty,
    )
    go (s, b) (inr (e, es, same, why)) = inr (
      inl (let f = failure e why in (es ∙ ap fail f.0, f.1)),
      record {
        valid = same.valid;
        empty = same.same_length ∙ idle.empty;
        limit = same.limit ∙ idle.limit;
      },
    )

capped :
    (m : ℕ) (text : Bytes)
    → (if leb (suc m) (length text) then m else length text) ≡ length (take m text)
capped m text = elim (Bool-cases (leb (suc m) (length text))) [
  | inl e ↦ rw e (ground (arith, e, length-take m text))
  | inr e ↦ rw e (ground (arith, e, length-take m text))
]

text_length-written : (text : Bytes) → text_length text ≡ length (written text)
unfolding text_length written
text_length-written text = capped 255 text

length-written : (text : Bytes) → length (written text) ≤ uint16_max
unfolding written
length-written text = shorter 255 (omega arith)
  where
    shorter : (m : ℕ) → m ≤ uint16_max → length (take m text) ≤ uint16_max
    shorter m h = omega (arith, length-take m text)

encode_text-Responded :
    (calls : Calls) (output : Buffer) (text : Bytes)
    → IsRealloc calls.realloc₁
    → IsRealloc calls.realloc₂
    → IsIdle output
    → Responded calls output (written text) (encode_text calls output text)
unfolding encode_text
encode_text-Responded calls output text law₁ law₂ idle = elim (Bool-cases calls.snprintf_fails) [
  | inl e ↦ rw e (inr (inr (refl, refl), idle))
  | inr e ↦
      let all = take_all (length (written text)) (written text) (omega arith) in
      let t =
        encode_response-Responded calls output (some (written text)) (length (written text)) law₁
          law₂ idle (length-written text) (omega arith) in
      rw (e, text_length-written text) (rw (all, e) at t)
]

pub respond-Responded :
    (calls : Calls) (output : Buffer) (r : Status × CommandResult)
    → IsRealloc calls.realloc₁
    → IsRealloc calls.realloc₂
    → IsIdle output
    → Bounded uint16_max r
    → Responded calls output (response_text calls r) (respond calls output r)
unfolding respond
respond-Responded calls output (ok, r) law₁ law₂ idle b =
    encode_response-Responded calls output r.block r.length law₁ law₂ idle (b refl).0 (b refl).1
respond-Responded calls output (fail e, r) law₁ law₂ idle b =
    encode_text-Responded calls output (error_text calls e) law₁ law₂ idle

pub run_command-Bounded :
    (env : Environment) (request : QueuedRequest)
    → IsEnvironment env
    → Bounded uint16_max (run_command env request)
unfolding run_command
run_command-Bounded env request law =
    let small : uint16_max < size_mod = omega arith in
    elim (Bool-cases (request.type == request_ls)) [
      | inl e ↦
          rw e (ls-Bounded env law uint16_max small (some request.argument) request.argument_length)
      | inr f ↦ elim (Bool-cases (request.type == request_pwd)) [
        | inl e ↦
            rw (f, e)
              (elim (Bool-cases (request.argument_length == 0)) [
                | inl z ↦ rw z (pwd-Bounded env law uint16_max small)
                | inr z ↦ rw z (λ n. absurd (cc))
              ])
        | inr g ↦ elim (Bool-cases (request.type == request_cat)) [
          | inl e ↦
              rw (f, g, e)
                (cat-Bounded env law uint16_max small (some request.argument)
                  request.argument_length)
          | inr h ↦ rw (f, g, h) (λ n. absurd (cc))
        ]
      ]
    ]

-- What the calls behind one response do is what C says, and the command meets the environment it needs.
abbrev pub IsSoundCalls : Calls → Type 0
IsSoundCalls calls =
    IsEnvironment calls.command × IsRealloc calls.realloc₁ × IsRealloc calls.realloc₂

-- A request whose client has an empty output is answered by exactly one response frame: of the whole
-- result of its command, or of the text of the error, cut at 255 bytes. That fails only
-- because `realloc()` refuses a block or `snprintf()` fails, and then the output is still empty.
pub encode_command_response-Responded :
    (calls : Calls) (output : Buffer) (request : QueuedRequest)
    → IsEnvironment calls.command
    → IsRealloc calls.realloc₁
    → IsRealloc calls.realloc₂
    → IsIdle output
    → Responded calls output
        (response_text calls (run_command calls.command request))
        (encode_command_response calls output request)
unfolding encode_command_response
encode_command_response-Responded calls output request law law₁ law₂ idle =
    respond-Responded calls output (run_command calls.command request) law₁ law₂ idle
      (run_command-Bounded calls.command request law)

-- ===== src/Tcp/Served.antt =====
-- What a worker of src/server_tcp.c has sent, against the requests of the bytes that it has received.
use wire_command_c.Common.{
  ℕ, ◌≤◌, ◌≡◌, refl, ◌∙◌, sym, ap, some, List, [], ◌∷◌, ◌++◌, append-nil, append_assoc, arith, inl,
  inr, length, take, drop, Status, Bytes, bytes, All, uint16_max,
}
use wire_command_c.Buffer.{Buffer}
use wire_command_c.Buffer.Contents.{IsValid, contents, length-contents}
use wire_command_c.Buffer.Laws.{consume_lem}
use wire_command_c.Protocol.{ParseResult, Request, complete, need_more, invalid, parse_request}
use wire_command_c.Protocol.Frame.{response_frame}
use wire_command_c.Protocol.Parse.{accepted, parse_request-take}
use wire_command_c.Protocol.Stream.{Stream, more, cut, feed, cut-complete}
use wire_command_c.Uds.Respond.{Calls, respond}
use wire_command_c.Uds.Response.{
  IsSoundCalls, IsIdle, Responded, response_text, respond-Responded, run_command-Bounded,
}
use wire_command_c.Uds.Respond
use wire_command_c.Uds.Admission.{queued}
use wire_command_c.Tcp.Serve.{
  input_limit, output_limit, run_command, encode_response, Processed, after_encode, process_request,
  on_parse, Session,
}

-- A request that was answered, with the calls behind its answer.
abbrev pub Answered : Type 0
Answered = Calls × Request

abbrev pub reply : Answered → Bytes
reply (calls, r) =
    response_text calls (run_command calls.command r.type (some r.argument) r.argument_length)

-- The frames of the replies, one behind the other.
abbrev pub frames : List Answered → Bytes
frames [] = []
frames (a ∷ rs) = response_frame (reply a) ++ frames rs

-- The stream that begins with the requests answered.
abbrev pub before : List Answered → Stream → Stream
before [] s = s
before (a ∷ rs) s = more a.1 (before rs s)

-- The calls behind the answer are among `C`, and one frame can carry the reply.
abbrev pub Carries : (Calls → Type 0) → Answered → Type 0
Carries C a = C a.0 × (length (reply a) ≤ uint16_max)

-- A session in which the requests `answered` have been answered: they stand in front in the stream of the
-- bytes received, the rest of which is in the input; and the bytes sent, with those that wait in the
-- output, are the frames of the replies, each of which one frame can carry.
pub record Served (C : Calls → Type 0) (answered : List Answered) (s : Session) : Type 0 where
  pub input_valid : IsValid s.input
  pub input_max : s.input.max_size ≡ input_limit
  pub output_valid : IsValid s.output
  pub output_max : s.output.max_size ≡ output_limit
  pub stream : cut s.received ≡ before answered (cut (contents s.input))
  pub replies : s.sent_bytes ++ contents s.output ≡ frames answered
  pub carried : All (Carries C) answered

pub frames-concat :
    (rs : List Answered) (a : Answered)
    → frames (rs ++ a ∷ []) ≡ frames rs ++ response_frame (reply a)
frames-concat [] a = append-nil (response_frame (reply a))
frames-concat (x ∷ rs) a =
    ap (◌++◌ (response_frame (reply x))) (frames-concat rs a)
    ∙ sym (append_assoc (response_frame (reply x)) (frames rs) (response_frame (reply a)))

pub carried-concat :
    (C : Calls → Type 0) (rs : List Answered) (a : Answered)
    → All (Carries C) rs
    → Carries C a
    → All (Carries C) (rs ++ a ∷ [])
carried-concat C [] a h l = (l, tt)
carried-concat C (x ∷ rs) a (h, hs) l = (h, carried-concat C rs a hs l)

pub before-concat :
    (rs : List Answered) (a : Answered) (s : Stream)
    → before (rs ++ a ∷ []) s ≡ before rs (more a.1 s)
before-concat [] a s = refl
before-concat (x ∷ rs) a s = ap (more x.1) (before-concat rs a s)

pub before-feed :
    (rs : List Answered) (s : Stream) (ys : Bytes) → feed (before rs s) ys ≡ before rs (feed s ys)
unfolding feed
before-feed [] s ys = refl
before-feed (x ∷ rs) s ys = ap (more x.1) (before-feed rs s ys)

-- The dispatch is that of the single-threaded server.
run_command-same :
    (calls : Calls) (r : Request)
    → run_command calls.command r.type (some r.argument) r.argument_length
      ≡ Respond.run_command calls.command (queued 0 r)
unfolding run_command Respond.run_command
run_command-same calls r = refl

encode_response-Responded :
    (calls : Calls) (output : Buffer) (r : Request)
    → IsSoundCalls calls
    → IsIdle output
    → Responded calls output (reply (calls, r)) (encode_response calls output r)
unfolding encode_response
encode_response-Responded calls output r (law, law₁, law₂) idle =
    let same = run_command-same calls r in
    rw same (
      respond-Responded calls output (Respond.run_command calls.command (queued 0 r)) law₁ law₂ idle
        (run_command-Bounded calls.command (queued 0 r) law))

-- Some requests have been answered, each with calls that are among `C`, and the session is in order.
abbrev pub InOrder : (Calls → Type 0) → Session → Type 0
InOrder C s = (answered : List Answered) × Served C answered s

abbrev pub with_buffers : Session → Processed → Session
with_buffers s (st, input, output) = record s { input = input; output = output }

-- The parser sees the contents of a buffer.
parse-contents :
    (b : Buffer)
    → IsValid b
    → parse_request b.block b.length ≡ parse_request (some (contents b)) (length (contents b))
parse-contents b v =
    parse_request-take b.block b.length (omega (arith, v.within, v.allocated))
    ∙ ap (λ (n : ℕ). parse_request (some (contents b)) n) (sym (length-contents b v))

pub contents-empty : (b : Buffer) → b.length ≡ 0 → contents b ≡ []
contents-empty b z = ap (λ (k : ℕ). take k (bytes b.block)) z

after_encode-InOrder :
    {C : Calls → Type 0} (answered : List Answered) (s : Session) (calls : Calls) (r : Request)
    (k : ℕ) (x : Status × Buffer)
    → C calls
    → Served C answered s
    → s.output.length ≡ 0
    → k ≤ s.input.length
    → cut (contents s.input) ≡ more r (cut (drop k (contents s.input)))
    → Responded calls s.output (reply (calls, r)) x
    → InOrder C (with_buffers s (after_encode s.input k x))
unfolding after_encode
after_encode-InOrder {C} answered s calls r k (st, output) used served z le cuts (inr (why, idle)) =
    let same = contents-empty output idle.empty ∙ sym (contents-empty s.output z) in
    let unchanged : Served C answered (with_buffers s (st, s.input, output)) = record {
      input_valid = served.input_valid;
      input_max = served.input_max;
      output_valid = idle.valid;
      output_max = idle.limit;
      stream = served.stream;
      replies = ap (◌++◌ s.sent_bytes) same ∙ served.replies;
      carried = served.carried;
    } in
    elim why [
      | inl (e, short) ↦ rw e (answered, unchanged)
      | inr (e, f) ↦ rw e (answered, unchanged)
    ]
after_encode-InOrder {C} answered s calls r k (st, output) used served z le cuts
      (inl (es, small, v, limit, holds)) =
    let t = consume_lem s.input k served.input_valid in
    elim t.2 [
      | inr (e, lt, b) ↦ absurd (omega (arith, le, lt))
      | inl (e, le', left, shorter) ↦ rw es (
        answered ++ (calls, r) ∷ [],
        record {
          input_valid = t.0;
          input_max = t.1 ∙ served.input_max;
          output_valid = v;
          output_max = limit;
          stream =
              served.stream
              ∙ ap (before answered) (cuts ∙ ap (λ (xs : Bytes). more r (cut xs)) (sym left))
              ∙ sym (before-concat answered (calls, r) _);
          replies =
              ap (◌++◌ s.sent_bytes) holds
              ∙ ap (λ (xs : Bytes). xs ++ response_frame (reply (calls, r)))
                  (sym (append-nil s.sent_bytes)
                    ∙ ap (◌++◌ s.sent_bytes) (sym (contents-empty s.output z))
                    ∙ served.replies)
              ∙ sym (frames-concat answered (calls, r));
          carried = carried-concat C answered (calls, r) served.carried (used, small);
        },
      )
    ]

on_parse-InOrder :
    {C : Calls → Type 0} (answered : List Answered) (s : Session) (calls : Calls)
    (p : ParseResult Request)
    → parse_request (some (contents s.input)) (length (contents s.input)) ≡ p
    → C calls
    → IsSoundCalls calls
    → Served C answered s
    → s.output.length ≡ 0
    → InOrder C (with_buffers s (on_parse calls s.input s.output p))
unfolding on_parse
on_parse-InOrder answered s calls need_more e used law served z = (answered, served)
on_parse-InOrder answered s calls invalid e used law served z = (answered, served)
on_parse-InOrder answered s calls (complete r k) e used law served z =
    let idle : IsIdle s.output = record {
      valid = served.output_valid;
      empty = z;
      limit = served.output_max;
    } in
    let t = accepted (contents s.input) r k e in
    after_encode-InOrder answered s calls r k _ used served z
      (omega (arith, length-contents s.input served.input_valid, t))
      (cut-complete (contents s.input) r k e) (encode_response-Responded calls s.output r law idle)

pub process_request-InOrder :
    {C : Calls → Type 0} (answered : List Answered) (s : Session) (calls : Calls)
    → C calls
    → IsSoundCalls calls
    → Served C answered s
    → s.output.length ≡ 0
    → InOrder C (with_buffers s (process_request calls s.input s.output))
unfolding process_request
process_request-InOrder answered s calls used law served z =
    rw (parse-contents s.input served.input_valid)
      (on_parse-InOrder answered s calls _ refl used law served z)

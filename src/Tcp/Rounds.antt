-- ===== src/Tcp/Rounds.antt =====
-- The loop of a worker of src/server_tcp.c keeps its session in order.
use wire_command_c.Common.{
  ℕ, ◌≤◌, ◌≡◌, refl, ◌∙◌, sym, ap, Bool, true, false, some, List, [], ◌∷◌, ◌++◌, append-nil,
  append_assoc, arith, inl, inr, Bool-cases, ◌==◌, ◌&&◌, if◌then◌else◌, length, min, take, take_all,
  take-append-drop, Status, ok, fail, Errno, econnreset, emsgsize, Bytes, All,
}
use wire_command_c.Buffer.{Buffer, Realloc, consume}
use wire_command_c.Buffer.Contents.{IsValid, IsRealloc, contents}
use wire_command_c.Buffer.Laws.{consume_lem, append_lem, Appended}
use wire_command_c.Protocol.Stream.{Stream, cut, feed, cut-append}
use wire_command_c.Tcp.Serve.{
  Processed, ReadResult, got, end_of_stream, read_again, read_failed, Moved, stored, read_client,
  room, on_read, SendResult, sent, send_again, send_failed, taken, write_client, Session,
  PollResult, poll_interrupted, poll_failed, timed_out, ready, Round, after_write, after_read,
  after_poll, after_process, worker_round, fresh, worker_loop,
}
use wire_command_c.Uds.Respond.{Calls}
use wire_command_c.Uds.Response.{IsSoundCalls}
use wire_command_c.Tcp.Served.{
  Answered, Served, InOrder, before, before-feed, with_buffers, process_request-InOrder,
}

-- The bytes went behind the contents, or came from their front.
abbrev FedBy : Buffer → Moved → Type 0
FedBy b (s, b', xs) = IsValid b' × (b'.max_size ≡ b.max_size) × (contents b' ≡ contents b ++ xs)

abbrev DrainedBy : Buffer → Moved → Type 0
DrainedBy b (s, b', xs) = IsValid b' × (b'.max_size ≡ b.max_size) × (xs ++ contents b' ≡ contents b)

still-FedBy : (b : Buffer) (s : Status) → IsValid b → FedBy b (s, b, [])
still-FedBy b s v = (v, refl, sym (append-nil (contents b)))

stored-FedBy :
    (realloc : Realloc) (b : Buffer) (xs : Bytes) (x : Status × Buffer)
    → IsValid b
    → Appended realloc b (some xs) (length xs) x
    → FedBy b (stored xs x)
stored-FedBy realloc b xs (s, b') v (inl (e, x)) =
    rw e
      (x.valid, x.limit, x.holds ∙ ap (◌++◌ (contents b)) (take_all (length xs) xs (omega arith)))
stored-FedBy realloc b xs (s, b') v (inr (e, es, same, why)) =
    rw (es, same) (still-FedBy b (fail e) v)

abbrev pub IsSoundRead : ReadResult → Type 0
IsSoundRead (got realloc xs) = IsRealloc realloc
IsSoundRead end_of_stream = Unit
IsSoundRead read_again = Unit
IsSoundRead (read_failed e) = Unit

on_read-FedBy : (r : ReadResult) (b : Buffer) → IsSoundRead r → IsValid b → FedBy b (on_read r b)
unfolding on_read
on_read-FedBy (got realloc xs) b law v = elim (Bool-cases (length (take (room b) xs) == 0)) [
  | inl e ↦ rw e (still-FedBy b (fail econnreset) v)
  | inr e ↦ rw e (
      stored-FedBy realloc b (take (room b) xs) _ v (
        append_lem realloc b (some (take (room b) xs)) (length (take (room b) xs)) law v
          (inr (omega arith))))
]
on_read-FedBy end_of_stream b law v = still-FedBy b (fail econnreset) v
on_read-FedBy read_again b law v = still-FedBy b ok v
on_read-FedBy (read_failed e) b law v = still-FedBy b (fail e) v

read_client-FedBy :
    (r : ReadResult) (b : Buffer) → IsSoundRead r → IsValid b → FedBy b (read_client r b)
unfolding read_client
read_client-FedBy r b law v = elim (Bool-cases (room b == 0)) [
  | inl e ↦ rw e (still-FedBy b (fail emsgsize) v)
  | inr e ↦ rw e (on_read-FedBy r b law v)
]

consumed-DrainedBy :
    (b : Buffer) (n : ℕ)
    → IsValid b
    → n ≤ b.length
    → DrainedBy b (taken (take n (contents b)) (consume b n))
consumed-DrainedBy b n v le =
    let t = consume_lem b n v in
    elim t.2 [
      | inr (e, lt, same) ↦ absurd (omega (arith, le, lt))
      | inl (e, le', left, shorter) ↦
          (t.0, t.1, ap (◌++◌ (take n (contents b))) left ∙ take-append-drop n (contents b))
    ]

write_client-DrainedBy :
    (errno : Errno) (r : SendResult) (b : Buffer) → IsValid b → DrainedBy b (write_client errno r b)
unfolding write_client
write_client-DrainedBy errno (sent n) b v = elim (Bool-cases (min n b.length == 0)) [
  | inl e ↦ rw e (v, refl, refl)
  | inr e ↦ rw e (consumed-DrainedBy b (min n b.length) v (omega arith))
]
write_client-DrainedBy errno send_again b v = (v, refl, refl)
write_client-DrainedBy errno (send_failed e) b v = (v, refl, refl)

-- A session stays in order when its input is fed from the socket,
fed-Served :
    {C : Calls → Type 0} (answered : List Answered) (s : Session) (st : Status) (input : Buffer)
    (xs : Bytes)
    → Served C answered s
    → FedBy s.input (st, input, xs)
    → Served C answered (record s { input = input; received = s.received ++ xs })
fed-Served answered s st input xs served (v, limit, holds) = record {
  input_valid = v;
  input_max = limit ∙ served.input_max;
  output_valid = served.output_valid;
  output_max = served.output_max;
  stream =
      cut-append s.received xs
      ∙ ap (λ (t : Stream). feed t xs) served.stream
      ∙ before-feed answered (cut (contents s.input)) xs
      ∙ ap (before answered) (sym (cut-append (contents s.input) xs) ∙ ap cut (sym holds));
  replies = served.replies;
  carried = served.carried;
}

-- and when its output is drained to the socket.
drained-Served :
    {C : Calls → Type 0} (answered : List Answered) (s : Session) (st : Status) (output : Buffer)
    (xs : Bytes)
    → Served C answered s
    → DrainedBy s.output (st, output, xs)
    → Served C answered (record s { output = output; sent_bytes = s.sent_bytes ++ xs })
drained-Served answered s st output xs served (v, limit, holds) = record {
  input_valid = served.input_valid;
  input_max = served.input_max;
  output_valid = v;
  output_max = limit ∙ served.output_max;
  stream = served.stream;
  replies =
      append_assoc s.sent_bytes xs (contents output)
      ∙ ap (◌++◌ s.sent_bytes) holds
      ∙ served.replies;
  carried = served.carried;
}

after_write-InOrder :
    {C : Calls → Type 0} (answered : List Answered) (broken hung_up : Bool) (s : Session)
    (x : Moved)
    → Served C answered s
    → DrainedBy s.output x
    → InOrder C (after_write broken hung_up s x).1
unfolding after_write
after_write-InOrder answered broken hung_up s (fail e, output, xs) served d =
    (answered, drained-Served answered s (fail e) output xs served d)
after_write-InOrder answered broken hung_up s (ok, output, xs) served d =
    let t = drained-Served answered s ok output xs served d in
    elim (Bool-cases broken) [
      | inl e ↦ rw e (answered, t)
      | inr e ↦ elim (Bool-cases (hung_up && output.length == 0)) [
        | inl f ↦ rw (e, f) (answered, t)
        | inr f ↦ rw (e, f) (answered, t)
      ]
    ]

after_read-InOrder :
    {C : Calls → Type 0} (answered : List Answered) (round : Round) (writable broken hung_up : Bool)
    (s : Session) (x : Moved)
    → Served C answered s
    → FedBy s.input x
    → InOrder C (after_read round writable broken hung_up s x).1
unfolding after_read
after_read-InOrder answered round writable broken hung_up s (fail e, input, xs) served f =
    (answered, fed-Served answered s (fail e) input xs served f)
after_read-InOrder answered round writable broken hung_up s (ok, input, xs) served f =
    after_write-InOrder answered broken hung_up _ _ (fed-Served answered s ok input xs served f)
      (written writable)
  where
    written :
        (w : Bool)
        → DrainedBy s.output (
            if w
            then write_client round.errno_before_send round.sending s.output
            else (ok, s.output, []))
    written true =
        write_client-DrainedBy round.errno_before_send round.sending s.output served.output_valid
    written false = (served.output_valid, refl, refl)

-- The calls of a round do what C says.
pub record IsSoundRound (round : Round) : Type 0 where
  pub sound_calls : IsSoundCalls round.calls
  pub sound_read : IsSoundRead round.reading

after_poll-InOrder :
    {C : Calls → Type 0} (answered : List Answered) (round : Round) (s : Session) (p : PollResult)
    → IsSoundRound round
    → Served C answered s
    → InOrder C (after_poll round s p).1
unfolding after_poll
after_poll-InOrder answered round s poll_interrupted law served = (answered, served)
after_poll-InOrder answered round s poll_failed law served = (answered, served)
after_poll-InOrder answered round s timed_out law served = (answered, served)
after_poll-InOrder answered round s (ready readable writable broken hung_up) law served =
    after_read-InOrder answered round writable broken hung_up s _ served (read readable)
  where
    read :
        (r : Bool)
        → FedBy s.input (if r then read_client round.reading s.input else (ok, s.input, []))
    read true = read_client-FedBy round.reading s.input law.sound_read served.input_valid
    read false = still-FedBy s.input ok served.input_valid

after_process-InOrder :
    {C : Calls → Type 0} (round : Round) (s : Session) (x : Processed)
    → IsSoundRound round
    → InOrder C (with_buffers s x)
    → InOrder C (after_process round s x).1
unfolding after_process
after_process-InOrder round s (fail e, input, output) law order = order
after_process-InOrder round s (ok, input, output) law (answered, served) =
    after_poll-InOrder answered round _ round.poll law served

pub worker_round-InOrder :
    {C : Calls → Type 0} (round : Round) (s : Session)
    → C round.calls
    → IsSoundRound round
    → InOrder C s
    → InOrder C (worker_round round s).1
unfolding worker_round
worker_round-InOrder round s used law (answered, served) =
    elim (Bool-cases (s.output.length == 0)) [
      | inl e ↦ rw e (
          after_process-InOrder round s _ law (
            process_request-InOrder answered s round.calls used law.sound_calls served
              (ground arith)))
      | inr e ↦ rw e (after_process-InOrder round s (ok, s.input, s.output) law (answered, served))
    ]

pub fresh-InOrder : {C : Calls → Type 0} → InOrder C fresh
fresh-InOrder = (
  [],
  record {
    input_valid = omega arith;
    input_max = refl;
    output_valid = omega arith;
    output_max = refl;
    stream = refl;
    replies = refl;
    carried = tt;
  },
)

loop-InOrder :
    {C : Calls → Type 0} (rounds : List Round) (s : Session)
    → All (λ round. C round.calls) rounds
    → All IsSoundRound rounds
    → InOrder C s
    → InOrder C (worker_loop rounds s).1
unfolding worker_loop
loop-InOrder [] s used law order = order
loop-InOrder (round ∷ rounds) s used law order =
    let now = worker_round-InOrder round s used.0 law.0 order in
    elim (Bool-cases (worker_round round s).0) [
      | inl e ↦ rw (e, worker_loop) (loop-InOrder rounds (worker_round round s).1 used.1 law.1 now)
      | inr e ↦ rw (e, worker_loop) now
    ]

-- Whatever the system calls of a worker return, at each point of its loop there are requests, the first of
-- the stream of bytes that it has received, such that the bytes it has sent, and then those that wait in
-- its output, are exactly the response frames of these requests, one for each and in their order, and
-- exactly the rest of the stream is in its input.
pub worker_loop-InOrder :
    (C : Calls → Type 0) (rounds : List Round)
    → All (λ round. C round.calls) rounds
    → All IsSoundRound rounds
    → InOrder C (worker_loop rounds fresh).1
worker_loop-InOrder C rounds used law = loop-InOrder rounds fresh used law fresh-InOrder

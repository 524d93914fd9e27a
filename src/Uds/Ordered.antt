-- ===== src/Uds/Ordered.antt =====
-- What a client of src/server_uds.c has been sent, against the requests of the bytes that were received
-- from it: what reading, answering and writing make of that.
use wire_command_c.Common.{
  ℕ, Bool, ◌≡◌, refl, ◌∙◌, sym, ap, subst, arith, All, length, uint16_max, ◌≤◌, inl, inr, true,
  Bool-cases, List, [], ◌∷◌, ◌++◌, append-nil, append_assoc, ◌==◌, if◌then◌else◌, ok, Bytes,
}
use wire_command_c.Buffer.{Buffer}
use wire_command_c.Buffer.Contents.{contents}
use wire_command_c.Protocol.{Request}
use wire_command_c.Protocol.Frame.{response_frame}
use wire_command_c.Protocol.Stream.{Stream, more, cut, feed, cut-append}
use wire_command_c.Queue.{QueuedRequest}
use wire_command_c.Queue.Spec.{Fifo}
use wire_command_c.Uds.Table.{Client}
use wire_command_c.Uds.Input.{ReadResult}
use wire_command_c.Uds.Output.{Drains}
use wire_command_c.Uds.Respond
use wire_command_c.Uds.Respond.{Calls}
use wire_command_c.Uds.Response.{response_text}
use wire_command_c.Uds.Admission.{queued, Admit, all_in, next}
use wire_command_c.Uds.Entry.{Kept}
use wire_command_c.Uds.Reading.{Continued}
use wire_command_c.Tcp.Serve.{run_command}
use wire_command_c.Tcp.Served.{
  Answered, Carries, reply, frames, before, before-feed, before-concat, frames-concat,
  carried-concat, contents-empty,
}

-- The requests of a client that wait.
abbrev pub of_client : ℕ → Fifo → Fifo
of_client n [] = []
of_client n (r ∷ q) = if r.client_fd == n then r ∷ of_client n q else of_client n q

abbrev pub all_queued : ℕ → List Request → Fifo
all_queued n [] = []
all_queued n (r ∷ rs) = queued n r ∷ all_queued n rs

-- The stream that begins with these requests.
abbrev pub pending : List Request → Stream → Stream
pending [] s = s
pending (r ∷ rs) s = more r (pending rs s)

-- The stream of the bytes received from the client is, in this order: the requests answered, those of its
-- requests that wait in the queue, and what the input holds. The bytes sent, with those that wait in the
-- output, are the frames of the answers, in the same order, each of which one frame can carry,
-- and the calls behind each answer are among `C`.
pub record Ordered (C : Calls → Type 0) (n : ℕ) (c : Client) (q : Fifo) : Type 0 where
  pub answered : List Answered
  pub waiting : List Request
  pub stream : cut c.received ≡ before answered (pending waiting (cut (contents c.input)))
  pub replies : c.sent_bytes ++ contents c.output ≡ frames answered
  pub queue : of_client n q ≡ all_queued n waiting
  pub carried : All (Carries C) answered

pub of_client-append :
    (n : ℕ) (q q' : Fifo) → of_client n (q ++ q') ≡ of_client n q ++ of_client n q'
of_client-append n [] q' = refl
of_client-append n (r ∷ q) q' = elim (Bool-cases (r.client_fd == n)) [
  | inl e ↦ rw e (ap (◌∷◌ r) (of_client-append n q q'))
  | inr e ↦ rw e (of_client-append n q q')
]

of_client-all_queued : (n : ℕ) (rs : List Request) → of_client n (all_queued n rs) ≡ all_queued n rs
of_client-all_queued n [] = refl
of_client-all_queued n (r ∷ rs) =
    let same : n == n ≡ true = ground arith in
    rw same (ap (◌∷◌ (queued n r)) (of_client-all_queued n rs))

all_queued-append :
    (n : ℕ) (rs rs' : List Request) → all_queued n (rs ++ rs') ≡ all_queued n rs ++ all_queued n rs'
all_queued-append n [] rs' = refl
all_queued-append n (r ∷ rs) rs' = ap (◌∷◌ (queued n r)) (all_queued-append n rs rs')

pending-append :
    (rs rs' : List Request) (s : Stream) → pending (rs ++ rs') s ≡ pending rs (pending rs' s)
pending-append [] rs' s = refl
pending-append (r ∷ rs) rs' s = ap (more r) (pending-append rs rs' s)

pending-feed :
    (rs : List Request) (s : Stream) (ys : Bytes) → feed (pending rs s) ys ≡ pending rs (feed s ys)
unfolding feed
pending-feed [] s ys = refl
pending-feed (r ∷ rs) s ys = ap (more r) (pending-feed rs s ys)

-- An admission that succeeds has queued the requests in front of the stream.
Admit-pending :
    {memory : ℕ → Bool} {n : ℕ} {s s' : Stream} {q q' : Fifo}
    → Admit memory n s q ok s' q'
    → (rs : List Request) × (s ≡ pending rs s') × (q' ≡ q ++ all_queued n rs)
Admit-pending {q = q} all_in = ([], refl, sym (append-nil q))
Admit-pending {n} {q = q} (next {r} h a) =
    let (rs, e, f) = Admit-pending a in
    (r ∷ rs, ap (more r) e, f ∙ append_assoc q (queued n r ∷ []) (all_queued n rs))

pub read-Ordered :
    {C : Calls → Type 0} (n : ℕ) (c c' : Client) (q q' : Fifo) (rs : List ReadResult)
    (received : Bytes)
    → Ordered C n c q
    → Kept c c' received
    → Continued n c q rs received c' q'
    → Ordered C n c' q'
read-Ordered n c c' q q' rs received o kept (taken, drained, admit) =
    let (more_requests, e, f) = Admit-pending admit in
    record {
      answered = o.answered;
      waiting = o.waiting ++ more_requests;
      stream =
          ap cut kept.grown
          ∙ cut-append c.received received
          ∙ ap (λ (s : Stream). feed s received) o.stream
          ∙ before-feed o.answered (pending o.waiting (cut (contents c.input))) received
          ∙ ap (before o.answered) (
              pending-feed o.waiting (cut (contents c.input)) received
              ∙ ap (pending o.waiting) e
              ∙ sym (pending-append o.waiting more_requests (cut (contents c'.input))));
      replies =
          ap (λ (xs : Bytes). xs ++ contents c'.output) kept.same_sent
          ∙ ap (λ (b : Buffer). c.sent_bytes ++ contents b) kept.same_output
          ∙ o.replies;
      queue =
          ap (of_client n) f
          ∙ of_client-append n q (all_queued n more_requests)
          ∙ ap (◌++◌ (of_client n q)) (of_client-all_queued n more_requests)
          ∙ ap (λ (xs : Fifo). xs ++ all_queued n more_requests) o.queue
          ∙ sym (all_queued-append n o.waiting more_requests);
      carried = o.carried;
    }

pub write-Ordered :
    {C : Calls → Type 0} (n : ℕ) (c : Client) (q : Fifo) (output : Buffer) (taken : Bytes)
    → Ordered C n c q
    → Drains c.output (ok, output, taken)
    → Ordered C n (record c { output = output; sent_bytes = c.sent_bytes ++ taken }) q
write-Ordered n c q output taken o (v, limit, holds) = record {
  answered = o.answered;
  waiting = o.waiting;
  stream = o.stream;
  replies =
      append_assoc c.sent_bytes taken (contents output) ∙ ap (◌++◌ c.sent_bytes) holds ∙ o.replies;
  queue = o.queue;
  carried = o.carried;
}

-- The dispatch is that of a worker of src/server_tcp.c.
reply-queued :
    (n : ℕ) (calls : Calls) (r : Request)
    → reply (calls, r) ≡ response_text calls (Respond.run_command calls.command (queued n r))
unfolding run_command Respond.run_command
reply-queued n calls r = refl

-- The first request that waits is one of this client, and it is answered.
pub answer-Ordered :
    {C : Calls → Type 0} (n : ℕ) (c : Client) (request : QueuedRequest) (rest : Fifo)
    (calls : Calls) (output : Buffer)
    → request.client_fd ≡ n
    → c.output.length ≡ 0
    → length (response_text calls (Respond.run_command calls.command request)) ≤ uint16_max
    → contents output
      ≡ response_frame (response_text calls (Respond.run_command calls.command request))
    → C calls
    → Ordered C n c (request ∷ rest)
    → Ordered C n (record c { output = output }) rest
answer-Ordered {C} n c request rest calls output own idle small holds used o =
    at o.waiting o.stream (first ∙ o.queue)
  where
    first : request ∷ of_client n rest ≡ of_client n (request ∷ rest)
    first = let mine : request.client_fd == n ≡ true = ground (arith, own) in rw mine refl

    fits : (r : Request) → request ≡ queued n r → length (reply (calls, r)) ≤ uint16_max
    fits r same =
        subst (λ (xs : Bytes). length xs ≤ uint16_max)
          (ap (λ (x : QueuedRequest). response_text calls (Respond.run_command calls.command x))
              same
            ∙ sym (reply-queued n calls r))
          small

    at :
        (ws : List Request)
        → cut c.received ≡ before o.answered (pending ws (cut (contents c.input)))
        → request ∷ of_client n rest ≡ all_queued n ws
        → Ordered C n (record c { output = output }) rest
    at [] s e = absurd (cc)
    at (r ∷ ws) s e =
        let same : request ≡ queued n r = cc in
        let left : of_client n rest ≡ all_queued n ws = cc in
        let text = reply-queued n calls r in
        record {
          answered = o.answered ++ (calls, r) ∷ [];
          waiting = ws;
          stream = s ∙ sym (before-concat o.answered (calls, r) _);
          replies =
              ap (◌++◌ c.sent_bytes) (
                holds
                ∙ ap
                    (λ (x : QueuedRequest).
                      response_frame (response_text calls (Respond.run_command calls.command x)))
                    same
                ∙ ap response_frame (sym text))
              ∙ ap (λ (xs : Bytes). xs ++ response_frame (reply (calls, r)))
                  (sym (append-nil c.sent_bytes)
                    ∙ ap (◌++◌ c.sent_bytes) (sym (contents-empty c.output idle))
                    ∙ o.replies)
              ∙ sym (frames-concat o.answered (calls, r));
          queue = left;
          carried = carried-concat C o.answered (calls, r) o.carried (used, fits r same);
        }

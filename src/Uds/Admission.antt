-- ===== src/Uds/Admission.antt =====
-- How the requests of a stream enter the queue of src/server_uds.c: the relation that its input loop
-- is held against.
use wire_command_c.Common.{
  ℕ, ◌≤◌, ◌<◌, ◌≡◌, Bool, false, [], ◌∷◌, ◌++◌, arith, length, length-append, Status, ok, fail,
  eproto, enobufs, enomem, Bytes,
}
use wire_command_c.Protocol.{Request}
use wire_command_c.Protocol.Stream.{Stream, more, rest_is, broken, feed}
use wire_command_c.Queue.{QueuedRequest}
use wire_command_c.Queue.Spec.{Fifo}
use wire_command_c.Uds.Table.{max_queued_requests}

abbrev pub queued : ℕ → Request → QueuedRequest
queued client_fd r = record {
  client_fd = client_fd;
  type = r.type;
  argument_length = r.argument_length;
  argument = r.argument;
}

-- Admission to the queue of what stands in a stream: with the status at its end, and what is left of
-- the stream then. A request enters behind the others while fewer than 256 wait; it is refused with
-- ENOMEM only if a `malloc()` of the loop fails, those for which `memory` is false.
pub data Admit (memory : ℕ → Bool) (client_fd : ℕ)
    : Stream → Fifo → Status → Stream → Fifo → Type 0 where
  all_in : {xs : Bytes} {q : Fifo} → Admit memory client_fd (rest_is xs) q ok (rest_is xs) q
  refused : {q : Fifo} → Admit memory client_fd broken q (fail eproto) broken q
  full :
      {r : Request} {s : Stream} {q : Fifo}
      → max_queued_requests ≤ length q
      → Admit memory client_fd (more r s) q (fail enobufs) (more r s) q
  no_memory :
      {r : Request} {s : Stream} {q : Fifo} (k : ℕ)
      → memory k ≡ false
      → length q < max_queued_requests
      → Admit memory client_fd (more r s) q (fail enomem) (more r s) q
  next :
      {r : Request} {s s' : Stream} {q q' : Fifo} {st : Status}
      → length q < max_queued_requests
      → Admit memory client_fd s (q ++ queued client_fd r ∷ []) st s' q'
      → Admit memory client_fd (more r s) q st s' q'

-- However many requests arrive, no more than 256 wait if no more did.
pub Admit-bound :
    {memory : ℕ → Bool} {client_fd : ℕ} {s s' : Stream} {q q' : Fifo} {st : Status}
    → Admit memory client_fd s q st s' q'
    → length q ≤ max_queued_requests
    → length q' ≤ max_queued_requests
Admit-bound all_in h = h
Admit-bound refused h = h
Admit-bound (full f) h = h
Admit-bound (no_memory k e f) h = h
Admit-bound {client_fd} {q = q} (next {r} f a) h =
    Admit-bound a (omega (arith, length-append q (queued client_fd r ∷ [])))

-- An admission that succeeds would do so with any memory.
pub Admit-any :
    {memory : ℕ → Bool} (memory' : ℕ → Bool) {client_fd : ℕ} {s s' : Stream} {q q' : Fifo}
    → Admit memory client_fd s q ok s' q'
    → Admit memory' client_fd s q ok s' q'
Admit-any memory' all_in = all_in
Admit-any memory' (next h a) = next h (Admit-any memory' a)

-- Admission of a stream that arrives in two parts is that of the parts in turn.
pub Admit-feed :
    {memory memory' : ℕ → Bool} {client_fd : ℕ} {s s' t : Stream} {q q' q'' : Fifo} {st : Status}
    (ys : Bytes)
    → Admit memory client_fd s q ok s' q'
    → Admit memory' client_fd (feed s' ys) q' st t q''
    → Admit memory' client_fd (feed s ys) q st t q''
unfolding feed
Admit-feed ys all_in b = b
Admit-feed ys (next h a) b = next h (Admit-feed ys a b)

-- ===== src/Uds/Input.antt =====
-- From the socket to the queue: `wc_uds_enqueue_complete_requests` and `wc_uds_read_client` of
-- src/server_uds.c.
use wire_command_c.Common.{
  ℕ, zero, suc, Bool, some, List, [], ◌∷◌, ◌++◌, ltb, leb, ◌==◌, if◌then◌else◌, take, length,
  sub_size, Errno, emsgsize, eproto, enobufs, Status, ok, fail, Bytes,
}
use wire_command_c.Buffer.{Buffer, Realloc, append, consume}
use wire_command_c.Protocol.{complete, need_more, invalid, Request, parse_request}
use wire_command_c.Queue.Spec
use wire_command_c.Queue.Spec.{Fifo}
use wire_command_c.Uds.Table.{Client, max_queued_requests, read_size}

abbrev pub Loaded : Type 0
Loaded = Status × Client × Fifo

-- What the queue answers to a request, and the consumption of a queued one.
unfoldable pub consume_queued : Client → ℕ → Status × Fifo → Loaded
consume_queued c consumed (s, queue) = elim s [
  | fail e ↦ (fail e, c, queue)
  | ok ↦ (let (s', input) = consume c.input consumed in (s', record c { input = input }, queue))
]

-- One request on its way from the input to the queue.
unfoldable pub take_request : Bool → Client → Fifo → Request → ℕ → Loaded
unfolding consume_queued
take_request memory c queue r consumed =
    if leb max_queued_requests (length queue)
    then (fail enobufs, c, queue)
    else consume_queued c consumed
        (Spec.enqueue memory queue c.fd r.type (some r.argument) r.argument_length)

-- The further rounds of a loop, unless this one has failed.
unfoldable pub next_round : (Client → Fifo → Loaded) → Loaded → Loaded
next_round loop (s, c, queue) = elim s [ fail e ↦ (fail e, c, queue) | ok ↦ loop c queue ]

-- On fuel: the input gets shorter each time. `memory` says for each round whether `malloc()` succeeds.
unfoldable pub enqueue_loop : ℕ → (ℕ → Bool) → Client → Fifo → Loaded
unfolding take_request next_round
enqueue_loop zero memory c queue = (fail eproto, c, queue)
enqueue_loop (suc fuel) memory c queue = elim (parse_request c.input.block c.input.length) [
  | need_more ↦ (ok, c, queue)
  | invalid ↦ (fail eproto, c, queue)
  | complete r consumed ↦
      next_round (enqueue_loop fuel memory) (take_request (memory fuel) c queue r consumed)
]

-- The input's length and one round to see that nothing is left are enough (Uds/Arrival).
unfoldable pub enqueue_complete_requests : (ℕ → Bool) → Client → Fifo → Loaded
unfolding enqueue_loop
enqueue_complete_requests memory c queue = enqueue_loop (suc c.input.length) memory c queue

-- What one call of `read()` does: bytes (of which it takes as many as there is room for), the end of
-- the stream, EINTR, EAGAIN or EWOULDBLOCK, or another failure. With the bytes come what `realloc()`
-- and `malloc()` do when they are stored.
pub data ReadResult : Type 0 where
  got : Realloc → (ℕ → Bool) → Bytes → ReadResult
  end_of_stream interrupted would_block : ReadResult
  failed : Errno → ReadResult

-- What follows the append of a read to the input.
unfoldable pub store_appended : (ℕ → Bool) → Client → Fifo → Status × Buffer → Loaded
store_appended memory c queue (s, input) = elim s [
  | fail e ↦ (fail e, record c { input = input }, queue)
  | ok ↦ enqueue_complete_requests memory (record c { input = input }) queue
]

-- The bytes stored and the requests among them queued.
unfoldable pub store_bytes : Realloc → (ℕ → Bool) → Client → Fifo → Bytes → Loaded
store_bytes realloc memory c queue xs =
    store_appended memory c queue (append realloc c.input (some xs) (length xs))

-- The room for a read, `available < sizeof(bytes) ? available : sizeof(bytes)`.
abbrev pub room : Client → ℕ
room c =
    let available = sub_size c.input.max_size c.input.length in
    if ltb available read_size then available else read_size

-- One turn of the loop of reads: what `read()` took from the socket is noted in `received`, whatever is then
-- done with it. With its further turns in `loop`. The `errno` of the end of the stream
-- is the one that was set `before`. The bytes that `read()` took from the socket are noted in `received`,
-- whatever becomes of them.
unfoldable pub on_read : Errno → (Client → Fifo → Loaded) → Client → Fifo → ReadResult → Loaded
unfolding store_bytes next_round
on_read before loop c queue (got realloc memory xs) =
    let chunk = take (room c) xs in
    if length chunk == 0
    then (fail before, c, queue)
    else next_round loop (
        store_bytes realloc memory (record c { received = c.received ++ take (room c) xs }) queue
          chunk)
on_read before loop c queue end_of_stream = (fail before, c, queue)
on_read before loop c queue interrupted = loop c queue
on_read before loop c queue would_block = (ok, c, queue)
on_read before loop c queue (failed e) = (fail e, c, queue)

-- The results of the calls of `read()` in turn; behind the last one `read()` would block.
unfoldable pub read_client : Errno → List ReadResult → Client → Fifo → Loaded
unfolding on_read
read_client before [] c queue = if room c == 0 then (fail emsgsize, c, queue) else (ok, c, queue)
read_client before (r ∷ rs) c queue =
    let turn = on_read before (read_client before rs) c queue r in
    if room c == 0 then (fail emsgsize, c, queue) else turn

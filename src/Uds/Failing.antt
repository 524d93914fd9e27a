-- ===== src/Uds/Failing.antt =====
-- Why `wc_uds_read_client` of src/server_uds.c fails.
use wire_command_c.Common.{
  ℕ, ◌-◌, ◌≤◌, ◌<◌, ◌≡◌, true, ◌∙◌, sym, ap, Bool, some, List, [], ◌∷◌, ◌++◌, arith, inl, inr,
  Bool-cases, ◌==◌, min, length, length-take, take, ok, fail, Errno, emsgsize, enomem, Bytes, All,
}
use wire_command_c.Buffer.{Realloc}
use wire_command_c.Buffer.Contents.{IsValid, contents, length-contents}
use wire_command_c.Buffer.Laws.{Refuses, Refuses-by, AppendFailure, no_source, too_long, no_memory}
use wire_command_c.Protocol.Stream.{Stream, rest_is, cut, feed}
use wire_command_c.Queue.Spec.{Fifo}
use wire_command_c.Uds.Table.{Client, read_size, input_limit}
use wire_command_c.Uds.Admission.{Admit}
use wire_command_c.Uds.Entry.{Kept, same-Kept}
use wire_command_c.Uds.Storing.{Stored, store_bytes-Stored}
use wire_command_c.Uds.Reading.{
  IsSound, Drained, ReadBy, read_client-ReadBy, Admit-drained, cut-rest, room-min, stored-Kept,
}
use wire_command_c.Uds.Input.{
  Loaded, ReadResult, got, end_of_stream, interrupted, would_block, failed, next_round, on_read,
  read_client, room,
}

-- Of a result of `read()`, the bytes for which `bytes` and an input that holds `held` have room.
abbrev pub chunk_of : ℕ → Bytes → Bytes → Bytes
chunk_of limit held xs = take (min read_size (limit - length held)) xs

-- Why reading fails, for a client whose input holds `held` under `limit`, with the queue `q`: the input is
-- full, the stream has ended, a `read()` has failed, a `realloc()` has refused the bytes a block, or the
-- requests of the stream are not admitted to the queue; in the first call or in a further one, with what the
-- calls before have left in the input and in the queue.
pub data ReadFailure (client_fd : ℕ) (before : Errno) (limit : ℕ)
    : Bytes → Fifo → List ReadResult → Errno → Type 0 where
  full :
      {held : Bytes} {q : Fifo} {rs : List ReadResult}
      → limit ≤ length held
      → ReadFailure client_fd before limit held q rs emsgsize
  ended :
      {held : Bytes} {q : Fifo} {rs : List ReadResult}
      → ReadFailure client_fd before limit held q (end_of_stream ∷ rs) before
  no_bytes :
      {held : Bytes} {q : Fifo} {rs : List ReadResult} {realloc : Realloc} {memory : ℕ → Bool}
      {xs : Bytes}
      → length xs ≡ 0
      → ReadFailure client_fd before limit held q (got realloc memory xs ∷ rs) before
  call_failed :
      {held : Bytes} {q : Fifo} {rs : List ReadResult} {e : Errno}
      → ReadFailure client_fd before limit held q (failed e ∷ rs) e
  no_block :
      {held : Bytes} {q : Fifo} {rs : List ReadResult} {realloc : Realloc} {memory : ℕ → Bool}
      {xs : Bytes}
      → Refuses realloc
      → ReadFailure client_fd before limit held q (got realloc memory xs ∷ rs) enomem
  not_admitted :
      {held : Bytes} {q q' : Fifo} {rs : List ReadResult} {realloc : Realloc} {memory : ℕ → Bool}
      {xs : Bytes} {s : Stream} {e : Errno}
      → Admit memory client_fd (feed (cut held) (chunk_of limit held xs)) q (fail e) s q'
      → ReadFailure client_fd before limit held q (got realloc memory xs ∷ rs) e
  again :
      {held : Bytes} {q : Fifo} {rs : List ReadResult} {e : Errno}
      → ReadFailure client_fd before limit held q rs e
      → ReadFailure client_fd before limit held q (interrupted ∷ rs) e
  further :
      {held held' : Bytes} {q q' : Fifo} {rs : List ReadResult} {realloc : Realloc}
      {memory : ℕ → Bool} {xs : Bytes} {e : Errno}
      → Admit memory client_fd (feed (cut held) (chunk_of limit held xs)) q ok (rest_is held') q'
      → ReadFailure client_fd before limit held' q' rs e
      → ReadFailure client_fd before limit held q (got realloc memory xs ∷ rs) e

-- The reading of this client fails only for one of the reasons.
abbrev pub FailsBy : ℕ → Errno → Client → Fifo → List ReadResult → Loaded → Type 0
FailsBy client_fd before c q rs x =
    (e : Errno)
    → x.0 ≡ fail e
    → ReadFailure client_fd before c.input.max_size (contents c.input) q rs e

append-ReadFailure :
    (client_fd : ℕ) (before : Errno) (c : Client) (q : Fifo) (rs : List ReadResult)
    (realloc : Realloc) (memory : ℕ → Bool) (xs : Bytes) (e : Errno)
    → IsValid c.input
    → AppendFailure realloc c.input (some (take (room c) xs)) (length (take (room c) xs)) e
    → ReadFailure client_fd before c.input.max_size
        (contents c.input)
        q
        (got realloc memory xs ∷ rs)
        e
append-ReadFailure client_fd before c q rs realloc memory xs _ v (no_source n z) = absurd (cc)
append-ReadFailure client_fd before c q rs realloc memory xs _ v (too_long h) = absurd (
    omega (
      arith,
      length-take (room c) xs,
      room-min c v,
      length-contents c.input v,
      v.within,
      v.bounded,
    ))
append-ReadFailure client_fd before c q rs realloc memory xs _ v (no_memory h k refused) =
    no_block (Refuses-by c.input.block _ refused)

next_round-FailsBy :
    (client_fd : ℕ) (before : Errno) (c : Client) (q : Fifo) (rs : List ReadResult) (xs : Bytes)
    (realloc : Realloc) (memory : ℕ → Bool) (loop : Client → Fifo → Loaded) (x : Loaded)
    → IsValid c.input
    → ((c' : Client)
        → Kept c c' (take (room c) xs)
        → Drained c'
        → (q' : Fifo) → FailsBy client_fd before c' q' rs (loop c' q'))
    → (let chunk = take (room c) xs in
        Stored realloc memory client_fd (record c { received = c.received ++ chunk }) q chunk x)
    → FailsBy client_fd before c q (got realloc memory xs ∷ rs) (next_round loop x)
unfolding next_round
next_round-FailsBy client_fd before c q rs xs realloc memory loop (st, c', q') v rest
      (inl (e', es, ec, eq, why)) =
    λ e h.
      let same : e' ≡ e = let t = rw es at h in cc in
      rw same at (append-ReadFailure client_fd before c q rs realloc memory xs e' v why)
next_round-FailsBy client_fd before c q rs xs realloc memory loop (fail e', c', q') v rest
      (inr (a, kept)) =
    λ e h.
      let same : e' ≡ e = cc in
      let here = rw (room-min c v) at a in rw (sym same) (not_admitted here)
next_round-FailsBy client_fd before c q rs xs realloc memory loop (ok, c', q') v rest
      (inr (a, kept)) =
    λ e h.
      let first = stored-Kept c c' (take (room c) xs) v kept in
      let (ys, d) = Admit-drained a in
      let all : cut (contents c'.input) ≡ rest_is (contents c'.input) =
        d ∙ ap rest_is (cut-rest (contents c'.input) ys d) in
      let here = rw (room-min c v, all) at a in
      let there = rest c' first (ys, d) q' e h in further here (rw first.limit at there)

on_read-FailsBy :
    (client_fd : ℕ) (before : Errno) (rs : List ReadResult) (loop : Client → Fifo → Loaded)
    (c : Client) (q : Fifo) (r : ReadResult)
    → c.fd ≡ some client_fd
    → IsValid c.input
    → c.input.max_size ≤ input_limit
    → Drained c
    → IsSound r
    → 0 < room c
    → ((c' : Client)
        → (xs : Bytes) → Kept c c' xs
        → Drained c'
        → (q' : Fifo) → FailsBy client_fd before c' q' rs (loop c' q'))
    → FailsBy client_fd before c q (r ∷ rs) (on_read before loop c q r)
unfolding on_read
on_read-FailsBy client_fd before rs loop c q (got realloc memory xs) fd v l d law free rest =
    elim (Bool-cases (length (take (room c) xs) == 0)) [
      | inl z ↦ rw z (λ e h.
          let same : before ≡ e = cc in
          let nothing : length xs ≡ 0 = ground (arith, z, length-take (room c) xs, free) in
          rw (sym same) (no_bytes nothing))
      | inr z ↦ rw z (
          next_round-FailsBy client_fd before c q rs xs realloc memory loop _ v
            (λ c' kept. rest c' (take (room c) xs) kept)
            (store_bytes-Stored client_fd realloc memory
              (record c { received = c.received ++ take (room c) xs }) q (take (room c) xs) fd law v
              l))
    ]
on_read-FailsBy client_fd before rs loop c q end_of_stream fd v l d law free rest =
    λ e h. let same : before ≡ e = cc in rw (sym same) ended
on_read-FailsBy client_fd before rs loop c q interrupted fd v l d law free rest =
    λ e h. again (rest c [] (same-Kept c v) d q e h)
on_read-FailsBy client_fd before rs loop c q would_block fd v l d law free rest = λ e h. absurd (cc)
on_read-FailsBy client_fd before rs loop c q (failed x) fd v l d law free rest =
    λ e h. let same : x ≡ e = cc in rw (sym same) call_failed

-- Without room the input is full.
full-FailsBy :
    (client_fd : ℕ) (before : Errno) (c : Client) (q : Fifo) (rs : List ReadResult)
    → IsValid c.input
    → room c == 0 ≡ true
    → FailsBy client_fd before c q rs (fail emsgsize, c, q)
full-FailsBy client_fd before c q rs v z = λ e h.
    let same : emsgsize ≡ e = cc in
    let none_left : c.input.max_size ≤ length (contents c.input) =
      ground (arith, z, room-min c v) in
    rw (sym same) (full none_left)

read_client-FailsBy :
    (client_fd : ℕ) (before : Errno) (rs : List ReadResult) (c : Client) (q : Fifo)
    → c.fd ≡ some client_fd
    → IsValid c.input
    → c.input.max_size ≤ input_limit
    → Drained c
    → All IsSound rs
    → FailsBy client_fd before c q rs (read_client before rs c q)
unfolding read_client
read_client-FailsBy client_fd before [] c q fd v l d law = elim (Bool-cases (room c == 0)) [
  | inl z ↦ rw z (full-FailsBy client_fd before c q [] v z)
  | inr z ↦ rw z (λ e h. absurd (cc))
]
read_client-FailsBy client_fd before (r ∷ rs) c q fd v l d law = elim (Bool-cases (room c == 0)) [
  | inl z ↦ rw (z, read_client) (full-FailsBy client_fd before c q (r ∷ rs) v z)
  | inr z ↦
      rw (z, read_client)
        (on_read-FailsBy client_fd before rs (read_client before rs) c q r fd v l d law.0
          (ground (arith, z))
          (λ c' xs kept d' q'.
            read_client-FailsBy client_fd before rs c' q' (kept.same_fd ∙ fd) kept.valid
              (omega (arith, kept.limit)) d' law.1))
]

-- Reading from a client, whatever the calls of `read()` return, keeps its input well formed and the
-- queue within 256 requests. If it succeeds, exactly the bytes that the reads must have taken, of each result
-- as many as there is room for, have continued the stream of the client, all its complete requests are
-- queued, and the rest waits in the input. If it fails, then because the input is full, the stream has
-- ended, a `read()` has failed, a `realloc()` has refused a block, or the requests are not admitted to the
-- queue, with the errno that stands for it, after calls whose bytes were all stored and queued.
pub read_client_lem :
    (client_fd : ℕ) (before : Errno) (rs : List ReadResult) (c : Client) (q : Fifo)
    → c.fd ≡ some client_fd
    → IsValid c.input
    → c.input.max_size ≤ input_limit
    → Drained c
    → All IsSound rs
    → ReadBy client_fd c q rs (read_client before rs c q)
      × FailsBy client_fd before c q rs (read_client before rs c q)
read_client_lem client_fd before rs c q fd v l d law = (
  read_client-ReadBy client_fd before rs c q fd v l d law,
  read_client-FailsBy client_fd before rs c q fd v l d law,
)

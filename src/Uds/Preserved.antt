-- ===== src/Uds/Preserved.antt =====
-- What reading from a client in src/server_uds.c keeps of the queue: anything that each entry of a request
-- keeps. The client keeps its descriptor.
use wire_command_c.Common.{
  ℕ, zero, suc, ◌≡◌, refl, ◌∙◌, Bool, Option, List, [], ◌∷◌, inl, inr, Bool-cases, ◌==◌, leb,
  length, take, Status, ok, fail, Errno, eproto,
}
use wire_command_c.Buffer.{Buffer}
use wire_command_c.Protocol.{Request, ParseResult, complete, need_more, invalid, parse_request}
use wire_command_c.Queue.Spec.{Fifo}
use wire_command_c.Uds.Table.{Client, max_queued_requests}
use wire_command_c.Uds.Input.{
  Loaded, ReadResult, got, end_of_stream, interrupted, would_block, failed, consume_queued,
  take_request, next_round, enqueue_loop, enqueue_complete_requests, store_appended, store_bytes,
  room, on_read, read_client,
}

pub consume_queued-queue : (c : Client) (k : ℕ) (x : Status × Fifo) → (consume_queued c k x).2 ≡ x.1
unfolding consume_queued
consume_queued-queue c k (ok, q) = refl
consume_queued-queue c k (fail e, q) = refl

consume_queued-fd : (c : Client) (k : ℕ) (x : Status × Fifo) → (consume_queued c k x).1.fd ≡ c.fd
unfolding consume_queued
consume_queued-fd c k (ok, q) = refl
consume_queued-fd c k (fail e, q) = refl

take_request-fd :
    (memory : Bool) (c : Client) (q : Fifo) (r : Request) (k : ℕ)
    → (take_request memory c q r k).1.fd ≡ c.fd
unfolding take_request
take_request-fd memory c q r k = elim (Bool-cases (leb max_queued_requests (length q))) [
  | inl e ↦ simp (e)
  | inr e ↦ simp (e) (consume_queued-fd c k _)
]

module _ (P : Fifo → Type 0) (fd : Option ℕ)
    (keep : (memory : Bool) (c : Client) (q : Fifo) (r : Request) (k : ℕ)
      → c.fd ≡ fd
      → P q
      → P (take_request memory c q r k).2) where
  abbrev pub Holds : Loaded → Type 0
  Holds (s, c, q) = (c.fd ≡ fd) × P q

  abbrev Keeps : (Client → Fifo → Loaded) → Type 0
  Keeps loop = (c : Client) (q : Fifo) → c.fd ≡ fd → P q → Holds (loop c q)

  next_round-Holds :
      (loop : Client → Fifo → Loaded) (x : Loaded)
      → Keeps loop
      → Holds x
      → Holds (next_round loop x)
  unfolding next_round
  next_round-Holds loop (ok, c, q) rest (e, h) = rest c q e h
  next_round-Holds loop (fail x, c, q) rest h = h

  take_request-Holds :
      (memory : Bool) (c : Client) (q : Fifo) (r : Request) (k : ℕ)
      → c.fd ≡ fd
      → P q
      → Holds (take_request memory c q r k)
  take_request-Holds memory c q r k e h =
      (take_request-fd memory c q r k ∙ e, keep memory c q r k e h)

  enqueue_loop-Holds : (fuel : ℕ) (memory : ℕ → Bool) → Keeps (enqueue_loop fuel memory)
  unfolding enqueue_loop
  enqueue_loop-Holds zero memory c q e h = (e, h)
  enqueue_loop-Holds (suc fuel) memory c q e h =
      on_parsed (parse_request c.input.block c.input.length) (enqueue_loop-Holds fuel memory)
    where
      on_parsed :
          (p : ParseResult Request)
          → Keeps (enqueue_loop fuel memory)
          → Holds (elim p as (λ x. Loaded) [
            | need_more ↦ (ok, c, q)
            | invalid ↦ (fail eproto, c, q)
            | complete r consumed ↦
                next_round (enqueue_loop fuel memory) (take_request (memory fuel) c q r consumed)
          ])
      on_parsed need_more rest = (e, h)
      on_parsed invalid rest = (e, h)
      on_parsed (complete r k) rest =
          next_round-Holds (enqueue_loop fuel memory) (take_request (memory fuel) c q r k) rest
            (take_request-Holds (memory fuel) c q r k e h)

  store_appended-Holds :
      (memory : ℕ → Bool) (c : Client) (q : Fifo) (x : Status × Buffer)
      → c.fd ≡ fd
      → P q
      → Holds (store_appended memory c q x)
  unfolding store_appended enqueue_complete_requests
  store_appended-Holds memory c q (ok, input) e h =
      enqueue_loop-Holds (suc input.length) memory (record c { input = input }) q e h
  store_appended-Holds memory c q (fail x, input) e h = (e, h)

  on_read-Holds :
      (before : Errno) (loop : Client → Fifo → Loaded) (c : Client) (q : Fifo) (r : ReadResult)
      → Keeps loop
      → c.fd ≡ fd
      → P q
      → Holds (on_read before loop c q r)
  unfolding on_read store_bytes
  on_read-Holds before loop c q (got realloc memory xs) rest e h =
      elim (Bool-cases (length (take (room c) xs) == 0)) [
        | inl z ↦ rw z (e, h)
        | inr z ↦ rw z (next_round-Holds loop _ rest (store_appended-Holds memory _ q _ e h))
      ]
  on_read-Holds before loop c q end_of_stream rest e h = (e, h)
  on_read-Holds before loop c q interrupted rest e h = rest c q e h
  on_read-Holds before loop c q would_block rest e h = (e, h)
  on_read-Holds before loop c q (failed x) rest e h = (e, h)

  pub read_client-Holds : (before : Errno) (rs : List ReadResult) → Keeps (read_client before rs)
  unfolding read_client
  read_client-Holds before [] c q e h = elim (Bool-cases (room c == 0)) [
    | inl z ↦ rw z (e, h)
    | inr z ↦ rw z (e, h)
  ]
  read_client-Holds before (r ∷ rs) c q e h = elim (Bool-cases (room c == 0)) [
    | inl z ↦ rw (z, read_client) (e, h)
    | inr z ↦
        rw (z, read_client)
          (on_read-Holds before (read_client before rs) c q r (read_client-Holds before rs) e h)
  ]

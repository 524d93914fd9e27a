-- ===== src/Uds/Served.antt =====
-- What serving a client, and answering its request, in src/server_uds.c makes of that client and of the
-- queue.
use wire_command_c.Common.{
  ℕ, ◌-◌, ◌≡◌, refl, ◌∙◌, ap, arith, ◌⊎◌, inl, inr, Bool, false, Bool-cases, ◌||◌, ◌&&◌, not,
  Option, none, some, [], ◌∷◌, ◌++◌, ◌==◌, leb, ltb, length, size_mod, is_null, All, ok, fail,
  Bytes,
}
use wire_command_c.Buffer.{Buffer}
use wire_command_c.Protocol.{Request, RequestType, request_type_valid}
use wire_command_c.Queue.{request_size}
use wire_command_c.Queue.Spec
use wire_command_c.Queue.Spec.{Fifo}
use wire_command_c.Uds.Table.{Client, remove_client, max_queued_requests}
use wire_command_c.Uds.Respond.{Calls}
use wire_command_c.Uds.Input.{Loaded, take_request}
use wire_command_c.Uds.Output.{Written, Drains, write_client-Drains}
use wire_command_c.Uds.Loop.{Events, removed, after_write, after_read, serve}
use wire_command_c.Uds.Preserved.{consume_queued-queue, read_client-Holds}
use wire_command_c.Uds.Reading.{IsSound, ReadBy, read_client-ReadBy}
use wire_command_c.Uds.Ready.{Ready}
use wire_command_c.Uds.Ordered.{Ordered, read-Ordered, write-Ordered}
use wire_command_c.Uds.Elsewhere.{Elsewhere, discard_client-Elsewhere, take_request-Elsewhere}

-- All requests are of such clients.
abbrev pub AllFrom : (ℕ → Type 0) → Fifo → Type 0
AllFrom P = All (λ r. P r.client_fd)

-- The client `n` is still there, well formed and in order, or it has gone, and its requests with it. The
-- queue was `q₀`, and the requests of the other clients are as they were.
abbrev pub Kept : (Calls → Type 0) → (ℕ → Type 0) → ℕ → Fifo → Client × Fifo → Type 0
Kept C P n q₀ (c, q) =
    ((c.fd ≡ some n) × Ready c × AllFrom P q × Ordered C n c q × Elsewhere n q₀ q)
    ⊎ ((c.fd ≡ none) × AllFrom (λ m. P m × (m == n ≡ false)) q × Elsewhere n q₀ q)

module _ (C : Calls → Type 0) (P : ℕ → Type 0) (n : ℕ) (known : P n) where
  append-AllFrom : (q q' : Fifo) → AllFrom P q → AllFrom P q' → AllFrom P (q ++ q')
  append-AllFrom [] q' a b = b
  append-AllFrom (r ∷ q) q' a b = (a.0, append-AllFrom q q' a.1 b)

  enqueue-AllFrom :
      (memory : Bool) (q : Fifo) (type : RequestType) (argument : Option Bytes) (k : ℕ)
      → AllFrom P q
      → AllFrom P (Spec.enqueue memory q (some n) type argument k).1
  unfolding Spec.enqueue
  enqueue-AllFrom memory q type argument k a =
      elim (Bool-cases (not (request_type_valid type) || (is_null argument && not (k == 0)))) [
        | inl e ↦ rw e a
        | inr e ↦ elim (Bool-cases (ltb (size_mod - 1 - request_size) k)) [
          | inl f ↦ rw (e, f) a
          | inr f ↦ elim (Bool-cases memory) [
            | inl g ↦ rw (e, f, g) (append-AllFrom q _ a (known, tt))
            | inr g ↦ rw (e, f, g) a
          ]
        ]
      ]

  take_request-AllFrom :
      (memory : Bool) (c : Client) (q : Fifo) (r : Request) (k : ℕ)
      → c.fd ≡ some n
      → AllFrom P q
      → AllFrom P (take_request memory c q r k).2
  unfolding take_request
  take_request-AllFrom memory c q r k e a = elim (Bool-cases (leb max_queued_requests (length q))) [
    | inl f ↦ rw f a
    | inr f ↦
        let x = Spec.enqueue memory q c.fd r.type (some r.argument) r.argument_length in
        let entered : AllFrom P x.1 =
          simp (e) (enqueue-AllFrom memory q r.type (some r.argument) r.argument_length a) in
        rw (f, consume_queued-queue c k x) entered
  ]

  discard_client-AllFrom :
      (q : Fifo) → AllFrom P q → AllFrom (λ m. P m × (m == n ≡ false)) (Spec.discard_client n q)
  discard_client-AllFrom [] a = tt
  discard_client-AllFrom (r ∷ q) a = elim (Bool-cases (r.client_fd == n)) [
    | inl e ↦ rw e (discard_client-AllFrom q a.1)
    | inr e ↦ rw e ((a.0, e), discard_client-AllFrom q a.1)
  ]

  pub removed-Kept :
      (q₀ : Fifo) (c : Client) (q : Fifo)
      → c.fd ≡ some n
      → AllFrom P q
      → Elsewhere n q₀ q
      → Kept C P n q₀ (removed c q)
  unfolding remove_client
  removed-Kept q₀ c q e a h = at c.fd e
    where
      at : (o : Option ℕ) → o ≡ some n → Kept C P n q₀ (removed (record c { fd = o }) q)
      at none f = absurd (cc)
      at (some m) f =
          let same : m ≡ n = cc in
          rw same (
            inr (refl, discard_client-AllFrom q a, λ k d. discard_client-Elsewhere n q k d ∙ h k d))

  after_write-Kept :
      (q₀ : Fifo) (hung_up : Bool) (c : Client) (q : Fifo) (w : Written)
      → c.fd ≡ some n
      → Ready c
      → Ordered C n c q
      → AllFrom P q
      → Elsewhere n q₀ q
      → Drains c.output w
      → Kept C P n q₀ (after_write hung_up c q w)
  unfolding after_write
  after_write-Kept q₀ hung_up c q (fail e, output, taken) f r o a h d = removed-Kept q₀ _ q f a h
  after_write-Kept q₀ hung_up c q (ok, output, taken) f r o a h d = elim (Bool-cases hung_up) [
    | inl e ↦ rw e (removed-Kept q₀ _ q f a h)
    | inr e ↦ rw e (
        inl (
          f,
          record {
            input_valid = r.input_valid;
            input_max = r.input_max;
            drained = r.drained;
            output_valid = d.0;
            output_max = d.1 ∙ r.output_max;
          },
          a,
          write-Ordered n c q output taken o d,
          h,
        ))
  ]

  after_read-Kept :
      (q₀ : Fifo) (events : Events) (x : Loaded)
      → x.1.fd ≡ some n
      → ((x.0 ≡ ok) → Ready x.1 × Ordered C n x.1 x.2)
      → AllFrom P x.2
      → Elsewhere n q₀ x.2
      → Kept C P n q₀ (after_read events x)
  unfolding after_read
  after_read-Kept q₀ events (fail e, c, q) f r a h = removed-Kept q₀ c q f a h
  after_read-Kept q₀ events (ok, c, q) f r a h =
      let (ready, ordered) = r refl in
      after_write-Kept q₀ events.hung_up c q _ f ready ordered a h
        (elim (Bool-cases events.writable) [
          | inl e ↦ rw e (
              write_client-Drains events.errno_before_writes events.writes c.output
                ready.output_valid)
          | inr e ↦ rw e (ready.output_valid, refl, refl)
        ])

  read-Kept :
      (events : Events) (c : Client) (q : Fifo) (x : Loaded)
      → Ready c
      → Ordered C n c q
      → ReadBy n c q events.reads x
      → x.0 ≡ ok
      → Ready x.1 × Ordered C n x.1 x.2
  read-Kept events c q (s, c', q') r o (received, kept, bound, more) e =
      let (taken, drained, admitted) = more e in
      (
        record {
          input_valid = kept.valid;
          input_max = kept.limit ∙ r.input_max;
          drained = drained;
          output_valid = rw kept.same_output r.output_valid;
          output_max = ap (λ (b : Buffer). b.max_size) kept.same_output ∙ r.output_max;
        },
        read-Ordered n c c' q q' events.reads received o kept (more e),
      )

  pub serve-Kept :
      (events : Events) (c : Client) (q : Fifo)
      → All IsSound events.reads
      → c.fd ≡ some n
      → Ready c
      → Ordered C n c q
      → AllFrom P q
      → Kept C P n q (serve events c q)
  unfolding serve
  serve-Kept events c q law f r o a = at c.fd f
    where
      at : (fd : Option ℕ) → fd ≡ some n → Kept C P n q (serve events (record c { fd = fd }) q)
      at none h = absurd (cc)
      at (some m) h =
          let c' : Client = record c { fd = some m } in
          let ready : Ready c' = record {
            input_valid = r.input_valid;
            input_max = r.input_max;
            drained = r.drained;
            output_valid = r.output_valid;
            output_max = r.output_max;
          } in
          let ordered : Ordered C n c' q = record {
            answered = o.answered;
            waiting = o.waiting;
            stream = o.stream;
            replies = o.replies;
            queue = o.queue;
            carried = o.carried;
          } in
          let held =
            read_client-Holds (AllFrom P) (some n) take_request-AllFrom events.errno_before_reads
              events.reads c' q h a in
          let others =
            read_client-Holds (Elsewhere n q) (some n) (take_request-Elsewhere n q)
              events.errno_before_reads events.reads c' q h (λ k d. refl) in
          let by =
            read_client-ReadBy n events.errno_before_reads events.reads c' q h r.input_valid
              (omega (arith, r.input_max)) r.drained law in
          elim (Bool-cases events.readable) [
            | inl e ↦ rw e (
                after_read-Kept q events _ held.0 (read-Kept events c' q _ ready ordered by) held.1
                  others.1)
            | inr e ↦
                rw e
                  (after_read-Kept q events (ok, c', q) h (λ z. (ready, ordered)) a (λ k d. refl))
          ]

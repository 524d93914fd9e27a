-- ===== src/Uds/Arrival.antt =====
-- What `wc_uds_enqueue_complete_requests` and the storing of a read in src/server_uds.c do, against
-- the stream of requests that the client has sent.
use wire_command_c.Common.{
  ℕ, zero, suc, ◌-◌, ◌≤◌, ◌<◌, ◌≡◌, ◌∙◌, sym, ap, Bool, some, [], ◌∷◌, ◌++◌, arith, inl, inr,
  length, drop, ok, fail, eproto,
}
use wire_command_c.Buffer.Contents.{IsValid, contents, length-contents}
use wire_command_c.Protocol.{Request, complete, need_more, invalid, parse_request}
use wire_command_c.Protocol.Parse.{parse_request-take}
use wire_command_c.Protocol.Stream.{
  more, cut, parse-cases, cut-complete, cut-need_more, cut-invalid,
}
use wire_command_c.Queue.Spec.{Fifo}
use wire_command_c.Uds.Table.{Client, input_limit}
use wire_command_c.Uds.Admission.{queued, Admit, all_in, refused, full, no_memory, next}
use wire_command_c.Uds.Input.{
  Loaded, next_round, take_request, enqueue_loop, enqueue_complete_requests,
}
use wire_command_c.Uds.Entry.{Kept, same-Kept, Kept-trans, Enqueued, take_request-Enqueued}

abbrev pub Admitted : (ℕ → Bool) → ℕ → Client → Fifo → Loaded → Type 0
Admitted memory client_fd c q (st, c', q') =
    Admit memory client_fd (cut (contents c.input)) q st (cut (contents c'.input)) q' × Kept c c' []

-- The parser sees the contents of the input.
parse-input :
    (c : Client)
    → IsValid c.input
    → parse_request c.input.block c.input.length
      ≡ parse_request (some (contents c.input)) (length (contents c.input))
parse-input c v =
    parse_request-take c.input.block c.input.length (omega (arith, v.within, v.allocated))
    ∙ ap (λ (n : ℕ). parse_request (some (contents c.input)) n) (sym (length-contents c.input v))

-- A round of the loop, for each answer of the parser.
module _ (fuel : ℕ) (memory : ℕ → Bool) (c : Client) (q : Fifo) where
  loop-need_more :
      parse_request c.input.block c.input.length ≡ need_more
      → enqueue_loop (suc fuel) memory c q ≡ (ok, c, q)
  unfolding enqueue_loop
  loop-need_more e = rw (e, enqueue_loop)

  loop-invalid :
      parse_request c.input.block c.input.length ≡ invalid
      → enqueue_loop (suc fuel) memory c q ≡ (fail eproto, c, q)
  unfolding enqueue_loop
  loop-invalid e = rw (e, enqueue_loop)

  loop-complete :
      (r : Request) (k : ℕ)
      → parse_request c.input.block c.input.length ≡ complete r k
      → enqueue_loop (suc fuel) memory c q
        ≡ next_round (enqueue_loop fuel memory) (take_request (memory fuel) c q r k)
  unfolding enqueue_loop next_round
  loop-complete r k e = rw (e, enqueue_loop)

-- The rounds after one that met a request.
next_round-Admitted :
    (memory : ℕ → Bool) (j client_fd : ℕ) (c : Client) (q : Fifo) (r : Request) (k : ℕ)
    (loop : Client → Fifo → Loaded) (x : Loaded)
    → cut (contents c.input) ≡ more r (cut (drop k (contents c.input)))
    → IsValid c.input
    → ((c' : Client)
        → Kept c c' []
        → c'.input.length ≡ c.input.length - k
        → (q' : Fifo) → Admitted memory client_fd c' q' (loop c' q'))
    → Enqueued (memory j) client_fd c q r k x
    → Admitted memory client_fd c q (next_round loop x)
unfolding next_round
next_round-Admitted memory j client_fd c q r k loop (st, c', q') e v rest (inl (es, ec, eq, h)) =
    rw (es, ec, eq, e) (full h, same-Kept c v)
next_round-Admitted memory j client_fd c q r k loop (st, c', q') e v rest
      (inr (inl (es, em, ec, eq, h))) =
    rw (es, ec, eq, e) (no_memory j em h, same-Kept c v)
next_round-Admitted memory j client_fd c q r k loop (st, c', q') e v rest
      (inr (inr (es, h, eq, ec, el, kept))) =
    let t = rest c' kept el (q ++ queued client_fd r ∷ []) in
    let first = rw ec at t.0 in rw (es, eq, e) (next h first, Kept-trans kept t.1)

-- The loop admits the requests of the stream that the input holds.
enqueue_loop-Admitted :
    (client_fd fuel : ℕ) (memory : ℕ → Bool) (c : Client) (q : Fifo)
    → c.fd ≡ some client_fd
    → IsValid c.input
    → c.input.length ≤ input_limit
    → c.input.length < fuel
    → Admitted memory client_fd c q (enqueue_loop fuel memory c q)
enqueue_loop-Admitted client_fd zero memory c q fd v l p = absurd (omega arith)
enqueue_loop-Admitted client_fd (suc fuel) memory c q fd v l p =
    elim (parse-cases (contents c.input)) [
      | inl (r, k, e, pos, le) ↦
          let m : k ≤ c.input.length = omega (arith, length-contents c.input v) in
          rw (loop-complete fuel memory c q r k (parse-input c v ∙ e)) (
            next_round-Admitted memory fuel client_fd c q r k (enqueue_loop fuel memory) _
              (cut-complete (contents c.input) r k e) v
              (λ c' kept el q'.
                enqueue_loop-Admitted client_fd fuel memory c' q' (kept.same_fd ∙ fd) kept.valid
                  (omega arith) (omega (arith, m)))
              (take_request-Enqueued client_fd (memory fuel) c q r k fd v l e m))
      | inr (inl e) ↦
          rw
            (
              loop-need_more fuel memory c q (parse-input c v ∙ e),
              cut-need_more (contents c.input) e,
            )
            (all_in, same-Kept c v)
      | inr (inr e) ↦
          rw (loop-invalid fuel memory c q (parse-input c v ∙ e), cut-invalid (contents c.input) e)
            (refused, same-Kept c v)
    ]

-- The server takes the complete requests out of the input in the order of the stream, each one behind
-- those that wait, until the stream has no further request, is refused (EPROTO), 256 requests wait
-- (ENOBUFS) or a `malloc()` has failed (ENOMEM), and leaves exactly the rest of the stream in the input.
pub enqueue_complete_requests-Admitted :
    (client_fd : ℕ) (memory : ℕ → Bool) (c : Client) (q : Fifo)
    → c.fd ≡ some client_fd
    → IsValid c.input
    → c.input.length ≤ input_limit
    → Admitted memory client_fd c q (enqueue_complete_requests memory c q)
unfolding enqueue_complete_requests
enqueue_complete_requests-Admitted client_fd memory c q fd v l =
    enqueue_loop-Admitted client_fd (suc c.input.length) memory c q fd v l (omega arith)

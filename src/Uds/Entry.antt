-- ===== src/Uds/Entry.antt =====
-- How one request of the stream enters the queue of src/server_uds.c.
use wire_command_c.Common.{
  ℕ, ◌-◌, ◌≤◌, ◌<◌, ◌≡◌, refl, ◌∙◌, sym, ap, Bool, true, false, Option, some, [], ◌∷◌, ◌++◌, arith,
  ◌⊎◌, inl, inr, Bool-cases, not, ltb, leb, if◌then◌else◌, length, length-take, take, append-nil,
  append_assoc, take_all, size_mod, drop, ok, fail, enobufs, enomem, Bytes,
}
use wire_command_c.Buffer.Contents.{IsValid, contents, length-contents}
use wire_command_c.Buffer.Laws.{consume_lem}
use wire_command_c.Protocol.{Request, complete, parse_request, request_type_valid, decode_u16}
use wire_command_c.Protocol.Parse.{accepted}
use wire_command_c.Queue.{request_size}
use wire_command_c.Queue.Spec
use wire_command_c.Queue.Spec.{Fifo}
use wire_command_c.Uds.Table.{Client, input_limit, max_queued_requests}
use wire_command_c.Uds.Admission.{queued}
use wire_command_c.Uds.Input.{Loaded, consume_queued, take_request}

-- What reading leaves alone, with the input well formed, and `xs` received.
pub record Kept (c c' : Client) (xs : Bytes) : Type 0 where
  pub valid : IsValid c'.input
  pub limit : c'.input.max_size ≡ c.input.max_size
  pub same_fd : c'.fd ≡ c.fd
  pub same_output : c'.output ≡ c.output
  pub same_sent : c'.sent_bytes ≡ c.sent_bytes
  pub grown : c'.received ≡ c.received ++ xs

pub same-Kept : (c : Client) → IsValid c.input → Kept c c []
same-Kept c v = record {
  valid = v;
  limit = refl;
  same_fd = refl;
  same_output = refl;
  same_sent = refl;
  grown = sym (append-nil c.received);
}

pub Kept-trans : {a b c : Client} {xs ys : Bytes} → Kept a b xs → Kept b c ys → Kept a c (xs ++ ys)
Kept-trans {a} {xs = xs} {ys = ys} x y = record {
  valid = y.valid;
  limit = y.limit ∙ x.limit;
  same_fd = y.same_fd ∙ x.same_fd;
  same_output = y.same_output ∙ x.same_output;
  same_sent = y.same_sent ∙ x.same_sent;
  grown = y.grown ∙ ap (λ (zs : Bytes). zs ++ ys) x.grown ∙ append_assoc a.received xs ys;
}

-- A parsed request, given to the queue, needs memory and nothing else.
enqueue-parsed :
    (client_fd : ℕ) (memory : Bool) (q : Fifo) (xs : Bytes) (r : Request) (k : ℕ)
    → length xs ≤ input_limit
    → parse_request (some xs) (length xs) ≡ complete r k
    → Spec.enqueue memory q (some client_fd) r.type (some r.argument) r.argument_length
      ≡ (if memory then (ok, q ++ queued client_fd r ∷ []) else (fail enomem, q))
unfolding Spec.enqueue
enqueue-parsed client_fd memory q xs r k l e =
    let t = accepted xs r k e in
    let fits : ltb (size_mod - 1 - request_size) r.argument_length ≡ false = ground (arith, t) in
    let all : take r.argument_length r.argument ≡ r.argument =
      take_all r.argument_length r.argument (
        omega (
          arith,
          ap (λ (ys : Bytes). length ys) t.1.5,
          length-take (decode_u16 xs 4) (drop 6 xs),
        )) in
    let known : request_type_valid r.type ≡ true = ap request_type_valid t.1.4 ∙ t.1.0 in
    rw (known, fits, all)
      (elim memory
        as (λ m.
          (if not m then (fail enomem, q) else (ok, q ++ queued client_fd r ∷ []))
          ≡ (if m then (ok, q ++ queued client_fd r ∷ []) else (fail enomem, q))) [
            | true ↦ refl
            | false ↦ refl
          ])

-- What becomes of one request: the queue is full, or memory is short, or it is queued and consumed.
abbrev pub Enqueued : Bool → ℕ → Client → Fifo → Request → ℕ → Loaded → Type 0
Enqueued memory client_fd c q r k (st, c', q') =
    ((st ≡ fail enobufs) × (c' ≡ c) × (q' ≡ q) × (max_queued_requests ≤ length q))
    ⊎ (((st ≡ fail enomem)
          × (memory ≡ false)
          × (c' ≡ c)
          × (q' ≡ q)
          × (length q < max_queued_requests))
        ⊎ ((st ≡ ok)
            × (length q < max_queued_requests)
            × (q' ≡ q ++ queued client_fd r ∷ [])
            × (contents c'.input ≡ drop k (contents c.input))
            × (c'.input.length ≡ c.input.length - k)
            × Kept c c' []))

consume_queued-Enqueued :
    (client_fd : ℕ) (memory : Bool) (c : Client) (q : Fifo) (r : Request) (k : ℕ)
    → IsValid c.input
    → k ≤ c.input.length
    → length q < max_queued_requests
    → Enqueued memory client_fd c q r k (
        consume_queued c k
          (if memory then (ok, q ++ queued client_fd r ∷ []) else (fail enomem, q)))
unfolding consume_queued
consume_queued-Enqueued client_fd false c q r k v m room = inr (inl (refl, refl, refl, refl, room))
consume_queued-Enqueued client_fd true c q r k v m room =
    let t = consume_lem c.input k v in
    elim t.2 [
      | inl (s, le, holds, shorter) ↦ inr (
          inr (
            s,
            room,
            refl,
            holds,
            shorter,
            record {
              valid = t.0;
              limit = t.1;
              same_fd = refl;
              same_output = refl;
              same_sent = refl;
              grown = sym (append-nil c.received);
            },
          ))
      | inr (s, lt, b) ↦ absurd (omega (arith, m, lt))
    ]

pub take_request-Enqueued :
    (client_fd : ℕ) (memory : Bool) (c : Client) (q : Fifo) (r : Request) (k : ℕ)
    → c.fd ≡ some client_fd
    → IsValid c.input
    → c.input.length ≤ input_limit
    → parse_request (some (contents c.input)) (length (contents c.input)) ≡ complete r k
    → k ≤ c.input.length
    → Enqueued memory client_fd c q r k (take_request memory c q r k)
unfolding take_request
take_request-Enqueued client_fd memory c q r k fd v l e m =
    let t =
      ap (λ (o : Option ℕ). Spec.enqueue memory q o r.type (some r.argument) r.argument_length) fd
      ∙ enqueue-parsed client_fd memory q (contents c.input) r k
          (omega (arith, length-contents c.input v)) e in
    elim (Bool-cases (leb max_queued_requests (length q))) [
      | inl f ↦ rw f (inl (refl, refl, refl, ground (arith, f)))
      | inr f ↦ rw (f, t) (consume_queued-Enqueued client_fd memory c q r k v m (ground (arith, f)))
    ]

-- ===== src/Uds/Bound.antt =====
-- The bound of the queue through the whole of src/server_uds.c.
use wire_command_c.Common.{
  ℕ, ◌+◌, ◌-◌, ◌≤◌, Bool, Option, none, some, List, [], ◌∷◌, arith, inl, inr, Bool-cases, ◌==◌, not,
  ◌&&◌, ◌||◌, is_null, ltb, leb, length, length-append, take, size_mod, Errno, refl, Bytes, bytes,
}
use wire_command_c.Protocol.{RequestType, Request, request_type_valid}
use wire_command_c.Queue.{request_size}
use wire_command_c.Queue.Spec
use wire_command_c.Queue.Spec.{Fifo}
use wire_command_c.Uds.Table.{Client, max_queued_requests}
use wire_command_c.Uds.Preserved.{consume_queued-queue, read_client-Holds}
use wire_command_c.Uds.Input.{ReadResult, take_request, read_client}

-- No more requests wait than the server allows.
abbrev pub IsBounded : Fifo → Type 0
IsBounded queue = length queue ≤ max_queued_requests

enqueue-length :
    (memory : Bool) (q : Fifo) (fd : Option ℕ) (type : RequestType) (argument : Option Bytes)
    (n : ℕ)
    → length (Spec.enqueue memory q fd type argument n).1 ≤ length q + 1
unfolding Spec.enqueue
enqueue-length memory q none type argument n = omega arith
enqueue-length memory q (some client_fd) type argument n =
    elim (Bool-cases (not (request_type_valid type) || (is_null argument && not (n == 0)))) [
      | inl e ↦ rw e (omega arith)
      | inr e ↦ elim (Bool-cases (ltb (size_mod - 1 - request_size) n)) [
        | inl f ↦ rw (e, f) (omega arith)
        | inr f ↦ elim (Bool-cases memory) [
          | inl g ↦
              rw (e, f, g)
                (omega (
                  arith,
                  length-append q (
                      record {
                        client_fd = client_fd;
                        type = type;
                        argument_length = n;
                        argument = take n (bytes argument);
                      }
                      ∷ []),
                ))
          | inr g ↦ rw (e, f, g) (omega arith)
        ]
      ]
    ]

take_request-IsBounded :
    (memory : Bool) (c : Client) (q : Fifo) (r : Request) (k : ℕ)
    → IsBounded q
    → IsBounded (take_request memory c q r k).2
unfolding take_request
take_request-IsBounded memory c q r k h = elim (Bool-cases (leb max_queued_requests (length q))) [
  | inl e ↦ rw e h
  | inr e ↦
      let x = Spec.enqueue memory q c.fd r.type (some r.argument) r.argument_length in
      let grown = enqueue-length memory q c.fd r.type (some r.argument) r.argument_length in
      rw (e, consume_queued-queue c k x) (ground (arith, e, grown))
]

-- Reading never makes the queue longer than its limit, in whatever state the client is.
pub read_client-IsBounded :
    (before : Errno) (rs : List ReadResult) (c : Client) (q : Fifo)
    → IsBounded q
    → IsBounded (read_client before rs c q).2
read_client-IsBounded before rs c q h =
    (read_client-Holds IsBounded c.fd
      (λ memory c' q' r k e. take_request-IsBounded memory c' q' r k) before rs c q refl h).1

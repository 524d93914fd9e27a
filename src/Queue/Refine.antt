-- ===== src/Queue/Refine.antt =====
-- The linked list of src/queue.c does what Queue/Spec promises of the list of its requests.
use wire_command_c.Common.{
  ℕ, suc, ◌-◌, ◌<◌, ◌≡◌, refl, ◌∙◌, ap, Option, none, some, [], ◌∷◌, ◌++◌, arith, ◌⊎◌, inl, inr,
  Bool-cases, ◌==◌, ltb, not, ◌&&◌, ◌||◌, length, size_mod, is_null, Bytes, Status,
}
use wire_command_c.Protocol.{RequestType, request_type_valid}
use wire_command_c.Protocol.Frame.{request_type_valid→}
use wire_command_c.Queue.{
  Pointer, null, Node, Queue, Run, done, enqueue, dequeue, discard_client, request_size,
}
use wire_command_c.Queue.Segment.{Placed, IsQueue, requests}
use wire_command_c.Queue.Enqueue.{enqueue-IsQueue}
use wire_command_c.Queue.Dequeue.{dequeue-IsQueue, dequeue-empty}
use wire_command_c.Queue.Discard.{others, discard_client-IsQueue, length-others}
use wire_command_c.Queue.Spec
use mathlib.Core.Option

-- The call of the C function ends well, with the status that the specification gives, in a queue that
-- holds the requests that the specification gives.
abbrev pub Refines : Run (Status × Queue) → Status × Spec.Fifo → Type 0
Refines r (s, xs) =
    (q : Queue) × (ys : Placed) × (r ≡ done (s, q)) × IsQueue q ys × (requests ys ≡ xs)

requests-append : (xs ys : Placed) → requests (xs ++ ys) ≡ requests xs ++ requests ys
requests-append [] ys = refl
requests-append (x ∷ xs) ys = ap (◌∷◌ x.1) (requests-append xs ys)

-- An enqueue, whether it succeeds or fails, does to the linked list what the specification does to the
-- list of its requests; `malloc()` returns NULL or an address where there is no node.
pub enqueue-Refines :
    (q : Queue) (p : Pointer) (xs : Placed) (client_fd : Option ℕ) (type : RequestType)
    (argument : Option Bytes) (n : ℕ)
    → IsQueue q xs
    → (p ≡ null) ⊎ (q.heap p ≡ none)
    → suc (length xs) < size_mod
    → Refines
        (enqueue p q client_fd type argument n)
        (Spec.enqueue (not (p == null)) (requests xs) client_fd type argument n)
unfolding Spec.enqueue
enqueue-Refines q p xs none type argument n v f l = (q, xs, unfold enqueue in refl, v, refl)
enqueue-Refines q p xs (some c) type argument n v f l =
    elim (Bool-cases (not (request_type_valid type) || (is_null argument && not (n == 0)))) [
      | inl e ↦ rw e (q, xs, unfold enqueue in rw e, v, refl)
      | inr g ↦ elim (Bool-cases (ltb (size_mod - 1 - request_size) n)) [
        | inl e ↦ rw (g, e) (q, xs, unfold enqueue in rw (g, e), v, refl)
        | inr h ↦ elim (Bool-cases (p == null)) [
          | inl e ↦ rw (g, h, e) (q, xs, unfold enqueue in rw (g, h, e), v, refl)
          | inr k ↦
              let (q', e, v', _) =
                enqueue-IsQueue q p xs c type argument n v (ground arith) (ground arith) l
                  (request_type_valid→ type (ground (arith, g))) (ground (arith, g))
                  (ground (arith, h)) in
              rw (g, h, k) (q', _, e, v', requests-append xs _)
        ]
      ]
    ]

requests-others :
    (client_fd : ℕ) (xs : Placed)
    → requests (others client_fd xs) ≡ Spec.discard_client client_fd (requests xs)
requests-others client_fd [] = refl
requests-others client_fd (x ∷ xs) = ground (arith, requests-others client_fd xs)

-- Discarding a client leaves a queue of the requests that the specification leaves, and returns how
-- many were removed.
pub discard_client_refines :
    (q : Queue) (client_fd : ℕ) (xs : Placed)
    → IsQueue q xs
    → (q' : Queue) × (ys : Placed) × (discard_client q client_fd ≡ done (length xs - length ys, q'))
      × IsQueue q' ys
      × (requests ys ≡ Spec.discard_client client_fd (requests xs))
discard_client_refines q client_fd xs v =
    let (q', e, v', _) = discard_client-IsQueue q client_fd xs v in
    (
      q',
      others client_fd xs,
      e ∙ ap (λ (k : ℕ). done (k, q')) (omega (arith, length-others client_fd xs)),
      v',
      requests-others client_fd xs,
    )

-- A dequeue hands over the node of the request that the specification hands over, and leaves a queue
-- of the rest; on an empty queue both fail.
pub dequeue_refines :
    (q : Queue) (xs : Placed)
    → IsQueue q xs
    → let (s, x, rest) = Spec.dequeue (requests xs) in
      (p : Pointer) × (q' : Queue) × (ys : Placed) × (dequeue q ≡ done (s, p, q'))
      × IsQueue q' ys
      × (requests ys ≡ rest)
      × (Option.map (λ (n : Node). n.request) (q'.heap p) ≡ x ⊎ (x ≡ none) × (p ≡ null))
unfolding Spec.dequeue
dequeue_refines q [] v = (null, q, [], dequeue-empty q v, v, refl, inr (refl, refl))
dequeue_refines q ((a, x) ∷ r) v =
    let (q', e, v', h, _) = dequeue-IsQueue q a x r v in (a, q', r, e, v', refl, inl (rw h))

-- ===== src/Queue/Enqueue.antt =====
-- `wc_request_queue_enqueue` of src/queue.c puts the request behind the others.
use wire_command_c.Common.{
  ℕ, suc, ◌+◌, ◌≤◌, ◌<◌, ◌≡◌, ◌≢◌, refl, sym, Option, none, some, [], ◌∷◌, ◌++◌, arith, false, ◌&&◌,
  not, ◌==◌, length, length-append, size_mod, take, Bool-cases, Errno, einval, eoverflow, enomem,
  ok, fail, Bytes, bytes, is_null, inl, inr, add_size,
}
use wire_command_c.Protocol.{RequestType, request_type_valid}
use wire_command_c.Protocol.Frame.{IsRequestType, request_type_valid→, →request_type_valid}
use wire_command_c.Queue.{
  Pointer, null, QueuedRequest, Node, Heap, Queue, done, write, link, enqueue, request_size,
}
use wire_command_c.Queue.Segment.{
  Placed, node, last, Cells, Absent, Distinct, IsQueue, Absent-fresh, Distinct-snoc, last-snoc,
  last-ne_of_Absent, last-cell,
}

-- The heap with the new node, and the old last node pointing to it.
Cells-link :
    (h : Heap) (p : Pointer) (x : QueuedRequest) (n : Node) (a : Pointer) (y : QueuedRequest)
    (r : Placed)
    → p ≢ null
    → h (last ((a, y) ∷ r)) ≡ some n
    → Absent p ((a, y) ∷ r)
    → Distinct ((a, y) ∷ r)
    → Cells h ((a, y) ∷ r)
    → Cells
        (write (write h p (some (node x null))) (last ((a, y) ∷ r)) (some (record n { next = p })))
        (((a, y) ∷ r) ++ (p, x) ∷ [])
Cells-link h p x n a y [] z e f d cs = (cs.0, ground arith, (z, ground arith, tt))
Cells-link h p x n a y ((b, w) ∷ r) z e f d cs =
    (cs.0, ground (arith, last-ne_of_Absent a b w r d.0), Cells-link h p x n b w r z e f.1 d.1 cs.2)

link-IsQueue :
    (q : Queue) (p : Pointer) (x : QueuedRequest) (xs : Placed)
    → p ≢ null
    → q.heap p ≡ none
    → suc (length xs) < size_mod
    → IsQueue q xs
    → (q' : Queue) × (link (record q { heap = write q.heap p (some (node x null)) }) p ≡ done q')
      × IsQueue q' (xs ++ (p, x) ∷ [])
      × ((o : Pointer) → o ≢ p → Absent o xs → q'.heap o ≡ q.heap o)
unfolding link
link-IsQueue q p x [] z f l v = (
  record {
    heap = write q.heap p (some (node x null));
    head = p;
    tail = p;
    length = add_size q.length 1;
  },
  ground arith,
  ground arith,
  λ o n a. ground arith,
)
link-IsQueue q p x ((a, y) ∷ r) z f l v =
    let cell = last-cell q.heap a y r v.cells in
    let n : Node = cell.1.0 in
    let absent = Absent-fresh q.heap p ((a, y) ∷ r) f v.cells in
    let elsewhere : last ((a, y) ∷ r) ≢ p = last-ne_of_Absent p a y r absent in
    (
      record {
        heap =
            write (write q.heap p (some (node x null))) (last ((a, y) ∷ r))
              (some (record n { next = p }));
        head = q.head;
        tail = p;
        length = add_size q.length 1;
      },
      rw v.at_tail (ground (arith, cell.0, cell.1.1, elsewhere)),
      record {
        at_head = v.at_head;
        at_tail = sym (last-snoc ((a, y) ∷ r) p x);
        counted = omega (arith, v.counted, length-append r ((p, x) ∷ []));
        bounded = omega (arith, length-append r ((p, x) ∷ []));
        cells = Cells-link q.heap p x n a y r z cell.1.1 absent v.distinct v.cells;
        distinct = Distinct-snoc ((a, y) ∷ r) p x absent v.distinct;
      },
      λ o k m. ground (arith, last-ne_of_Absent o a y r m),
    )

-- On a queue of the requests `xs`, with memory for one more, an enqueue of a request of one of the
-- three types for a descriptor that is not negative follows no bad pointer and succeeds: the queue
-- then holds `xs` and behind them the request with its argument copied, and nothing else on the heap
-- has changed.
pub enqueue-IsQueue :
    (q : Queue) (p : Pointer) (xs : Placed) (client_fd : ℕ) (type : RequestType)
    (argument : Option Bytes) (n : ℕ)
    → IsQueue q xs
    → p ≢ null
    → q.heap p ≡ none
    → suc (length xs) < size_mod
    → IsRequestType type
    → is_null argument && not (n == 0) ≡ false
    → n + request_size < size_mod
    → let x : QueuedRequest = record {
      client_fd = client_fd;
      type = type;
      argument_length = n;
      argument = take n (bytes argument);
    } in
      (q' : Queue) × (enqueue p q (some client_fd) type argument n ≡ done (ok, q'))
      × IsQueue q' (xs ++ (p, x) ∷ [])
      × ((o : Pointer) → o ≢ p → Absent o xs → q'.heap o ≡ q.heap o)
unfolding enqueue
enqueue-IsQueue q p xs client_fd type argument n v z f l t given small =
    let (q', e, v', same) =
      link-IsQueue q p
        (record {
          client_fd = client_fd;
          type = type;
          argument_length = n;
          argument = take n (bytes argument);
        })
        xs z f l v in
    (q', rw (→request_type_valid type t, given) (ground (arith, e)), v', same)

-- Why an enqueue is refused.
pub data Refusal (p : Pointer) (type : RequestType) (argument : Option Bytes) (n : ℕ)
    : Option ℕ → Errno → Type 0 where
  negative_fd : Refusal p type argument n none einval
  bad_type : {c : ℕ} → ¬ (IsRequestType type) → Refusal p type argument n (some c) einval
  no_argument : {c : ℕ} → argument ≡ none → n ≢ 0 → Refusal p type argument n (some c) einval
  too_large :
      {c : ℕ}
      → IsRequestType type
      → is_null argument && not (n == 0) ≡ false
      → size_mod ≤ n + request_size
      → Refusal p type argument n (some c) eoverflow
  no_memory :
      {c : ℕ}
      → IsRequestType type
      → is_null argument && not (n == 0) ≡ false
      → n + request_size < size_mod
      → p ≡ null
      → Refusal p type argument n (some c) enomem

-- Every other enqueue fails and leaves the queue and the heap as they were: with EINVAL for a negative
-- descriptor, another type, or NULL with a length; with EOVERFLOW when the size of the node wraps;
-- with ENOMEM when `malloc()` returns NULL.
pub enqueue-Refusal :
    (q : Queue) (p : Pointer) (client_fd : Option ℕ) (type : RequestType) (argument : Option Bytes)
    (n : ℕ) {e : Errno}
    → Refusal p type argument n client_fd e
    → enqueue p q client_fd type argument n ≡ done (fail e, q)
unfolding enqueue
enqueue-Refusal q p _ type argument n negative_fd = refl
enqueue-Refusal q p _ type argument n (bad_type t) = elim (Bool-cases (request_type_valid type)) [
  | inl e ↦ absurd (t (request_type_valid→ type e))
  | inr f ↦ rw f
]
enqueue-Refusal q p _ type argument n (no_argument m z) =
    elim (Bool-cases (request_type_valid type)) [ inl e ↦ rw (e, m) (ground arith) | inr f ↦ rw f ]
enqueue-Refusal q p _ type argument n (too_large t given large) =
    rw (→request_type_valid type t, given) (ground arith)
enqueue-Refusal q p _ type argument n (no_memory t given small m) =
    rw (→request_type_valid type t, given) (ground arith)

-- ===== src/Queue/Dequeue.antt =====
-- `wc_request_queue_dequeue` and `wc_request_queue_peek` of src/queue.c take and show the oldest
-- request.
use wire_command_c.Common.{◌≡◌, ◌≢◌, refl, some, [], ◌∷◌, arith, ok, fail, enoent, sub_size}
use wire_command_c.Queue.{Pointer, null, QueuedRequest, Queue, done, write, dequeue, peek}
use wire_command_c.Queue.Segment.{Placed, node, first, IsQueue, Cells-write}

-- On a queue with requests, a dequeue hands over the oldest one, whose node stays on the heap with its
-- link cut; the queue then holds the others, and nothing else on the heap has changed.
pub dequeue-IsQueue :
    (q : Queue) (a : Pointer) (x : QueuedRequest) (r : Placed)
    → IsQueue q ((a, x) ∷ r)
    → (q' : Queue) × (dequeue q ≡ done (ok, a, q'))
      × IsQueue q' r
      × (q'.heap a ≡ some (node x null))
      × ((o : Pointer) → o ≢ a → q'.heap o ≡ q.heap o)
unfolding dequeue
dequeue-IsQueue q a x [] v = (
  record {
    heap = write q.heap a (some (node x null));
    head = null;
    tail = null;
    length = sub_size q.length 1;
  },
  rw v.at_head (ground (arith, v.cells.0, v.cells.1)),
  ground arith,
  ground arith,
  λ o n. ground arith,
)
dequeue-IsQueue q a x ((b, y) ∷ r) v = (
  record {
    heap = write q.heap a (some (node x null));
    head = b;
    tail = q.tail;
    length = sub_size q.length 1;
  },
  rw v.at_head (ground (arith, v.cells.0, v.cells.1, v.cells.2.0)),
  record {
    at_head = refl;
    at_tail = v.at_tail;
    counted = omega (arith, v.counted, v.bounded);
    bounded = omega (arith, v.bounded);
    cells = Cells-write q.heap a (some (node x null)) ((b, y) ∷ r) v.distinct.0 v.cells.2;
    distinct = v.distinct.1;
  },
  ground arith,
  λ o n. ground arith,
)

-- An empty queue has nothing to hand over, and is left as it is.
pub dequeue-empty : (q : Queue) → IsQueue q [] → dequeue q ≡ done (fail enoent, null, q)
unfolding dequeue
dequeue-empty q v = rw v.at_head

-- What `peek` shows is what the next dequeue hands over, or NULL where there is nothing.
pub peek-first : (q : Queue) (xs : Placed) → IsQueue q xs → peek q ≡ first xs
unfolding peek
peek-first q xs v = v.at_head

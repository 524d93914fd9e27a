-- ===== src/Queue/Examples.antt =====
-- The theorems on src/queue.c at a queue of two requests, and runs of its functions.
use wire_command_c.Common.{
  ℕ, ◌≡◌, ◌≢◌, refl, inl, inr, none, some, [], ◌∷◌, ◌++◌, arith, true, ok, fail, einval, enomem,
}
use wire_command_c.Protocol.{request_pwd}
use wire_command_c.Queue.{
  Pointer, null, QueuedRequest, Queue, done, write, enqueue, dequeue, discard_client, clear,
}
use wire_command_c.Queue.Segment.{Placed, node, Absent, IsQueue, requests}
use wire_command_c.Queue.Enqueue.{enqueue-IsQueue, enqueue-Refusal, negative_fd}
use wire_command_c.Queue.Dequeue.{dequeue-IsQueue}
use wire_command_c.Queue.Discard.{Released, discard_client-IsQueue}
use wire_command_c.Queue.Clear.{Cleared, clear-IsQueue}
use wire_command_c.Queue.Refine.{Refines, enqueue-Refines}
use wire_command_c.Queue.Spec

abbrev pwd_of : ℕ → QueuedRequest
pwd_of client_fd = record {
  client_fd = client_fd;
  type = request_pwd;
  argument_length = 0;
  argument = [];
}

abbrev two : Placed
two = (10, pwd_of 5) ∷ (20, pwd_of 6) ∷ []

abbrev two_queue : Queue
two_queue = record {
  heap = write (write (λ p. none) 10 (some (node (pwd_of 5) 20))) 20 (some (node (pwd_of 6) null));
  head = 10;
  tail = 20;
  length = 2;
}

two_queue-IsQueue : IsQueue two_queue two
two_queue-IsQueue = record {
  at_head = refl;
  at_tail = refl;
  counted = refl;
  bounded = omega arith;
  cells = (omega arith, refl, (omega arith, refl, tt));
  distinct = ((omega arith, tt), (tt, tt));
}

-- The first request of two goes, and the second one becomes the head.
discard_runs :
    discard_client two_queue 5
    ≡ done (1, record { heap = write two_queue.heap 10 none; head = 20; tail = 20; length = 1 })
unfolding discard_client
discard_runs = refl

enqueue_without_memory :
    enqueue null two_queue (some 7) request_pwd none 0 ≡ done (fail enomem, two_queue)
unfolding enqueue
enqueue_without_memory = refl

enqueue-IsQueue_example :
    (q' : Queue) × (enqueue 30 two_queue (some 7) request_pwd none 0 ≡ done (ok, q'))
    × IsQueue q' (two ++ (30, pwd_of 7) ∷ [])
    × ((o : Pointer) → o ≢ 30 → Absent o two → q'.heap o ≡ two_queue.heap o)
enqueue-IsQueue_example =
    enqueue-IsQueue two_queue 30 two 7 request_pwd none 0 two_queue-IsQueue (omega arith) refl
      (omega arith) (inr (inl refl)) refl (omega arith)

enqueue-Refusal_example :
    enqueue 30 two_queue none request_pwd none 0 ≡ done (fail einval, two_queue)
enqueue-Refusal_example = enqueue-Refusal two_queue 30 none request_pwd none 0 negative_fd

dequeue-IsQueue_example :
    (q' : Queue) × (dequeue two_queue ≡ done (ok, 10, q'))
    × IsQueue q' ((20, pwd_of 6) ∷ [])
    × (q'.heap 10 ≡ some (node (pwd_of 5) null))
    × ((o : Pointer) → o ≢ 10 → q'.heap o ≡ two_queue.heap o)
dequeue-IsQueue_example =
    dequeue-IsQueue two_queue 10 (pwd_of 5) ((20, pwd_of 6) ∷ []) two_queue-IsQueue

discard_client-IsQueue_example :
    (q' : Queue) × (discard_client two_queue 5 ≡ done (1, q'))
    × IsQueue q' ((20, pwd_of 6) ∷ [])
    × Released two_queue two ((20, pwd_of 6) ∷ []) q'
discard_client-IsQueue_example = discard_client-IsQueue two_queue 5 two two_queue-IsQueue

clear-IsQueue_example :
    (q' : Queue) × (clear two_queue ≡ done q') × IsQueue q' [] × Cleared two_queue.heap two q'.heap
clear-IsQueue_example = clear-IsQueue two_queue two two_queue-IsQueue

enqueue-Refines_example :
    Refines
      (enqueue 30 two_queue (some 7) request_pwd none 0)
      (Spec.enqueue true (requests two) (some 7) request_pwd none 0)
enqueue-Refines_example =
    enqueue-Refines two_queue 30 two (some 7) request_pwd none 0 two_queue-IsQueue (inr refl)
      (omega arith)

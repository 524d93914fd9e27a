-- ===== src/Queue/Ptr.antt =====
-- The functions of src/queue.c as they are called, through a pointer to the queue that may be NULL.
use wire_command_c.Common.{ℕ, Bool, true, false, Option, none, some, Bytes, einval, Status, fail}
use wire_command_c.Protocol.{RequestType}
use wire_command_c.Queue.{
  Pointer, null, Queue, Run, done, ◌>>=◌, init as init_at, enqueue as enqueue_at,
  dequeue as dequeue_at, peek as peek_at, discard_client as discard_client_at, clear as clear_at,
}

unfoldable pub init : Option Queue → Status × Option Queue
init none = (fail einval, none)
init (some q) = let (s, q') = init_at q in (s, some q')

unfoldable pub enqueue :
    Pointer → Option Queue → Option ℕ → RequestType → Option Bytes → ℕ → Run (Status × Option Queue)
enqueue p none client_fd type argument n = done (fail einval, none)
enqueue p (some q) client_fd type argument n =
    enqueue_at p q client_fd type argument n >>= λ r. done (r.0, some r.1)

-- The Boolean says whether there is a place for the request; where it is NULL nothing is stored.
unfoldable pub dequeue : Option Queue → Bool → Run (Status × Option Pointer × Option Queue)
dequeue none place = done (fail einval, none, none)
dequeue (some q) false = done (fail einval, none, some q)
dequeue (some q) true = dequeue_at q >>= λ r. done (r.0, some r.1, some r.2)

unfoldable pub peek : Option Queue → Pointer
peek none = null
peek (some q) = peek_at q

unfoldable pub discard_client : Option Queue → ℕ → Run (ℕ × Option Queue)
discard_client none client_fd = done (0, none)
discard_client (some q) client_fd = discard_client_at q client_fd >>= λ r. done (r.0, some r.1)

unfoldable pub clear : Option Queue → Run (Option Queue)
clear none = done none
clear (some q) = clear_at q >>= λ q'. done (some q')

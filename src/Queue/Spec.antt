-- ===== src/Queue/Spec.antt =====
-- What the queue of src/queue.c promises, over the list of its requests, oldest first. The server is
-- written against this.
use wire_command_c.Common.{
  ℕ, ◌-◌, Bool, Option, none, some, List, [], ◌∷◌, ◌++◌, ltb, ◌==◌, if◌then◌else◌, ◌&&◌, ◌||◌, not,
  size_mod, take, Bytes, bytes, is_null, Status, ok, fail, einval, eoverflow, enomem, enoent,
}
use wire_command_c.Protocol.{RequestType, request_type_valid}
use wire_command_c.Queue.{QueuedRequest, request_size}

abbrev pub Fifo : Type 0
Fifo = List QueuedRequest

-- The Boolean says whether there is memory for one more request.
unfoldable pub enqueue : Bool → Fifo → Option ℕ → RequestType → Option Bytes → ℕ → Status × Fifo
enqueue memory xs none type argument n = (fail einval, xs)
enqueue memory xs (some client_fd) type argument n =
    if not (request_type_valid type) || (is_null argument && not (n == 0))
    then (fail einval, xs)
    else if ltb (size_mod - 1 - request_size) n
    then (fail eoverflow, xs)
    else if not memory
    then (fail enomem, xs)
    else (
      ok,
      xs
          ++ record {
            client_fd = client_fd;
            type = type;
            argument_length = n;
            argument = take n (bytes argument);
          }
            ∷ [],
    )

unfoldable pub dequeue : Fifo → Status × Option QueuedRequest × Fifo
dequeue [] = (fail enoent, none, [])
dequeue (x ∷ xs) = (ok, some x, xs)

abbrev pub discard_client : ℕ → Fifo → Fifo
discard_client client_fd [] = []
discard_client client_fd (x ∷ xs) =
    if x.client_fd == client_fd
    then discard_client client_fd xs
    else x ∷ discard_client client_fd xs

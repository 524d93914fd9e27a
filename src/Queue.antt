-- ===== src/Queue.antt =====
-- src/queue.c: a FIFO of requests as a linked list with `head` and `tail`. The nodes stand on an
-- explicit heap, which the functions read and write through pointers. What `malloc()` returns is an
-- argument of the call.
pub mod Segment
pub mod Enqueue
pub mod Dequeue
pub mod Unlink
pub mod Discard
pub mod Clear
pub mod Spec
pub mod Refine
pub mod Ptr
mod Examples
use wire_command_c.Common.{
  ℕ, zero, suc, ◌+◌, ◌-◌, Bool, true, false, Option, none, some, ltb, ◌==◌, if◌then◌else◌, ◌&&◌,
  ◌||◌, not, add_size, sub_size, size_mod, take, length, Errno, einval, enomem, eoverflow, enoent,
  Status, ok, fail, Bytes, is_null, bytes,
}
use wire_command_c.Protocol.{RequestType, request_type_valid}

abbrev pub Pointer : Type 0
Pointer = ℕ

abbrev pub null : Pointer
null = 0

-- What a node holds for the server. A descriptor is not negative here: `enqueue` sees to it.
pub record QueuedRequest : Type 0 where
  pub client_fd : ℕ
  pub type : RequestType
  pub argument_length : ℕ
  pub argument : Bytes

-- `struct wc_queued_request`
pub record Node : Type 0 where
  pub request : QueuedRequest
  pub next : Pointer

abbrev pub Heap : Type 0
Heap = Pointer → Option Node

-- `struct wc_request_queue`, and the heap that it points into.
pub record Queue : Type 0 where
  pub heap : Heap
  pub head : Pointer
  pub tail : Pointer
  pub length : ℕ

-- A call returns, follows a pointer to no node, or has used up its fuel.
pub data Run {ℓ} (A : Type ℓ) : Type ℓ where
  done : A → Run A
  fault : Run A
  out_of_fuel : Run A

infixl 5 ◌>>=◌
abbrev pub ◌>>=◌ {ℓ κ} : {A : Type ℓ} {B : Type κ} → Run A → (A → Run B) → Run B
done a >>= f = f a
fault >>= f = fault
out_of_fuel >>= f = out_of_fuel

abbrev pub write : Heap → Pointer → Option Node → Heap
write h p c q = if q == p then c else h q

abbrev pub deref : Option Node → Run Node
deref none = fault
deref (some n) = done n

-- `*p`, for a pointer that is not NULL
abbrev pub load : Heap → Pointer → Run Node
load h p = if p == null then fault else deref (h p)

-- `p->next = next`
abbrev pub set_next : Heap → Pointer → Pointer → Run Heap
set_next h p next = do n ← load h p; done (write h p (some (record n { next = next })))

unfoldable pub init : Queue → Status × Queue
init q = (ok, record q { head = null; tail = null; length = 0 })

-- `sizeof(struct wc_queued_request)` with 64-bit pointers
abbrev pub request_size : ℕ
request_size = 24

-- The new node goes behind `tail`, or becomes the head.
link : Queue → Pointer → Run Queue
link q p =
    if q.tail == null
    then done (record q { head = p; tail = p; length = add_size q.length 1 })
    else do
      h ← set_next q.heap q.tail p
      done (record q { heap = h; tail = p; length = add_size q.length 1 })

-- The argument `p` is what `malloc()` returns; a negative descriptor is `none`.
unfoldable pub enqueue :
    Pointer → Queue → Option ℕ → RequestType → Option Bytes → ℕ → Run (Status × Queue)
unfolding link
enqueue p q none type argument argument_length = done (fail einval, q)
enqueue p q (some client_fd) type argument argument_length =
    if not (request_type_valid type) || (is_null argument && not (argument_length == 0))
    then done (fail einval, q)
    else if ltb (size_mod - 1 - request_size) argument_length
    then done (fail eoverflow, q)
    else if p == null
    then done (fail enomem, q)
    else do
      let request : QueuedRequest = record {
        client_fd = client_fd;
        type = type;
        argument_length = argument_length;
        argument = take argument_length (bytes argument);
      }
      let fresh : Node = record { request = request; next = null }
      q' ← link (record q { heap = write q.heap p (some fresh) }) p
      done (ok, q')

-- The pointer is what goes to `*request`; the node stays on the heap, and is the caller's.
unfoldable pub dequeue : Queue → Run (Status × Pointer × Queue)
dequeue q = if q.head == null then done (fail enoent, null, q) else do
  n ← load q.heap q.head
  h ← set_next q.heap q.head null
  done (
    ok,
    q.head,
    record {
      heap = h;
      head = n.next;
      tail = if n.next == null then null else q.tail;
      length = sub_size q.length 1;
    },
  )

unfoldable pub peek : Queue → Pointer
peek q = q.head

-- The body of the loop of `discard_client` for a node that goes: take it out and free it.
pub unlink : Queue → Pointer → Pointer → Pointer → Run Queue
unlink q previous current next =
    let tail = if q.tail == current then previous else q.tail in
    let length = sub_size q.length 1 in
    if previous == null
    then done
        (record { heap = write q.heap current none; head = next; tail = tail; length = length })
    else do
      h ← set_next q.heap previous next
      done (record { heap = write h current none; head = q.head; tail = tail; length = length })

discard_loop : ℕ → ℕ → Queue → Pointer → Pointer → ℕ → Run (ℕ × Queue)
discard_loop zero client_fd q current previous removed = out_of_fuel
discard_loop (suc fuel) client_fd q current previous removed = elim (current == null) [
  | true ↦ done (removed, q)
  | false ↦ load q.heap current >>= λ n. elim (n.request.client_fd == client_fd) [
    | true ↦ unlink q previous current n.next >>= λ q'.
        discard_loop fuel client_fd q' n.next previous (add_size removed 1)
    | false ↦ discard_loop fuel client_fd q n.next current removed
  ]
]

-- The fuel is the length and one round to see the end (Queue/Discard).
unfoldable pub discard_client : Queue → ℕ → Run (ℕ × Queue)
unfolding discard_loop unlink
discard_client q client_fd = discard_loop (q.length + 1) client_fd q q.head null 0

clear_loop : ℕ → Heap → Pointer → Run Heap
clear_loop zero h current = out_of_fuel
clear_loop (suc fuel) h current = elim (current == null) [
  | true ↦ done h
  | false ↦ load h current >>= λ n. clear_loop fuel (write h current none) n.next
]

unfoldable pub clear : Queue → Run Queue
unfolding clear_loop
clear q = clear_loop (q.length + 1) q.heap q.head >>= λ h.
    done (record { heap = h; head = null; tail = null; length = 0 })

-- `free(request)`, which lets NULL pass
unfoldable pub destroy : Heap → Pointer → Heap
destroy h p = if p == null then h else write h p none

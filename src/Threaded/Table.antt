-- ===== src/Threaded/Table.antt =====
-- The table of workers of src/server_uds_threaded.c. The workers and the results of the calls are those
-- of Tcp/Table.
use wire_command_c.Common.{
  suc, ℕ, Bool, true, false, none, some, List, [], ◌∷◌, ◌++◌, ◌&&◌, if◌then◌else◌, not, Errno,
  emfile, Status, ok, fail,
}
use wire_command_c.Tcp.Table.{
  Worker, Workers, released, Reaping, lock_failed, locked_join, Starting, signals_failed,
  mask_failed, create_failed, created, with_head,
}

-- What `wc_threaded_uds_is_stopping` returns, by whether the lock and the unlock work.
unfoldable pub is_stopping : Bool → Bool → Bool → Bool
is_stopping locked unlocked stopping =
    if not locked then true else if not unlocked then true else stopping

-- `stopping` after `wc_threaded_uds_request_stop`, by whether the lock works.
unfoldable pub request_stop : Bool → Bool → Bool
request_stop locked stopping = if not locked then stopping else true

-- `wc_threaded_uds_mark_finished`
unfoldable pub mark_finished : Bool → Worker → Worker
mark_finished locked w = if not locked then w else record w { finished = true }

unfoldable pub workers_init : Workers → Workers
workers_init [] = []
workers_init (w ∷ ws) =
    record w { client_fd = none; in_use = false; finished = false } ∷ workers_init ws

-- One slot of `wc_threaded_uds_reap_finished`, by whether `pthread_join()` works.
unfoldable pub reap_slot : Bool → Worker → Worker
reap_slot joined w = if w.in_use && w.finished then (if joined then released w else w) else w

unfoldable pub reap_finished : List Reaping → Workers → Workers
unfolding reap_slot
reap_finished [] ws = ws
reap_finished (r ∷ rs) [] = []
reap_finished (lock_failed ∷ rs) (w ∷ ws) = w ∷ ws
reap_finished (locked_join joined ∷ rs) (w ∷ ws) = reap_slot joined w ∷ reap_finished rs ws

-- The free slot that is found.
unfoldable pub start_slot : Starting → ℕ → Worker → Status × Worker
start_slot (signals_failed e) client_fd w =
    (fail e, record w { client_fd = none; finished = false; in_use = false })
start_slot (mask_failed e) client_fd w =
    (fail e, record w { client_fd = none; finished = false; in_use = false })
start_slot (create_failed e) client_fd w =
    (fail e, record w { client_fd = none; finished = false; in_use = false })
start_slot (created thread) client_fd w =
    (ok, record { thread = thread; client_fd = some client_fd; in_use = true; finished = false })

unfoldable pub start_worker : Starting → Workers → ℕ → Status × Workers
unfolding start_slot
start_worker r [] client_fd = (fail emfile, [])
start_worker r (w ∷ ws) client_fd =
    let rest = with_head w (start_worker r ws client_fd) in
    let here : Status × Workers = let (s, w') = start_slot r client_fd w in (s, w' ∷ ws) in
    if w.in_use then rest else here

-- One slot of `wc_threaded_uds_join_all`, with whether the result is still 0.
unfoldable pub join_slot : Bool → Worker → Bool × Worker
join_slot joined w =
    if w.in_use then (if joined then (true, released w) else (false, w)) else (true, w)

-- The slots in turn, with whether `pthread_join()` works for each slot, by its index.
unfoldable pub join_all : (ℕ → Bool) → Workers → Bool × Workers
unfolding join_slot
join_all joins [] = (true, [])
join_all joins (w ∷ ws) =
    let (worked, w') = join_slot (joins 0) w in
    let (worked', ws') = join_all (λ i. joins (suc i)) ws in (worked && worked', w' ∷ ws')

-- What one call of `accept()` does: a descriptor, with what making it non-blocking gives and the start; or
-- EINTR; or another failure.
pub data AcceptResult : Type 0 where
  connected : ℕ → Status → Starting → AcceptResult
  accept_interrupted : AcceptResult
  accept_failed : Errno → AcceptResult

-- The workers, and the descriptors closed, of a client that is accepted.
unfoldable pub admit : Workers → ℕ → Status → Starting → Workers × List ℕ
unfolding start_worker
admit ws client_fd (fail e) r = (ws, client_fd ∷ [])
admit ws client_fd ok r =
    let (s, ws') = start_worker r ws client_fd in
    elim s [ fail e ↦ (ws', client_fd ∷ []) | ok ↦ (ws', []) ]

-- Unlike the server over TCP, this one does not reap between two clients.
unfoldable pub accept_clients : List AcceptResult → Workers → Workers × List ℕ
unfolding admit
accept_clients [] ws = (ws, [])
accept_clients (connected client_fd s r ∷ rs) ws =
    let (ws', closed) = admit ws client_fd s r in
    let (ws'', closed') = accept_clients rs ws' in (ws'', closed ++ closed')
accept_clients (accept_interrupted ∷ rs) ws = accept_clients rs ws
accept_clients (accept_failed e ∷ rs) ws = (ws, [])

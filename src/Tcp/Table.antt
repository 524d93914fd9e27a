-- ===== src/Tcp/Table.antt =====
-- The table of workers of src/server_tcp.c: `struct wc_tcp_worker` and what the main thread does with it.
use wire_command_c.Common.{
  suc, ℕ, Bool, true, false, Option, none, some, List, [], ◌∷◌, ◌++◌, ◌&&◌, if◌then◌else◌, not,
  Errno, emfile, Status, ok, fail,
}

-- The pointer to the server is left out: there is one.
pub record Worker : Type 0 where
  pub thread : ℕ
  pub client_fd : Option ℕ
  pub in_use : Bool
  pub finished : Bool

abbrev pub Workers : Type 0
Workers = List Worker

-- What `wc_tcp_is_stopping` returns, by whether the lock and the unlock work.
unfoldable pub is_stopping : Bool → Bool → Bool → Bool
is_stopping locked unlocked stopping =
    if not locked then true else if not unlocked then true else stopping

-- `stopping` after `wc_tcp_request_stop`, by whether the lock works.
unfoldable pub request_stop : Bool → Bool → Bool
request_stop locked stopping = if not locked then stopping else true

-- `wc_tcp_mark_finished`
unfoldable pub mark_finished : Bool → Worker → Worker
mark_finished locked w = if not locked then w else record w { finished = true }

abbrev reset_worker : Worker → Worker
reset_worker w = record w { client_fd = none; in_use = false; finished = false }

unfoldable pub workers_init : Workers → Workers
workers_init [] = []
workers_init (w ∷ ws) = reset_worker w ∷ workers_init ws

abbrev pub released : Worker → Worker
released w = record w { client_fd = none; in_use = false }

-- One slot of `wc_tcp_reap_finished`, by whether `pthread_join()` works.
unfoldable pub reap_slot : Bool → Worker → Worker
reap_slot joined w = if w.in_use && w.finished then (if joined then released w else w) else w

-- What the calls for one slot do: the lock or the unlock fails, which ends the reaping, or both work, and
-- `pthread_join()`, if it is called, works or fails.
pub data Reaping : Type 0 where
  lock_failed : Reaping
  locked_join : Bool → Reaping

unfoldable pub reap_finished : List Reaping → Workers → Workers
unfolding reap_slot
reap_finished [] ws = ws
reap_finished (r ∷ rs) [] = []
reap_finished (lock_failed ∷ rs) (w ∷ ws) = w ∷ ws
reap_finished (locked_join joined ∷ rs) (w ∷ ws) = reap_slot joined w ∷ reap_finished rs ws

-- What the calls of `wc_tcp_start_worker` do: the signal sets fail, the mask fails, `pthread_create()`
-- fails, or it starts a thread.
pub data Starting : Type 0 where
  signals_failed mask_failed create_failed : Errno → Starting
  created : ℕ → Starting

-- The free slot that is found.
unfoldable pub start_slot : Starting → ℕ → Worker → Status × Worker
start_slot (signals_failed e) client_fd w =
    (fail e, record w { client_fd = none; finished = false; in_use = false })
start_slot (mask_failed e) client_fd w =
    (fail e, record w { client_fd = none; finished = false; in_use = false })
start_slot (create_failed e) client_fd w =
    (fail e, record w { client_fd = none; finished = false; in_use = false })
start_slot (created thread) client_fd w =
    (ok, record { thread = thread; client_fd = some client_fd; in_use = true; finished = false })

abbrev pub with_head : Worker → Status × Workers → Status × Workers
with_head w (s, ws) = (s, w ∷ ws)

unfoldable pub start_worker : Starting → Workers → ℕ → Status × Workers
unfolding start_slot
start_worker r [] client_fd = (fail emfile, [])
start_worker r (w ∷ ws) client_fd =
    let rest = with_head w (start_worker r ws client_fd) in
    let here : Status × Workers = let (s, w') = start_slot r client_fd w in (s, w' ∷ ws) in
    if w.in_use then rest else here

-- What one call of `accept()` does: a descriptor, with the reaping that follows, what making the
-- descriptor non-blocking gives, and the start; or EINTR; or another failure.
pub data AcceptResult : Type 0 where
  connected : ℕ → List Reaping → Status → Starting → AcceptResult
  accept_interrupted : AcceptResult
  accept_failed : Errno → AcceptResult

-- The workers, and the descriptors closed, of a client that is accepted.
unfoldable pub admit : Workers → ℕ → Status → Starting → Workers × List ℕ
unfolding start_worker
admit ws client_fd (fail e) r = (ws, client_fd ∷ [])
admit ws client_fd ok r =
    let (s, ws') = start_worker r ws client_fd in
    elim s [ fail e ↦ (ws', client_fd ∷ []) | ok ↦ (ws', []) ]

unfoldable pub accept_clients : List AcceptResult → Workers → Workers × List ℕ
unfolding admit reap_finished
accept_clients [] ws = (ws, [])
accept_clients (connected client_fd reapings s r ∷ rs) ws =
    let (ws', closed) = admit (reap_finished reapings ws) client_fd s r in
    let (ws'', closed') = accept_clients rs ws' in (ws'', closed ++ closed')
accept_clients (accept_interrupted ∷ rs) ws = accept_clients rs ws
accept_clients (accept_failed e ∷ rs) ws = (ws, [])

-- One slot of `wc_tcp_join_all`, with whether the result is still 0.
unfoldable pub join_slot : Bool → Worker → Bool × Worker
join_slot joined w =
    if w.in_use then (if joined then (true, released w) else (false, w)) else (true, w)

-- The slots in turn, with whether `pthread_join()` works for each slot, by its index.
unfoldable pub join_all : (ℕ → Bool) → Workers → Bool × Workers
unfolding join_slot
join_all joins [] = (true, [])
join_all joins (w ∷ ws) =
    let (worked, w') = join_slot (joins 0) w in
    let (worked', ws') = join_all (λ i. joins (suc i)) ws in (worked && worked', w' ∷ ws')

-- ===== src/Uds/Loop.antt =====
-- Accepting clients and the event loop: `wc_uds_accept_clients` and `wc_server_uds_run` of
-- src/server_uds.c, after the listener has been opened.
use wire_command_c.Common.{
  ℕ, Bool, none, some, List, [], ◌∷◌, ◌++◌, not, if◌then◌else◌, Status, ok, fail, Errno, eio,
}
use wire_command_c.Queue.Spec.{Fifo}
use wire_command_c.Uds.Table.{Client, Clients, has_free_client_slot, add_client, remove_client}
use wire_command_c.Uds.Slots.{get_slot}
use wire_command_c.Uds.Input.{Loaded, ReadResult, read_client}
use wire_command_c.Uds.Output.{SendResult, Written, write_client}
use wire_command_c.Uds.Respond.{Calls}
use wire_command_c.Uds.Process.{set_slot, process_queue}

-- What one call of `accept()` does: a descriptor, with what making it non-blocking then gives, or EINTR,
-- or another failure, EAGAIN and EWOULDBLOCK among them.
pub data AcceptResult : Type 0 where
  connected : ℕ → Status → AcceptResult
  accept_interrupted : AcceptResult
  accept_failed : Errno → AcceptResult

-- A descriptor that cannot be made non-blocking is closed, and its client gets no slot.
unfoldable pub admit : Clients → ℕ → Status → Clients
admit cs client_fd (fail e) = cs
admit cs client_fd ok = let (s, cs') = add_client cs client_fd in cs'

unfoldable pub accept_clients : List AcceptResult → Clients → Clients
unfolding admit
accept_clients [] cs = cs
accept_clients (connected client_fd s ∷ rs) cs =
    let more = accept_clients rs (admit cs client_fd s) in
    if not (has_free_client_slot cs) then cs else more
accept_clients (accept_interrupted ∷ rs) cs =
    let more = accept_clients rs cs in if not (has_free_client_slot cs) then cs else more
accept_clients (accept_failed e ∷ rs) cs = cs

-- What `poll()` reports of a client, with the results of the calls that follow and the `errno` from before
-- each loop of them.
pub record Events : Type 0 where
  pub index : ℕ
  pub readable : Bool
  pub reads : List ReadResult
  pub errno_before_reads : Errno
  pub writable : Bool
  pub writes : List SendResult
  pub errno_before_writes : Errno
  -- POLLERR, POLLHUP or POLLNVAL
  pub hung_up : Bool

abbrev pub removed : Client → Fifo → Client × Fifo
removed c queue = let (c', queue', closed) = remove_client c queue in (c', queue')

unfoldable pub after_write : Bool → Client → Fifo → Written → Client × Fifo
after_write hung_up c queue (fail e, output, taken) =
    removed (record c { output = output; sent_bytes = c.sent_bytes ++ taken }) queue
after_write hung_up c queue (ok, output, taken) =
    let c' : Client = record c { output = output; sent_bytes = c.sent_bytes ++ taken } in
    if hung_up then removed c' queue else (c', queue)

unfoldable pub after_read : Events → Loaded → Client × Fifo
unfolding after_write
after_read events (fail e, c, queue) = removed c queue
after_read events (ok, c, queue) =
    let w : Written =
      if events.writable
      then write_client events.errno_before_writes events.writes c.output
      else (ok, c.output, []) in
    after_write events.hung_up c queue w

unfoldable pub serve : Events → Client → Fifo → Client × Fifo
unfolding after_read
serve events c queue = elim c.fd [
  | none ↦ (c, queue)
  | some client_fd ↦
      (let r : Loaded =
          if events.readable
          then read_client events.errno_before_reads events.reads c queue
          else (ok, c, queue) in
        after_read events r)
]

-- The loop over the descriptors that were polled.
unfoldable pub serve_all : List Events → Clients → Fifo → Clients × Fifo
unfolding serve
serve_all [] cs queue = (cs, queue)
serve_all (events ∷ rest) cs queue = elim (get_slot cs events.index) [
  | none ↦ serve_all rest cs queue
  | some c ↦
      (let (c', queue') = serve events c queue in
        serve_all rest (set_slot cs events.index c') queue')
]

-- What one call of `poll()` does: EINTR, another failure, or events; of the listener whether it is broken
-- and whether clients wait, which are then accepted.
pub data PollResult : Type 0 where
  poll_interrupted : PollResult
  poll_failed : Errno → PollResult
  polled : Bool → Bool → List Events → List AcceptResult → PollResult

-- Each round has the calls behind its responses. When the list ends, the program has been asked to stop.
unfoldable pub run_loop : List ((ℕ → Calls) × PollResult) → Clients → Fifo → Status × Clients × Fifo
unfolding serve_all accept_clients
run_loop [] cs queue = (ok, cs, queue)
run_loop ((calls, poll_interrupted) ∷ rs) cs queue =
    let (cs', queue') = process_queue calls cs queue in run_loop rs cs' queue'
run_loop ((calls, poll_failed e) ∷ rs) cs queue =
    let (cs', queue') = process_queue calls cs queue in (fail e, cs', queue')
run_loop ((calls, polled broken waiting events accepts) ∷ rs) cs queue =
    let (cs₁, queue₁) = process_queue calls cs queue in
    let (cs₂, queue₂) = serve_all events cs₁ queue₁ in
    let cs₃ = if waiting then accept_clients accepts cs₂ else cs₂ in
    let rest = run_loop rs cs₃ queue₂ in if broken then (fail eio, cs₁, queue₁) else rest

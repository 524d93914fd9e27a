-- ===== src/Uds/Main.antt =====
-- `wc_server_uds_run` of src/server_uds.c around its event loop.
use wire_command_c.Common.{
  ℕ, Bool, Option, List, [], ◌∷◌, if◌then◌else◌, Status, fail, einval, Outcome, value, error, Bytes,
}
use wire_command_c.Queue.Spec.{Fifo}
use wire_command_c.Endpoints
use wire_command_c.Endpoints.{Opened, and_then, or_missing, open_uds_listener}
use wire_command_c.Uds.Table.{Clients, clients_init}
use wire_command_c.Uds.Respond
use wire_command_c.Uds.Process.{close_all_clients}
use wire_command_c.Uds.Loop.{PollResult, run_loop}

-- What the calls of a run return.
pub record RunCalls : Type 0 where
  pub endpoint : Endpoints.Calls
  pub rounds : List ((ℕ → Respond.Calls) × PollResult)
  pub close : Status
  pub unlink : Status

-- The result, the table (empty before it is initialized), the queue, and the listener as it was opened and
-- closed.
pub record RunEnd : Type 0 where
  pub result : Status
  pub clients : Clients
  pub queue : Fifo
  pub opened : List ℕ
  pub closed : List ℕ

-- Behind the loop. The queue is cleared, and the first failure is the result.
unfoldable pub after_loop : RunCalls → ℕ → Status × Clients × Fifo → RunEnd
after_loop calls listener (s, cs, queue) =
    let (cs', queue') = close_all_clients cs queue in
    record {
      result = and_then s (and_then calls.close (or_missing calls.unlink));
      clients = cs';
      queue = [];
      opened = listener ∷ [];
      closed = listener ∷ [];
    }

unfoldable pub after_open : RunCalls → Clients → Opened → Outcome ℕ → RunEnd
unfolding after_loop
after_open calls cs o (error e) = record {
  result = fail e;
  clients = cs;
  queue = [];
  opened = o.opened;
  closed = o.closed;
}
after_open calls cs o (value listener) = after_loop calls listener (run_loop calls.rounds cs [])

-- `cs` is the table as it lies on the stack; `has_flag` is whether `stop_requested` is not NULL.
unfoldable pub run_server : RunCalls → Bool → Option Bytes → Clients → RunEnd
unfolding after_open
run_server calls has_flag socket_path cs =
    if has_flag
    then (let o = open_uds_listener calls.endpoint socket_path in
        after_open calls (clients_init cs) o o.result)
    else record { result = fail einval; clients = []; queue = []; opened = []; closed = [] }

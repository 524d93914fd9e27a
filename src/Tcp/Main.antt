-- ===== src/Tcp/Main.antt =====
-- The main thread of src/server_tcp.c: `wc_server_tcp_run`, with what its workers do in between as an
-- argument.
use wire_command_c.Common.{
  ℕ, Bool, true, false, Option, List, [], ◌∷◌, ◌++◌, if◌then◌else◌, Status, ok, fail, Errno, einval,
  eio, Outcome, value, error, Bytes,
}
use wire_command_c.Endpoints
use wire_command_c.Endpoints.{Opened, and_then, open_tcp_listener}
use wire_command_c.Tcp.Table.{
  Workers, mark_finished, workers_init, Reaping, reap_finished, AcceptResult, accept_clients,
  join_all,
}

-- The workers that have finished before a round, slot by slot.
unfoldable pub marked : List Bool → Workers → Workers
marked [] ws = ws
marked (b ∷ bs) [] = []
marked (b ∷ bs) (w ∷ ws) = (if b then mark_finished true w else w) ∷ marked bs ws

-- What `poll()` reports of the listener: EINTR, another failure, or whether it has POLLIN and one of
-- POLLERR, POLLHUP and POLLNVAL.
pub data ListenerPoll : Type 0 where
  poll_interrupted : ListenerPoll
  poll_failed : Errno → ListenerPoll
  polled : Bool → Bool → ListenerPoll

-- One round of the loop: `accepts` are the calls of `accept()`.
pub record MainRound : Type 0 where
  pub finished : List Bool
  pub reapings : List Reaping
  pub poll : ListenerPoll
  pub accepts : List AcceptResult

-- Whether the loop goes on, and with `errno` if it breaks; and the descriptors of clients that are closed.
pub record MainTurn : Type 0 where
  pub result : Status
  pub workers : Workers
  pub refused : List ℕ

unfoldable pub after_accept : Bool → Workers × List ℕ → MainTurn
after_accept broken (ws, refused) = record {
  result = if broken then fail eio else ok;
  workers = ws;
  refused = refused;
}

unfoldable pub after_poll : MainRound → Workers → ListenerPoll → MainTurn
unfolding after_accept
after_poll round ws poll_interrupted = record { result = ok; workers = ws; refused = [] }
after_poll round ws (poll_failed e) = record { result = fail e; workers = ws; refused = [] }
after_poll round ws (polled readable broken) =
    after_accept broken (if readable then accept_clients round.accepts ws else (ws, []))

unfoldable pub main_round : MainRound → Workers → MainTurn
unfolding after_poll marked
main_round round ws =
    after_poll round (reap_finished round.reapings (marked round.finished ws)) round.poll

-- The loop over its rounds, until one breaks it; behind the last one the stop is requested.
unfoldable pub main_loop : List MainRound → Workers → MainTurn
unfolding main_round
main_loop [] ws = record { result = ok; workers = ws; refused = [] }
main_loop (round ∷ rounds) ws =
    let turn = main_round round ws in
    let rest = main_loop rounds turn.workers in
    elim turn.result [ fail e ↦ turn | ok ↦ record rest { refused = turn.refused ++ rest.refused } ]

-- What the calls behind the loop return: `joins` is whether `pthread_join()` works for a slot.
pub record Ending : Type 0 where
  pub lock : Status
  pub unlock : Status
  pub close : Status
  pub joins : ℕ → Bool
  pub destroy : Status

-- `result`, the workers, and whether the mutex is destroyed.
pub record Shutdown : Type 0 where
  pub result : Status
  pub workers : Workers
  pub destroyed : Bool

abbrev pub after_join : Ending → Status → Bool × Workers → Shutdown
after_join e s (true, ws) = record { result = and_then s e.destroy; workers = ws; destroyed = true }
after_join e s (false, ws) = record {
  result = and_then s (fail eio);
  workers = ws;
  destroyed = false;
}

-- The first failure is the result: that of the loop, of the request to stop, of `close()`, of the joins or
-- of the mutex.
unfoldable pub shut_down : Ending → Status → Workers → Shutdown
shut_down e s ws =
    after_join e (and_then s (and_then (and_then e.lock e.unlock) e.close)) (join_all e.joins ws)

-- All calls of a run.
pub record RunCalls : Type 0 where
  pub mutex_init : Status
  pub endpoint : Endpoints.Calls
  pub rounds : List MainRound
  pub ending : Ending

-- The result; the workers, of which all have been joined that are not in use; the listener, as it was
-- opened and closed; the descriptors of clients that were closed; and whether the mutex was made and
-- destroyed.
pub record RunEnd : Type 0 where
  pub result : Status
  pub workers : Workers
  pub opened : List ℕ
  pub closed : List ℕ
  pub refused : List ℕ
  pub made : Bool
  pub destroyed : Bool

-- Behind the initialization of the mutex and of the table.
abbrev pub not_run : Errno → Workers → RunEnd
not_run e ws = record {
  result = fail e;
  workers = ws;
  opened = [];
  closed = [];
  refused = [];
  made = false;
  destroyed = false;
}

abbrev pub after_loop : RunCalls → ℕ → MainTurn → RunEnd
after_loop calls listener turn =
    let end = shut_down calls.ending turn.result turn.workers in
    record {
      result = end.result;
      workers = end.workers;
      opened = listener ∷ [];
      closed = listener ∷ [];
      refused = turn.refused;
      made = true;
      destroyed = end.destroyed;
    }

unfoldable pub after_open : RunCalls → Workers → Opened → Outcome ℕ → RunEnd
after_open calls ws o (error e) = record {
  result = fail e;
  workers = ws;
  opened = o.opened;
  closed = o.closed;
  refused = [];
  made = true;
  destroyed = true;
}
after_open calls ws o (value listener) = after_loop calls listener (main_loop calls.rounds ws)

unfoldable pub after_mutex : RunCalls → Option Bytes → ℕ → Workers → Status → RunEnd
unfolding after_open
after_mutex calls bind_address port ws (fail e) = not_run e ws
after_mutex calls bind_address port ws ok =
    let o = open_tcp_listener calls.endpoint bind_address port in
    after_open calls (workers_init ws) o o.result

-- `ws` is the table with all its fields 0; `has_flag` is whether `stop_requested` is not NULL.
unfoldable pub run_server : RunCalls → Bool → Option Bytes → ℕ → Workers → RunEnd
unfolding after_mutex
run_server calls has_flag bind_address port ws =
    if has_flag then after_mutex calls bind_address port ws calls.mutex_init else not_run einval ws

-- ===== src/Tcp/System.antt =====
-- The threads of src/server_tcp.c, interleaved in any order. A step is what one thread does between two
-- points where another may come in: a round of a worker's loop (its buffers are its own), its last access
-- to its slot, or what the main thread does with one slot. The main thread is given more freedom than it
-- has: before the stop it may reap and start in any free slot at any time. The calls of a round do what C
-- says (`IsSoundRound`).
use wire_command_c.Common.{ℕ, zero, suc, ◌<◌, ◌≡◌, Bool, true, false, none, ◌&&◌, update}
use wire_command_c.Tcp.Serve.{Session, Round, Turn, worker_round, fresh, max_clients}
use wire_command_c.Tcp.Rounds.{IsSoundRound}
use wire_command_c.Tcp.Table.{
  Worker, is_stopping, request_stop, mark_finished, reap_slot, Starting, created, start_slot,
  join_slot,
}

-- Where a worker thread stands: in its loop, behind it, returned, or joined.
pub data State : Type 0 where
  unstarted : State
  serving : Session → State
  leaving ended joined : State

pub record Thread : Type 0 where
  pub slot : ℕ
  pub state : State

-- The main thread: in its loop, in `wc_tcp_join_all` before a slot, or behind it.
pub data Phase : Type 0 where
  accepting : Phase
  joining : ℕ → Phase
  stopped : Phase

-- `struct wc_tcp_server` and the threads; `started` counts them, and `all_joined` is whether the result of
-- `wc_tcp_join_all` is still 0.
pub record System : Type 0 where
  pub workers : ℕ → Worker
  pub stopping : Bool
  pub threads : ℕ → Thread
  pub started : ℕ
  pub phase : Phase
  pub all_joined : Bool

abbrev pub after_round : Turn → State
after_round (true, s) = serving s
after_round (false, s) = leaving

abbrev pub set_state : System → ℕ → State → ℕ → Thread
set_state s t state = update s.threads t (record { slot = (s.threads t).slot; state = state })

abbrev pub set_worker : System → ℕ → Worker → ℕ → Worker
set_worker s i w = update s.workers i w

pub data Step (s : System) : System → Type 0 where
  serve :
      (t : ℕ) (round : Round) (session : Session) (locked unlocked : Bool)
      → (s.threads t).state ≡ serving session
      → is_stopping locked unlocked s.stopping ≡ false
      → IsSoundRound round
      → Step s (record s { threads = set_state s t (after_round (worker_round round session)) })
  quit :
      (t : ℕ) (session : Session) (locked unlocked : Bool)
      → (s.threads t).state ≡ serving session
      → is_stopping locked unlocked s.stopping ≡ true
      → Step s (record s { threads = set_state s t leaving })
  finish :
      (t : ℕ) (locked : Bool)
      → (s.threads t).state ≡ leaving
      → Step s (record s {
        workers =
            set_worker s (s.threads t).slot (mark_finished locked (s.workers (s.threads t).slot));
        threads = set_state s t ended;
      })
  -- `pthread_join()` returns when the thread has.
  reap :
      (i : ℕ)
      → s.phase ≡ accepting
      → i < max_clients
      → (s.workers i).in_use && (s.workers i).finished ≡ true
      → (s.threads (s.workers i).thread).state ≡ ended
      → Step s (record s {
        workers = set_worker s i (reap_slot true (s.workers i));
        threads = set_state s (s.workers i).thread joined;
      })
  start :
      (i client_fd : ℕ)
      → s.phase ≡ accepting
      → i < max_clients
      → (s.workers i).in_use ≡ false
      → Step s (record s {
        workers = set_worker s i (start_slot (created s.started) client_fd (s.workers i)).1;
        threads = update s.threads s.started (record { slot = i; state = serving fresh });
        started = suc s.started;
      })
  refuse :
      (i client_fd : ℕ) (r : Starting)
      → s.phase ≡ accepting
      → i < max_clients
      → (s.workers i).in_use ≡ false
      → (start_slot r client_fd (s.workers i)).1.in_use ≡ false
      → Step s (record s { workers = set_worker s i (start_slot r client_fd (s.workers i)).1 })
  stop :
      (locked : Bool)
      → s.phase ≡ accepting
      → Step s (record s { stopping = request_stop locked s.stopping; phase = joining zero })
  join :
      (i : ℕ)
      → s.phase ≡ joining i
      → i < max_clients
      → (s.workers i).in_use ≡ true
      → (s.threads (s.workers i).thread).state ≡ ended
      → Step s (record s {
        workers = set_worker s i (join_slot true (s.workers i)).1;
        threads = set_state s (s.workers i).thread joined;
        phase = joining (suc i);
      })
  join_failed :
      (i : ℕ)
      → s.phase ≡ joining i
      → i < max_clients
      → (s.workers i).in_use ≡ true
      → Step s (record s { phase = joining (suc i); all_joined = false })
  skip :
      (i : ℕ)
      → s.phase ≡ joining i
      → i < max_clients
      → (s.workers i).in_use ≡ false
      → Step s (record s { phase = joining (suc i) })
  halt : s.phase ≡ joining max_clients → Step s (record s { phase = stopped })

-- `wc_server_tcp_run` before its loop
abbrev pub start_system : System
start_system = record {
  workers = λ i. record { thread = 0; client_fd = none; in_use = false; finished = false };
  stopping = false;
  threads = λ t. record { slot = 0; state = unstarted };
  started = 0;
  phase = accepting;
  all_joined = true;
}

pub data Reach : System → Type 0 where
  initial : Reach start_system
  later : {s t : System} → Reach s → Step s t → Reach t

-- ===== src/Threaded/System.antt =====
-- The threads of src/server_uds_threaded.c, interleaved in any order: the steps of Tcp/System with the
-- operations of this server. The state is that of Tcp/System.
use wire_command_c.Common.{ℕ, zero, suc, ◌<◌, ◌≡◌, Bool, true, false, ◌&&◌, update}
use wire_command_c.Tcp.Serve.{Session, Round}
use wire_command_c.Tcp.Rounds.{IsSoundRound}
use wire_command_c.Tcp.Table.{Starting, created}
use wire_command_c.Tcp.System.{
  serving, leaving, ended, joined, accepting, joining, stopped, System, after_round, set_state,
  set_worker, start_system,
}
use wire_command_c.Threaded.Serve.{worker_round, fresh}
use wire_command_c.Threaded.Table.{
  is_stopping, request_stop, mark_finished, reap_slot, start_slot, join_slot,
}

abbrev pub max_clients : ℕ
max_clients = 64

pub data Step (s : System) : System → Type 0 where
  serve :
      (t : ℕ) (round : Round) (session : Session) (locked unlocked : Bool)
      → (s.threads t).state ≡ serving session
      → is_stopping locked unlocked s.stopping ≡ false
      → IsSoundRound round
      → Step s (record s { threads = set_state s t (after_round (worker_round round session)) })
  quit :
      (t : ℕ) (session : Session) (locked unlocked : Bool)
      → (s.threads t).state ≡ serving session
      → is_stopping locked unlocked s.stopping ≡ true
      → Step s (record s { threads = set_state s t leaving })
  finish :
      (t : ℕ) (locked : Bool)
      → (s.threads t).state ≡ leaving
      → Step s (record s {
        workers =
            set_worker s (s.threads t).slot (mark_finished locked (s.workers (s.threads t).slot));
        threads = set_state s t ended;
      })
  reap :
      (i : ℕ)
      → s.phase ≡ accepting
      → i < max_clients
      → (s.workers i).in_use && (s.workers i).finished ≡ true
      → (s.threads (s.workers i).thread).state ≡ ended
      → Step s (record s {
        workers = set_worker s i (reap_slot true (s.workers i));
        threads = set_state s (s.workers i).thread joined;
      })
  start :
      (i client_fd : ℕ)
      → s.phase ≡ accepting
      → i < max_clients
      → (s.workers i).in_use ≡ false
      → Step s (record s {
        workers = set_worker s i (start_slot (created s.started) client_fd (s.workers i)).1;
        threads = update s.threads s.started (record { slot = i; state = serving fresh });
        started = suc s.started;
      })
  refuse :
      (i client_fd : ℕ) (r : Starting)
      → s.phase ≡ accepting
      → i < max_clients
      → (s.workers i).in_use ≡ false
      → (start_slot r client_fd (s.workers i)).1.in_use ≡ false
      → Step s (record s { workers = set_worker s i (start_slot r client_fd (s.workers i)).1 })
  stop :
      (locked : Bool)
      → s.phase ≡ accepting
      → Step s (record s { stopping = request_stop locked s.stopping; phase = joining zero })
  join :
      (i : ℕ)
      → s.phase ≡ joining i
      → i < max_clients
      → (s.workers i).in_use ≡ true
      → (s.threads (s.workers i).thread).state ≡ ended
      → Step s (record s {
        workers = set_worker s i (join_slot true (s.workers i)).1;
        threads = set_state s (s.workers i).thread joined;
        phase = joining (suc i);
      })
  join_failed :
      (i : ℕ)
      → s.phase ≡ joining i
      → i < max_clients
      → (s.workers i).in_use ≡ true
      → Step s (record s { phase = joining (suc i); all_joined = false })
  skip :
      (i : ℕ)
      → s.phase ≡ joining i
      → i < max_clients
      → (s.workers i).in_use ≡ false
      → Step s (record s { phase = joining (suc i) })
  halt : s.phase ≡ joining max_clients → Step s (record s { phase = stopped })

pub data Reach : System → Type 0 where
  initial : Reach start_system
  later : {s t : System} → Reach s → Step s t → Reach t

-- A run of so many steps.
pub data Run : ℕ → System → System → Type 0 where
  here : {s : System} → Run 0 s s
  step : {n : ℕ} {s t u : System} → Step s t → Run n t u → Run (suc n) s u

-- ===== src/Tcp/Sessions.antt =====
-- The sessions of all workers of src/server_tcp.c, in every interleaving of the threads.
use wire_command_c.Common.{ℕ, ◌≡◌, true, false, ◌==◌, inl, inr, Bool-cases, update}
use wire_command_c.Uds.Respond.{Calls}
use wire_command_c.Tcp.Serve.{Session, Turn, worker_round}
use wire_command_c.Tcp.Served.{InOrder}
use wire_command_c.Tcp.Rounds.{worker_round-InOrder, fresh-InOrder}
use wire_command_c.Tcp.System.{
  State, unstarted, serving, leaving, ended, joined, Thread, System, after_round, Step, serve, quit,
  finish, reap, start, refuse, stop, join, join_failed, skip, halt, Reach, initial, later,
}

-- A worker that serves has its session in order.
abbrev IsOrdered : (Calls → Type 0) → State → Type 0
IsOrdered C unstarted = Unit
IsOrdered C (serving session) = InOrder C session
IsOrdered C leaving = Unit
IsOrdered C ended = Unit
IsOrdered C joined = Unit

abbrev AllOrdered : (Calls → Type 0) → (ℕ → Thread) → Type 0
AllOrdered C threads = (t : ℕ) → IsOrdered C (threads t).state

update-AllOrdered :
    (C : Calls → Type 0) (threads : ℕ → Thread) (t : ℕ) (th : Thread)
    → AllOrdered C threads
    → IsOrdered C th.state
    → AllOrdered C (update threads t th)
update-AllOrdered C threads t th all new u = elim (Bool-cases (u == t)) [
  | inl e ↦ rw e new
  | inr e ↦ rw e (all u)
]

after_round-IsOrdered :
    {C : Calls → Type 0} (turn : Turn) → InOrder C turn.1 → IsOrdered C (after_round turn)
after_round-IsOrdered (true, s) order = order
after_round-IsOrdered (false, s) order = tt

-- The calls behind the command of the step, if it is a round of a worker, are among `C`.
abbrev pub Uses : (Calls → Type 0) → {s u : System} → Step s u → Type 0
Uses C (serve t round session locked unlocked e go law) = C round.calls
Uses C (quit t session locked unlocked e go) = Unit
Uses C (finish t locked e) = Unit
Uses C (reap i e small over ended_) = Unit
Uses C (start i client_fd e small free) = Unit
Uses C (refuse i client_fd r e small free free') = Unit
Uses C (stop locked e) = Unit
Uses C (join i e small used ended_) = Unit
Uses C (join_failed i e small used) = Unit
Uses C (skip i e small free) = Unit
Uses C (halt e) = Unit

abbrev pub AllUse : (Calls → Type 0) → {s : System} → Reach s → Type 0
AllUse C initial = Unit
AllUse C (later r st) = AllUse C r × Uses C st

Step-AllOrdered :
    (C : Calls → Type 0) {s u : System} (st : Step s u)
    → Uses C st
    → AllOrdered C s.threads
    → AllOrdered C u.threads
Step-AllOrdered C {s} (serve t round session locked unlocked e go law) used_calls all =
    let now : InOrder C session = rw e at (all t) in
    update-AllOrdered C s.threads t _ all (
      after_round-IsOrdered (worker_round round session)
        (worker_round-InOrder round session used_calls law now))
Step-AllOrdered C {s} (quit t session locked unlocked e go) used_calls all =
    update-AllOrdered C s.threads t _ all tt
Step-AllOrdered C {s} (finish t locked e) used_calls all = update-AllOrdered C s.threads t _ all tt
Step-AllOrdered C {s} (reap i e small over ended_) used_calls all =
    update-AllOrdered C s.threads _ _ all tt
Step-AllOrdered C {s} (start i client_fd e small free) used_calls all =
    update-AllOrdered C s.threads s.started _ all fresh-InOrder
Step-AllOrdered C (refuse i client_fd r e small free free') used_calls all = all
Step-AllOrdered C (stop locked e) used_calls all = all
Step-AllOrdered C {s} (join i e small used ended_) used_calls all =
    update-AllOrdered C s.threads _ _ all tt
Step-AllOrdered C (join_failed i e small used) used_calls all = all
Step-AllOrdered C (skip i e small free) used_calls all = all
Step-AllOrdered C (halt e) used_calls all = all

Reach-AllOrdered :
    (C : Calls → Type 0) {s : System} (r : Reach s) → AllUse C r → AllOrdered C s.threads
Reach-AllOrdered C initial used = λ t. tt
Reach-AllOrdered C (later r st) used = Step-AllOrdered C st used.1 (Reach-AllOrdered C r used.0)

-- In every interleaving, each worker that serves has sent, or has waiting in its output, exactly the
-- response frames of the first requests of its own client's stream, in order, each the reply of its command
-- under calls of a round that a worker has run, with the rest of that stream in its input: no worker
-- disturbs the session of another. The calls are told apart by any property that all rounds of the
-- interleaving have.
pub Reach-InOrder :
    (C : Calls → Type 0) {s : System} (t : ℕ) (session : Session) (r : Reach s)
    → AllUse C r
    → (s.threads t).state ≡ serving session
    → InOrder C session
Reach-InOrder C {s} t session r used e = rw e at (Reach-AllOrdered C r used t)

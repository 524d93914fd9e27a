-- ===== src/Threaded/Interleaved.antt =====
-- The interleavings of the threads of src/server_uds_threaded.c, against those of src/server_tcp.c.
use wire_command_c.Common.{ℕ, ◌*◌, ◌+◌, ◌≤◌, ◌≡◌, ◌⊎◌, sym, ap, subst, inl, inr, false}
use wire_command_c.Uds.Respond.{Calls}
use wire_command_c.Tcp.Serve.{Session, Turn}
use wire_command_c.Tcp.Served.{InOrder}
use wire_command_c.Tcp.Sessions
use wire_command_c.Tcp.Stop
use wire_command_c.Tcp.Stop.{IsStopping}
use wire_command_c.Tcp.Table
use wire_command_c.Tcp.Table.{Worker}
use wire_command_c.Tcp.System as Tcp
use wire_command_c.Tcp.System.{System, serving, stopped, set_state, set_worker, after_round}
use wire_command_c.Threaded.Same.{worker_round-same}
use wire_command_c.Threaded.Slots.{start_slot-same}
use wire_command_c.Threaded.Table.{
  is_stopping, request_stop, mark_finished, reap_slot, start_slot, join_slot,
}
use wire_command_c.Threaded.System.{
  Step, serve, quit, finish, reap, start, refuse, stop, join, join_failed, skip, halt, Reach,
  initial, later, Run, here, step,
}

unfoldable Step-to : {s u : System} → Step s u → Tcp.Step s u
unfolding is_stopping Table.is_stopping request_stop Table.request_stop mark_finished
    Table.mark_finished reap_slot Table.reap_slot join_slot Table.join_slot start_slot
    Table.start_slot
Step-to {s} (serve t round session locked unlocked e go law) =
    subst (λ (x : Turn). Tcp.Step s (record s { threads = set_state s t (after_round x) }))
      (sym (worker_round-same round session)) (Tcp.serve t round session locked unlocked e go law)
Step-to (quit t session locked unlocked e go) = Tcp.quit t session locked unlocked e go
Step-to (finish t locked e) = Tcp.finish t locked e
Step-to (reap i e small over done) = Tcp.reap i e small over done
Step-to (start i client_fd e small free) = Tcp.start i client_fd e small free
Step-to {s} (refuse i client_fd r e small free free') =
    let same = start_slot-same r client_fd (s.workers i) in
    subst (λ (x : Worker). Tcp.Step s (record s { workers = set_worker s i x }))
      (ap (λ x. x.1) (sym same))
      (Tcp.refuse i client_fd r e small free
        (subst (λ (x : Worker). x.in_use ≡ false) (ap (λ x. x.1) same) free'))
Step-to (stop locked e) = Tcp.stop locked e
Step-to (join i e small used done) = Tcp.join i e small used done
Step-to (join_failed i e small used) = Tcp.join_failed i e small used
Step-to (skip i e small free) = Tcp.skip i e small free
Step-to (halt e) = Tcp.halt e

-- The step is not a failure of `pthread_join()`.
abbrev pub Proceeds : {s u : System} → Step s u → Type 0
Proceeds (serve t round session locked unlocked e go law) = Unit
Proceeds (quit t session locked unlocked e go) = Unit
Proceeds (finish t locked e) = Unit
Proceeds (reap i e small over done) = Unit
Proceeds (start i client_fd e small free) = Unit
Proceeds (refuse i client_fd r e small free free') = Unit
Proceeds (stop locked e) = Unit
Proceeds (join i e small used done) = Unit
Proceeds (join_failed i e small used) = ⊥
Proceeds (skip i e small free) = Unit
Proceeds (halt e) = Unit

-- Where the other server can go on, this one can.
Step-from :
    {s u : System} (st : Tcp.Step s u)
    → Stop.Proceeds st
    → (v : System) × (st' : Step s v) × Proceeds st'
unfolding is_stopping Table.is_stopping start_slot Table.start_slot
Step-from (Tcp.serve t round session locked unlocked e go law) p =
    (_, serve t round session locked unlocked e go law, tt)
Step-from (Tcp.quit t session locked unlocked e go) p = (_, quit t session locked unlocked e go, tt)
Step-from (Tcp.finish t locked e) p = (_, finish t locked e, tt)
Step-from (Tcp.reap i e small over done) p = (_, reap i e small over done, tt)
Step-from (Tcp.start i client_fd e small free) p = (_, start i client_fd e small free, tt)
Step-from {s} (Tcp.refuse i client_fd r e small free free') p =
    let same = start_slot-same r client_fd (s.workers i) in
    (
      _,
      refuse i client_fd r e small free
          (subst (λ (x : Worker). x.in_use ≡ false) (ap (λ x. x.1) (sym same)) free'),
      tt,
    )
Step-from (Tcp.stop locked e) p = (_, stop locked e, tt)
Step-from (Tcp.join i e small used done) p = (_, join i e small used done, tt)
Step-from (Tcp.join_failed i e small used) p = absurd p
Step-from (Tcp.skip i e small free) p = (_, skip i e small free, tt)
Step-from (Tcp.halt e) p = (_, halt e, tt)

-- The calls behind the command of the step, if it is a round of a worker, are among `C`.
abbrev pub Uses : (Calls → Type 0) → {s u : System} → Step s u → Type 0
Uses C (serve t round session locked unlocked e go law) = C round.calls
Uses C (quit t session locked unlocked e go) = Unit
Uses C (finish t locked e) = Unit
Uses C (reap i e small over done) = Unit
Uses C (start i client_fd e small free) = Unit
Uses C (refuse i client_fd r e small free free') = Unit
Uses C (stop locked e) = Unit
Uses C (join i e small used done) = Unit
Uses C (join_failed i e small used) = Unit
Uses C (skip i e small free) = Unit
Uses C (halt e) = Unit

abbrev pub AllUse : (Calls → Type 0) → {s : System} → Reach s → Type 0
AllUse C initial = Unit
AllUse C (later r st) = AllUse C r × Uses C st

unfoldable Reach-to : {s : System} → Reach s → Tcp.Reach s
Reach-to initial = Tcp.initial
Reach-to (later r st) = Tcp.later (Reach-to r) (Step-to st)

-- It uses the same calls however the state it comes to is written.
Uses-subst :
    {A : Type 0} (C : Calls → Type 0) (s : System) (F : A → System) {x y : A} (p : x ≡ y)
    (st : Tcp.Step s (F x))
    → Sessions.Uses C st
    → Sessions.Uses C (subst (λ (z : A). Tcp.Step s (F z)) p st)
Uses-subst C s F p st u = coe 0 1 (j. Sessions.Uses C (coe 0 j (i. Tcp.Step s (F (p i))) st)) u

Uses-to :
    (C : Calls → Type 0) {s u : System} (st : Step s u) → Uses C st → Sessions.Uses C (Step-to st)
unfolding Step-to is_stopping Table.is_stopping request_stop Table.request_stop mark_finished
    Table.mark_finished reap_slot Table.reap_slot join_slot Table.join_slot start_slot
    Table.start_slot
Uses-to C {s} (serve t round session locked unlocked e go law) used =
    Uses-subst C s (λ (x : Turn). record s { threads = set_state s t (after_round x) })
      (sym (worker_round-same round session)) (Tcp.serve t round session locked unlocked e go law)
      used
Uses-to C (quit t session locked unlocked e go) used = tt
Uses-to C (finish t locked e) used = tt
Uses-to C (reap i e small over done) used = tt
Uses-to C (start i client_fd e small free) used = tt
Uses-to C {s} (refuse i client_fd r e small free free') used =
    let same = start_slot-same r client_fd (s.workers i) in
    Uses-subst C s (λ (x : Worker). record s { workers = set_worker s i x })
      (ap (λ x. x.1) (sym same))
      (Tcp.refuse i client_fd r e small free
        (subst (λ (x : Worker). x.in_use ≡ false) (ap (λ x. x.1) same) free'))
      tt
Uses-to C (stop locked e) used = tt
Uses-to C (join i e small used_slot done) used = tt
Uses-to C (join_failed i e small used_slot) used = tt
Uses-to C (skip i e small free) used = tt
Uses-to C (halt e) used = tt

AllUse-to :
    (C : Calls → Type 0) {s : System} (r : Reach s) → AllUse C r → Sessions.AllUse C (Reach-to r)
unfolding Reach-to
AllUse-to C initial used = tt
AllUse-to C (later r st) used = (AllUse-to C r used.0, Uses-to C st used.1)

Run-to : {n : ℕ} {s u : System} → Run n s u → Stop.Run n s u
Run-to here = Stop.here
Run-to (step st run) = Stop.step (Step-to st) (Run-to run)

-- In every interleaving of the threads of the threaded server, each worker that serves has sent, or has
-- waiting in its output, exactly the response frames of the first requests of its own client's stream, one
-- for each and in order, each the reply of its command under calls of a round that a worker has run, with
-- the rest of that stream in its input. The calls are told apart by any property that all rounds of the
-- interleaving have.
pub Reach-Answered :
    (C : Calls → Type 0) {s : System} (t : ℕ) (session : Session) (r : Reach s)
    → AllUse C r
    → (s.threads t).state ≡ serving session
    → InOrder C session
Reach-Answered C t session r used e =
    Sessions.Reach-InOrder C t session (Reach-to r) (AllUse-to C r used) e

-- Once the stop is published and the main thread joins, the threaded server ends under every schedule: no
-- run from there has more than 2 * started + 65 steps, and where a run has come to, the main thread has
-- ended or some thread can go on.
pub Run-finishes :
    {n : ℕ} {s u : System}
    → Reach s
    → IsStopping s
    → Run n s u
    → (n ≤ 2 * s.started + 65)
      × ((u.phase ≡ stopped) ⊎ ((v : System) × (st : Step u v) × Proceeds st))
Run-finishes r h run =
    let (bound, more) = Stop.Run-ends (Reach-to r) h (Run-to run) in
    (bound, elim more [ inl e ↦ inl e | inr (v, st, p) ↦ inr (Step-from st p) ])

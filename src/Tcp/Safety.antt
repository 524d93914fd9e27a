-- ===== src/Tcp/Safety.antt =====
-- What holds of the threads of src/server_tcp.c in every reachable state.
use wire_command_c.Common.{
  ℕ, suc, ◌≤◌, ◌<◌, ◌≡◌, ◌≢◌, refl, ◌∙◌, sym, ap, Bool, true, false, arith, inl, inr, Bool-cases,
}
use wire_command_c.Tcp.Serve.{Turn, worker_round, max_clients, fresh}
use wire_command_c.Tcp.Table.{reap_slot, created, start_slot, join_slot}
use wire_command_c.Tcp.System.{
  leaving, Phase, joining, stopped, System, after_round, Step, serve, quit, finish, reap, start,
  refuse, stop, join, join_failed, skip, halt, Reach, initial, later,
}
use wire_command_c.Tcp.Invariant.{
  is_live, passed, Inv, start-Inv, set_state-Inv, finish-Inv, release-Inv, start-slot-Inv,
  refuse-Inv,
}

after_round-live : (turn : Turn) → is_live (after_round turn) ≡ true
after_round-live (true, s) = refl
after_round-live (false, s) = refl

-- The main thread goes on to another slot, or ends.
phase-Inv :
    {s : System} (stopping : Bool) (phase : Phase) (all_joined : Bool)
    → passed phase ≤ max_clients
    → (all_joined ≡ true → (i : ℕ) → i < passed phase → (s.workers i).in_use ≡ false)
    → Inv s
    → Inv (record s { stopping = stopping; phase = phase; all_joined = all_joined })
phase-Inv stopping phase all_joined within freed inv = record {
  owned = inv.owned;
  held = inv.held;
  over = inv.over;
  unborn = inv.unborn;
  within = within;
  freed = freed;
}

Step-Inv : {s u : System} → Step s u → Inv s → Inv u
unfolding reap_slot start_slot join_slot
Step-Inv {s} (serve t round session locked unlocked e go law) inv =
    set_state-Inv t (after_round (worker_round round session)) (ap is_live e) (λ n. cc)
      (after_round-live (worker_round round session)) inv
Step-Inv {s} (quit t session locked unlocked e go) inv =
    set_state-Inv t leaving (ap is_live e) (λ n. cc) refl inv
Step-Inv {s} (finish t locked e) inv = finish-Inv t locked e inv
Step-Inv {s} (reap i e small over ended_) inv =
    let used : (s.workers i).in_use ≡ true = ground (arith, over) in
    release-Inv i (reap_slot true (s.workers i)) used (rw over refl) inv
Step-Inv {s} (start i client_fd e small free) inv =
    start-slot-Inv i (start_slot (created s.started) client_fd (s.workers i)).1 fresh e small free
      refl refl refl inv
Step-Inv {s} (refuse i client_fd r e small free free') inv =
    refuse-Inv i (start_slot r client_fd (s.workers i)).1 free free' inv
Step-Inv {s} (stop locked e) inv =
    phase-Inv _ (joining 0) s.all_joined (omega arith) (λ a i h. absurd (omega arith)) inv
Step-Inv {s} (join i e small used ended_) inv =
    let given = release-Inv i (join_slot true (s.workers i)).1 used (rw used refl) inv in
    phase-Inv s.stopping (joining (suc i)) s.all_joined (omega arith)
      (λ a j h. grind (arith, given.freed a j, e, used)) given
Step-Inv {s} (join_failed i e small used) inv =
    phase-Inv s.stopping (joining (suc i)) false (omega arith) (λ a j h. absurd (cc)) inv
Step-Inv {s} (skip i e small free) inv =
    phase-Inv s.stopping (joining (suc i)) s.all_joined (omega arith)
      (λ a j h. grind (arith, inv.freed a j, e, free)) inv
Step-Inv {s} (halt e) inv =
    phase-Inv s.stopping stopped s.all_joined (omega arith)
      (λ a j h. inv.freed a j (ground (arith, e))) inv

pub Reach-Inv : {s : System} → Reach s → Inv s
Reach-Inv initial = start-Inv
Reach-Inv (later r st) = Step-Inv st (Reach-Inv r)

-- In every reachable state, two different threads that were created and not yet joined have different
-- slots of the table, and the slot of such a thread is in use and names this thread.
pub Reach-owned :
    {s : System} (t u : ℕ)
    → Reach s
    → is_live (s.threads t).state ≡ true
    → is_live (s.threads u).state ≡ true
    → t ≢ u
    → ((s.threads t).slot < max_clients)
      × ((s.workers (s.threads t).slot).in_use ≡ true)
      × ((s.workers (s.threads t).slot).thread ≡ t)
      × ((s.threads t).slot ≢ (s.threads u).slot)
Reach-owned {s} t u r live live' other =
    let inv = Reach-Inv r in
    let own = inv.owned t live in
    let own' = inv.owned u live' in
    (own.0, own.1, own.2, λ e. other (sym own.2 ∙ ap (λ i. (s.workers i).thread) e ∙ own'.2))

-- When the server has ended with all joins done, which is when it destroys its mutex, no thread that it
-- has created is left: none may still take the mutex.
pub Reach-joined :
    {s : System} (t : ℕ)
    → Reach s
    → s.phase ≡ stopped
    → s.all_joined ≡ true
    → is_live (s.threads t).state ≡ false
Reach-joined {s} t r e a =
    let inv = Reach-Inv r in
    elim (Bool-cases (is_live (s.threads t).state)) [
      | inl live ↦
          let own = inv.owned t live in
          let free = inv.freed a (s.threads t).slot (ground (arith, e, own)) in absurd (cc)
      | inr dead ↦ dead
    ]

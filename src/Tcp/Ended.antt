-- ===== src/Tcp/Ended.antt =====
-- How a run of src/server_tcp.c ends.
use wire_command_c.Common.{
  ℕ, suc, ◌≡◌, ◌≢◌, refl, arith, ◌⊎◌, inl, inr, Bool, true, false, Bool-cases, Option, [], ◌∷◌, All,
  Status, ok, fail, Errno, einval, eio, Outcome, value, error, Bytes,
}
use wire_command_c.Endpoints.{Opened, and_then, open_tcp_listener}
use wire_command_c.Endpoints.Closed.{IsTight, open_tcp_listener-IsTight}
use wire_command_c.Tcp.Table.{Worker, Workers, workers_init, join_slot, join_all}
use wire_command_c.Tcp.Main.{
  MainTurn, main_loop, Ending, after_join, shut_down, RunCalls, RunEnd, not_run, after_loop,
  after_open, after_mutex, run_server,
}

-- No slot is in use: no thread is left to join.
abbrev pub AllFree : Workers → Type 0
AllFree = All (λ w. w.in_use ≡ false)

pub workers_init-AllFree : (ws : Workers) → AllFree (workers_init ws)
unfolding workers_init
workers_init-AllFree [] = tt
workers_init-AllFree (w ∷ ws) = (refl, workers_init-AllFree ws)

join_slot-free :
    (joined : Bool) (w : Worker)
    → (join_slot joined w).0 ≡ true
    → (join_slot joined w).1.in_use ≡ false
unfolding join_slot
join_slot-free joined w e = elim (Bool-cases w.in_use) [
  | inr f ↦ rw f refl
  | inl t ↦ elim (Bool-cases joined) [
    | inl y ↦ rw (t, y) refl
    | inr n ↦ absurd (let h : false ≡ true = rw (t, n) at e in cc)
  ]
]

pub join_all-AllFree :
    (joins : ℕ → Bool) (ws : Workers) → (join_all joins ws).0 ≡ true → AllFree (join_all joins ws).1
unfolding join_all
join_all-AllFree joins [] e = tt
join_all-AllFree joins (w ∷ ws) e = (
  join_slot-free (joins 0) w (ground (arith, e)),
  join_all-AllFree (λ i. joins (suc i)) ws (ground (arith, e)),
)

-- The listener is closed if it was opened; the mutex is destroyed only when no slot is in use, so that no
-- thread may still take it; and a success has made and destroyed it.
pub record IsEnded (r : RunEnd) : Type 0 where
  pub listener_closed : r.closed ≡ r.opened
  pub all_joined : (r.destroyed ≡ false) ⊎ AllFree r.workers
  pub mutex_destroyed : (r.result ≢ ok) ⊎ ((r.made ≡ true) × (r.destroyed ≡ true))

pub not_run-IsEnded : (e : Errno) (ws : Workers) → IsEnded (not_run e ws)
not_run-IsEnded e ws = record {
  listener_closed = refl;
  all_joined = inl refl;
  mutex_destroyed = inl (λ q. cc);
}

pub fails : (s : Status) (e : Errno) → and_then s (fail e) ≢ ok
fails ok e = λ q. cc
fails (fail x) e = λ q. cc

shut_down-ends :
    (e : Ending) (s : Status) (ws : Workers)
    → (((shut_down e s ws).destroyed ≡ false) × ((shut_down e s ws).result ≢ ok))
      ⊎ (((shut_down e s ws).destroyed ≡ true) × AllFree (shut_down e s ws).workers)
unfolding shut_down
shut_down-ends e s ws = by_join (join_all e.joins ws) (join_all-AllFree e.joins ws)
  where
    by_join :
        (x : Bool × Workers)
        → (x.0 ≡ true → AllFree x.1)
        → (let end = after_join e (and_then s (and_then (and_then e.lock e.unlock) e.close)) x in
            ((end.destroyed ≡ false) × (end.result ≢ ok))
            ⊎ ((end.destroyed ≡ true) × AllFree end.workers))
    by_join (true, ws') free = inr (refl, free refl)
    by_join (false, ws') free = inl (refl, fails _ eio)

after_loop-IsEnded :
    (calls : RunCalls) (listener : ℕ) (turn : MainTurn) → IsEnded (after_loop calls listener turn)
after_loop-IsEnded calls listener turn =
    elim (shut_down-ends calls.ending turn.result turn.workers) [
      | inl (d, f) ↦ record { listener_closed = refl; all_joined = inl d; mutex_destroyed = inl f }
      | inr (d, free) ↦ record {
        listener_closed = refl;
        all_joined = inr free;
        mutex_destroyed = inr (refl, d);
      }
    ]

after_open-IsEnded :
    (calls : RunCalls) (ws : Workers) (o : Opened) (x : Outcome ℕ)
    → AllFree ws
    → o.result ≡ x
    → IsTight o
    → IsEnded (after_open calls ws o x)
unfolding after_open
after_open-IsEnded calls ws o (error err) free e tight =
    let c : o.closed ≡ o.opened = rw e at tight in
    record { listener_closed = c; all_joined = inr free; mutex_destroyed = inl (λ q. cc) }
after_open-IsEnded calls ws o (value listener) free e tight =
    after_loop-IsEnded calls listener (main_loop calls.rounds ws)

-- Whatever the system calls return and whatever the workers do, a run of the server over TCP ends with its
-- listener closed if it was opened. It destroys its mutex only when no slot is in use, so that all threads
-- are joined, and if it returns 0 it has made and destroyed it.
pub run_server-IsEnded :
    (calls : RunCalls) (has_flag : Bool) (bind_address : Option Bytes) (port : ℕ) (ws : Workers)
    → IsEnded (run_server calls has_flag bind_address port ws)
unfolding run_server
run_server-IsEnded calls false bind_address port ws = not_run-IsEnded einval ws
run_server-IsEnded calls true bind_address port ws = by_mutex calls.mutex_init
  where
    by_mutex : (s : Status) → IsEnded (after_mutex calls bind_address port ws s)
    by_mutex (fail e) = not_run-IsEnded e ws
    by_mutex ok =
        let o = open_tcp_listener calls.endpoint bind_address port in
        after_open-IsEnded calls (workers_init ws) o o.result (workers_init-AllFree ws) refl
          (open_tcp_listener-IsTight calls.endpoint bind_address port)

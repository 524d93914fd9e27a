-- ===== src/Threaded/Ended.antt =====
-- How a run of src/server_uds_threaded.c ends.
use wire_command_c.Common.{
  ℕ, ◌≡◌, ◌≢◌, refl, ◌∙◌, sym, ap, subst, ◌⊎◌, inl, inr, Bool, true, false, Option, Status, ok,
  fail, einval, eio, Outcome, value, error, Bytes,
}
use wire_command_c.Endpoints.{Opened, and_then, or_missing, open_threaded_listener}
use wire_command_c.Endpoints.Closed.{IsTight, open_threaded_listener-IsTight}
use wire_command_c.Tcp.Table.{Workers}
use wire_command_c.Tcp.Main.{MainTurn}
use wire_command_c.Tcp.Ended.{
  AllFree, IsEnded, not_run-IsEnded, fails, join_all-AllFree, workers_init-AllFree,
}
use wire_command_c.Threaded.Table.{workers_init, join_all}
use wire_command_c.Threaded.Slots.{join_all-same, workers_init-same}
use wire_command_c.Threaded.Main.{
  main_loop, Ending, after_join, shut_down, RunCalls, after_loop, after_open, after_mutex,
  run_server,
}

shut_down-ends :
    (e : Ending) (s : Status) (ws : Workers)
    → (((shut_down e s ws).destroyed ≡ false) × ((shut_down e s ws).result ≢ ok))
      ⊎ (((shut_down e s ws).destroyed ≡ true) × AllFree (shut_down e s ws).workers)
unfolding shut_down
shut_down-ends e s ws = by_join (join_all e.joins ws) (λ y.
    subst AllFree (ap (λ x. x.1) (sym (join_all-same e.joins ws)))
      (join_all-AllFree e.joins ws (sym (ap (λ x. x.0) (join_all-same e.joins ws)) ∙ y)))
  where
    by_join :
        (x : Bool × Workers)
        → (x.0 ≡ true → AllFree x.1)
        → (let end =
              after_join e
                (and_then s
                  (and_then (and_then e.lock e.unlock) (and_then e.close (or_missing e.unlink))))
                x in
            ((end.destroyed ≡ false) × (end.result ≢ ok))
            ⊎ ((end.destroyed ≡ true) × AllFree end.workers))
    by_join (true, ws') free = inr (refl, free refl)
    by_join (false, ws') free = inl (refl, fails _ eio)

after_loop-IsEnded :
    (calls : RunCalls) (listener : ℕ) (turn : MainTurn) → IsEnded (after_loop calls listener turn)
after_loop-IsEnded calls listener turn =
    elim (shut_down-ends calls.ending turn.result turn.workers) [
      | inl (d, f) ↦ record { listener_closed = refl; all_joined = inl d; mutex_destroyed = inl f }
      | inr (d, free) ↦ record {
        listener_closed = refl;
        all_joined = inr free;
        mutex_destroyed = inr (refl, d);
      }
    ]

after_open-IsEnded :
    (calls : RunCalls) (ws : Workers) (o : Opened) (x : Outcome ℕ)
    → AllFree ws
    → o.result ≡ x
    → IsTight o
    → IsEnded (after_open calls ws o x)
unfolding after_open
after_open-IsEnded calls ws o (error err) free e tight =
    let c : o.closed ≡ o.opened = rw e at tight in
    record { listener_closed = c; all_joined = inr free; mutex_destroyed = inl (λ q. cc) }
after_open-IsEnded calls ws o (value listener) free e tight =
    after_loop-IsEnded calls listener (main_loop calls.rounds ws)

-- Whatever the system calls return and whatever the workers do, a run of the threaded server over a Unix
-- domain socket ends with its listener closed if it was opened. It destroys its mutex only when no slot is
-- in use, so that all threads are joined, and if it returns 0 it has made and destroyed it.
pub run_server-IsEnded :
    (calls : RunCalls) (has_flag : Bool) (socket_path : Option Bytes) (ws : Workers)
    → IsEnded (run_server calls has_flag socket_path ws)
unfolding run_server
run_server-IsEnded calls false socket_path ws = not_run-IsEnded einval ws
run_server-IsEnded calls true socket_path ws = by_mutex calls.mutex_init
  where
    by_mutex : (s : Status) → IsEnded (after_mutex calls socket_path ws s)
    by_mutex (fail e) = not_run-IsEnded e ws
    by_mutex ok =
        let o = open_threaded_listener calls.endpoint socket_path in
        after_open-IsEnded calls (workers_init ws) o o.result
          (subst AllFree (sym (workers_init-same ws)) (workers_init-AllFree ws)) refl
          (open_threaded_listener-IsTight calls.endpoint socket_path)

-- ===== src/Uds/Run.antt =====
-- What the event loop of src/server_uds.c keeps, whatever its system calls return.
use wire_command_c.Common.{
  ℕ, Bool, Option, none, some, List, [], ◌∷◌, arith, inl, inr, Bool-cases, ok, fail,
}
use wire_command_c.Queue.Spec.{Fifo}
use wire_command_c.Uds.Table.{Client, Clients}
use wire_command_c.Uds.Slots.{get_slot}
use wire_command_c.Uds.Input.{Loaded}
use wire_command_c.Uds.Output.{Written}
use wire_command_c.Uds.Respond.{Calls}
use wire_command_c.Uds.Process.{set_slot, process_queue}
use wire_command_c.Uds.Drain.{remove_client-Within, length-Within, process_queue-Drained}
use wire_command_c.Uds.Bound.{IsBounded, read_client-IsBounded}
use wire_command_c.Uds.Loop.{
  Events, removed, after_write, after_read, serve, serve_all, PollResult, poll_interrupted,
  poll_failed, polled, run_loop,
}

removed-IsBounded : (c : Client) (q : Fifo) → IsBounded q → IsBounded (removed c q).1
removed-IsBounded c q h = omega (arith, length-Within (remove_client-Within c q))

after_write-IsBounded :
    (hung_up : Bool) (c : Client) (q : Fifo) (w : Written)
    → IsBounded q
    → IsBounded (after_write hung_up c q w).1
unfolding after_write
after_write-IsBounded hung_up c q (fail e, output, taken) h = removed-IsBounded _ q h
after_write-IsBounded hung_up c q (ok, output, taken) h = elim (Bool-cases hung_up) [
  | inl e ↦ rw e (removed-IsBounded _ q h)
  | inr e ↦ rw e h
]

after_read-IsBounded :
    (events : Events) (x : Loaded) → IsBounded x.2 → IsBounded (after_read events x).1
unfolding after_read
after_read-IsBounded events (fail e, c, q) h = removed-IsBounded c q h
after_read-IsBounded events (ok, c, q) h = after_write-IsBounded events.hung_up c q _ h

serve-IsBounded :
    (events : Events) (c : Client) (q : Fifo) → IsBounded q → IsBounded (serve events c q).1
unfolding serve
serve-IsBounded events c q h = at_fd c.fd
  where
    at_fd : (fd : Option ℕ) → IsBounded (serve events (record c { fd = fd }) q).1
    at_fd none = h
    at_fd (some n) = elim (Bool-cases events.readable) [
      | inl e ↦ rw e (
          after_read-IsBounded events _ (
            read_client-IsBounded events.errno_before_reads events.reads (record c { fd = some n })
              q h))
      | inr e ↦ rw e (after_read-IsBounded events (ok, record c { fd = some n }, q) h)
    ]

serve_all-IsBounded :
    (events : List Events) (cs : Clients) (q : Fifo)
    → IsBounded q
    → IsBounded (serve_all events cs q).1
unfolding serve_all
serve_all-IsBounded [] cs q h = h
serve_all-IsBounded (events ∷ rest) cs q h =
    at_slot (get_slot cs events.index) (λ cs' q'. serve_all-IsBounded rest cs' q')
  where
    at_slot :
        (o : Option Client)
        → ((cs' : Clients) (q' : Fifo) → IsBounded q' → IsBounded (serve_all rest cs' q').1)
        → IsBounded
            (elim o as (λ x. Clients × Fifo) [
              | none ↦ serve_all rest cs q
              | some c ↦
                  (let (c', queue') = serve events c q in
                    serve_all rest (set_slot cs events.index c') queue')
            ]).1
    at_slot none more = more cs q h
    at_slot (some c) more = more _ _ (serve-IsBounded events c q h)

process_queue-IsBounded :
    (calls : ℕ → Calls) (cs : Clients) (q : Fifo)
    → IsBounded q
    → IsBounded (process_queue calls cs q).1
process_queue-IsBounded calls cs q h =
    omega (arith, length-Within (process_queue-Drained calls cs q).1)

-- Through the whole run of the server, whatever its system calls and its commands do, no more than 256
-- requests wait.
pub run_loop-IsBounded :
    (rounds : List ((ℕ → Calls) × PollResult)) (cs : Clients) (q : Fifo)
    → IsBounded q
    → IsBounded (run_loop rounds cs q).2
unfolding run_loop
run_loop-IsBounded [] cs q h = h
run_loop-IsBounded ((calls, poll_interrupted) ∷ rs) cs q h =
    run_loop-IsBounded rs _ _ (process_queue-IsBounded calls cs q h)
run_loop-IsBounded ((calls, poll_failed e) ∷ rs) cs q h = process_queue-IsBounded calls cs q h
run_loop-IsBounded ((calls, polled broken waiting events accepts) ∷ rs) cs q h =
    let processed = process_queue-IsBounded calls cs q h in
    elim (Bool-cases broken) [
      | inl e ↦ rw (e, run_loop) processed
      | inr e ↦
          rw (e, run_loop) (run_loop-IsBounded rs _ _ (serve_all-IsBounded events _ _ processed))
    ]

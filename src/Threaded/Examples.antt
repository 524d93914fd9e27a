-- ===== src/Threaded/Examples.antt =====
-- The theorems on src/server_uds_threaded.c at concrete inputs.
use wire_command_c.Common.{zero, ◌*◌, ◌+◌, ◌≤◌, ◌≡◌, ◌⊎◌, ◌∙◌, refl, ap, arith, true, false, update}
use wire_command_c.Tcp.Serve as One
use wire_command_c.Tcp.Served.{InOrder}
use wire_command_c.Tcp.Stop.{IsStopping}
use wire_command_c.Tcp.Table.{created}
use wire_command_c.Uds.Plain.{calls}
use wire_command_c.Tcp.Plain.{
  rounds, reading, reading-IsSoundRound, after_reading, reading-after_reading,
}
use wire_command_c.Tcp.System.{
  System, serving, leaving, joining, stopped, start_system, set_worker, set_state, after_round,
}
use wire_command_c.Threaded.Serve.{fresh, worker_loop}
use wire_command_c.Threaded.Table.{is_stopping, request_stop, start_slot}
use wire_command_c.Threaded.System.{
  Step, Reach, initial, later, start, serve, stop, quit, here, step,
}
use wire_command_c.Threaded.Same.{worker_round-same, worker_loop-same}
use wire_command_c.Threaded.Interleaved.{Proceeds, Reach-Answered, Run-finishes}

-- A client gets the first slot.
abbrev one_client : System
one_client = record start_system {
  workers = set_worker start_system 0 (start_slot (created 0) 5 (start_system.workers 0)).1;
  threads = update start_system.threads 0 (record { slot = 0; state = serving fresh });
  started = 1;
}

one_client-Reach : Reach one_client
one_client-Reach = later initial (start 0 5 refl (omega arith) refl)

worker_loop-same_example : worker_loop rounds fresh ≡ One.worker_loop rounds fresh
worker_loop-same_example = worker_loop-same rounds fresh

-- The only calls of the interleaving are those of the one round.
Reach-Answered_example : InOrder (λ c. c ≡ calls) after_reading
unfolding one_client-Reach is_stopping
Reach-Answered_example =
    Reach-Answered (λ c. c ≡ calls) 0 after_reading
      (later one_client-Reach (serve 0 reading fresh true true refl refl reading-IsSoundRound))
      ((tt, tt), refl) (ap after_round (worker_round-same reading fresh ∙ reading-after_reading))

-- The server stops while it serves the client.
abbrev stopping_client : System
stopping_client = record one_client { stopping = request_stop true false; phase = joining zero }

stopping_client-Reach : Reach stopping_client
stopping_client-Reach = later one_client-Reach (stop true refl)

stopping_client-IsStopping : IsStopping stopping_client
unfolding request_stop
stopping_client-IsStopping = (refl, λ e. absurd (cc))

abbrev quitting : System
quitting = record stopping_client { threads = set_state stopping_client 0 leaving }

quit-Step : Step stopping_client quitting
unfolding is_stopping request_stop
quit-Step = quit 0 fresh true true refl refl

Run-finishes_example :
    (1 ≤ 2 * 1 + 65)
    × ((quitting.phase ≡ stopped) ⊎ ((v : System) × (st : Step quitting v) × Proceeds st))
Run-finishes_example =
    Run-finishes stopping_client-Reach stopping_client-IsStopping (step quit-Step here)

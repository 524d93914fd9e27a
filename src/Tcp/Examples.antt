-- ===== src/Tcp/Examples.antt =====
-- The theorems on src/server_tcp.c at concrete inputs.
use wire_command_c.Common.{
  ok, some, codes, ℕ, none, false, [], ◌∷◌, zero, suc, ◌<◌, ◌≤◌, ◌+◌, ◌*◌, ◌≡◌, ◌≢◌, ◌⊎◌, refl, ap,
  true, arith, update,
}
use wire_command_c.Tcp.Serve.{fresh, max_clients}
use wire_command_c.Tcp.Served.{InOrder}
use wire_command_c.Tcp.Table.{
  Worker, connected, admit, created, start_slot, is_stopping, request_stop, mark_finished,
  join_slot,
}
use wire_command_c.Tcp.System.{
  System, Step, Reach, joining, stopped, serving, leaving, initial, later, start, serve, quit, stop,
  finish, join, ended, joined, skip, halt, start_system, set_worker, set_state, after_round,
}
use wire_command_c.Tcp.Invariant.{is_live}
use wire_command_c.Tcp.Safety.{Reach-owned, Reach-joined}
use wire_command_c.Tcp.Stop.{Proceeds, IsStopping, here, step, Run-ends}
use wire_command_c.Tcp.Sessions.{Reach-InOrder}
use wire_command_c.Endpoints.Plain.{endpoint_calls}
use wire_command_c.Tcp.Handed.{IsHanded, admit-IsHanded}
use wire_command_c.Tcp.Main.{RunCalls, polled, run_server}
use wire_command_c.Tcp.Ended.{IsEnded, run_server-IsEnded}
use wire_command_c.Uds.Plain.{calls}
use wire_command_c.Tcp.Plain.{reading, reading-IsSoundRound, after_reading, reading-after_reading}

-- A client gets a slot.
abbrev started_in : System → ℕ → ℕ → System
started_in s i client_fd = record s {
  workers = set_worker s i (start_slot (created s.started) client_fd (s.workers i)).1;
  threads = update s.threads s.started (record { slot = i; state = serving fresh });
  started = suc s.started;
}

abbrev one_client : System
one_client = started_in start_system 0 5

abbrev two_clients : System
two_clients = started_in one_client 7 6

one_client-Reach : Reach one_client
one_client-Reach = later initial (start 0 5 refl (omega arith) refl)

two_clients-Reach : Reach two_clients
two_clients-Reach = later one_client-Reach (start 7 6 refl (omega arith) refl)

Reach-owned_example :
    ((two_clients.threads 0).slot < max_clients)
    × ((two_clients.workers (two_clients.threads 0).slot).in_use ≡ true)
    × ((two_clients.workers (two_clients.threads 0).slot).thread ≡ 0)
    × ((two_clients.threads 0).slot ≢ (two_clients.threads 1).slot)
Reach-owned_example = Reach-owned 0 1 two_clients-Reach refl refl (omega arith)

-- The only calls of the interleaving are those of the one round.
Reach-InOrder_example : InOrder (λ c. c ≡ calls) after_reading
unfolding one_client-Reach is_stopping
Reach-InOrder_example =
    Reach-InOrder (λ c. c ≡ calls) 0 after_reading
      (later one_client-Reach (serve 0 reading fresh true true refl refl reading-IsSoundRound))
      ((tt, tt), refl) (ap after_round reading-after_reading)

-- The server stops while it serves a client.
abbrev stopping_client : System
stopping_client = record one_client { stopping = request_stop true false; phase = joining zero }

stopping_client-Reach : Reach stopping_client
stopping_client-Reach = later one_client-Reach (stop true refl)

stopping_client-IsStopping : IsStopping stopping_client
unfolding request_stop
stopping_client-IsStopping = (refl, λ e. absurd (cc))

abbrev quitting : System
quitting = record stopping_client { threads = set_state stopping_client 0 leaving }

quit-Step : Step stopping_client quitting
unfolding is_stopping request_stop
quit-Step = quit 0 fresh true true refl refl

Run-ends_example :
    (1 ≤ 2 * 1 + 65)
    × ((quitting.phase ≡ stopped) ⊎ ((v : System) × (st : Step quitting v) × Proceeds st))
Run-ends_example = Run-ends stopping_client-Reach stopping_client-IsStopping (step quit-Step here)

abbrev finished : System
finished = record quitting {
  workers = set_worker quitting 0 (mark_finished true (quitting.workers 0));
  threads = set_state quitting 0 ended;
}

-- The slots from 1 on are free.
abbrev joined_to : ℕ → System
joined_to i = record finished {
  workers = set_worker finished 0 (join_slot true (finished.workers 0)).1;
  threads = set_state finished 0 joined;
  phase = joining i;
}

first-Reach : Reach (joined_to 1)
unfolding mark_finished start_slot
first-Reach =
    later (later (later stopping_client-Reach quit-Step) (finish 0 true refl))
      (join 0 refl (omega arith) refl refl)

joined_to-Reach : (n : ℕ) → suc n ≤ max_clients → Reach (joined_to (suc n))
joined_to-Reach zero h = first-Reach
joined_to-Reach (suc n) h =
    later (joined_to-Reach n (omega arith)) (skip (suc n) refl (omega arith) (ground arith))

Reach-joined_example : is_live ((joined_to max_clients).threads 0).state ≡ false
Reach-joined_example =
    Reach-joined {s = record (joined_to max_clients) { phase = stopped }} 0
      (later (joined_to-Reach 63 (omega arith)) (halt refl)) refl refl

-- A run that accepts one client, which has finished when the server stops.
abbrev run_calls : RunCalls
run_calls = record {
  mutex_init = ok;
  endpoint = endpoint_calls;
  rounds =
      record {
        finished = [];
        reapings = [];
        poll = polled true false;
        accepts = connected 5 [] ok (created 0) ∷ [];
      }
      ∷ [];
  ending = record { lock = ok; unlock = ok; close = ok; joins = λ i. true; destroy = ok };
}

abbrev free : Worker
free = record { thread = 0; client_fd = none; in_use = false; finished = false }

run_server-IsEnded_example :
    IsEnded (run_server run_calls true (some (codes "127.0.0.1")) 9090 (free ∷ free ∷ []))
run_server-IsEnded_example =
    run_server-IsEnded run_calls true (some (codes "127.0.0.1")) 9090 (free ∷ free ∷ [])

admit-IsHanded_example : IsHanded 5 (free ∷ []) (admit (free ∷ []) 5 ok (created 0))
admit-IsHanded_example = admit-IsHanded (free ∷ []) 5 ok (created 0)

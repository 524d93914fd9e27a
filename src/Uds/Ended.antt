-- ===== src/Uds/Ended.antt =====
-- How a run of src/server_uds.c ends.
use wire_command_c.Common.{
  ℕ, ◌≡◌, refl, Bool, true, false, Option, none, some, [], ◌∷◌, All, Outcome, value, error, Bytes,
}
use wire_command_c.Queue.Spec.{Fifo}
use wire_command_c.Endpoints.{Opened, open_uds_listener}
use wire_command_c.Endpoints.Closed.{IsTight, open_uds_listener-IsTight}
use wire_command_c.Uds.Table.{Client, Clients, clients_init, remove_client}
use wire_command_c.Uds.Process.{close_all_clients}
use wire_command_c.Uds.Main.{RunCalls, RunEnd, after_open, run_server}

-- No slot has a client.
abbrev pub IsEmpty : Clients → Type 0
IsEmpty = All (λ c. c.fd ≡ none)

clients_init-IsEmpty : (cs : Clients) → IsEmpty (clients_init cs)
unfolding clients_init
clients_init-IsEmpty [] = tt
clients_init-IsEmpty (c ∷ cs) = (refl, clients_init-IsEmpty cs)

remove_client-free : (c : Client) (queue : Fifo) → (remove_client c queue).0.fd ≡ none
unfolding remove_client
remove_client-free c queue = by_fd c.fd refl
  where
    by_fd : (o : Option ℕ) → c.fd ≡ o → (remove_client c queue).0.fd ≡ none
    by_fd none e = rw e refl
    by_fd (some n) e = rw e refl

close_all_clients-IsEmpty : (cs : Clients) (queue : Fifo) → IsEmpty (close_all_clients cs queue).0
unfolding close_all_clients
close_all_clients-IsEmpty [] queue = tt
close_all_clients-IsEmpty (c ∷ cs) queue =
    (remove_client-free c queue, close_all_clients-IsEmpty cs _)

-- The listener is closed if it was opened, and no client and no request are left.
pub record IsEmptied (r : RunEnd) : Type 0 where
  pub listener_closed : r.closed ≡ r.opened
  pub no_client : IsEmpty r.clients
  pub no_request : r.queue ≡ []

after_open-IsEmptied :
    (calls : RunCalls) (cs : Clients) (o : Opened) (x : Outcome ℕ)
    → IsEmpty cs
    → o.result ≡ x
    → IsTight o
    → IsEmptied (after_open calls cs o x)
unfolding after_open
after_open-IsEmptied calls cs o (error err) empty e tight =
    let c : o.closed ≡ o.opened = rw e at tight in
    record { listener_closed = c; no_client = empty; no_request = refl }
after_open-IsEmptied calls cs o (value listener) empty e tight = record {
  listener_closed = refl;
  no_client = close_all_clients-IsEmpty _ _;
  no_request = refl;
}

-- Whatever the system calls and the commands do, a run of the server ends with its listener closed if it
-- was opened, with no client in the table and with no request in the queue.
pub run_server-IsEmptied :
    (calls : RunCalls) (has_flag : Bool) (socket_path : Option Bytes) (cs : Clients)
    → IsEmptied (run_server calls has_flag socket_path cs)
unfolding run_server
run_server-IsEmptied calls false socket_path cs = record {
  listener_closed = refl;
  no_client = tt;
  no_request = refl;
}
run_server-IsEmptied calls true socket_path cs =
    let o = open_uds_listener calls.endpoint socket_path in
    after_open-IsEmptied calls (clients_init cs) o o.result (clients_init-IsEmpty cs) refl
      (open_uds_listener-IsTight calls.endpoint socket_path)

-- ===== src/Threaded/Slots.antt =====
-- What src/server_uds_threaded.c does with the slots of its workers, against src/server_tcp.c.
use wire_command_c.Common.{suc, ℕ, ◌≡◌, refl, Bool, [], ◌∷◌, Status, ok, fail}
use wire_command_c.Tcp.Table
use wire_command_c.Tcp.Table.{
  Worker, Workers, Reaping, lock_failed, locked_join, Starting, signals_failed, mask_failed,
  create_failed, created,
}
use wire_command_c.Threaded.Table.{
  start_worker, admit, join_all, workers_init, is_stopping, request_stop, mark_finished, reap_slot,
  start_slot, join_slot,
}

pub start_slot-same :
    (r : Starting) (client_fd : ℕ) (w : Worker)
    → start_slot r client_fd w ≡ Table.start_slot r client_fd w
unfolding start_slot Table.start_slot
start_slot-same (signals_failed e) client_fd w = refl
start_slot-same (mask_failed e) client_fd w = refl
start_slot-same (create_failed e) client_fd w = refl
start_slot-same (created thread) client_fd w = refl

-- What the steps of Tcp/System do with the shared state is also what this server does: the test of
-- `stopping`, its setting, and the four accesses to a slot are the same functions.
pub slots-same :
    (locked unlocked stopping worked : Bool) (r : Starting) (client_fd : ℕ) (w : Worker)
    → (is_stopping locked unlocked stopping ≡ Table.is_stopping locked unlocked stopping)
      × (request_stop locked stopping ≡ Table.request_stop locked stopping)
      × (mark_finished locked w ≡ Table.mark_finished locked w)
      × (reap_slot worked w ≡ Table.reap_slot worked w)
      × (start_slot r client_fd w ≡ Table.start_slot r client_fd w)
      × (join_slot worked w ≡ Table.join_slot worked w)
unfolding is_stopping Table.is_stopping request_stop Table.request_stop mark_finished
    Table.mark_finished reap_slot Table.reap_slot join_slot Table.join_slot
slots-same locked unlocked stopping worked r client_fd w =
    (refl, refl, refl, refl, start_slot-same r client_fd w, refl)

start_worker-same :
    (r : Starting) (ws : Workers) (client_fd : ℕ)
    → start_worker r ws client_fd ≡ Table.start_worker r ws client_fd
unfolding start_worker Table.start_worker
start_worker-same r [] client_fd = refl
start_worker-same r (w ∷ ws) client_fd =
    rw (start_worker-same r ws client_fd, start_slot-same r client_fd w) refl

-- Admitting a client to the table is the same in both servers.
pub admit-same :
    (ws : Workers) (client_fd : ℕ) (s : Status) (r : Starting)
    → admit ws client_fd s r ≡ Table.admit ws client_fd s r
unfolding admit Table.admit
admit-same ws client_fd (fail e) r = refl
admit-same ws client_fd ok r = rw (admit, start_worker-same r ws client_fd) refl

-- So is joining all workers.
pub join_all-same : (joins : ℕ → Bool) (ws : Workers) → join_all joins ws ≡ Table.join_all joins ws
unfolding join_all Table.join_all join_slot Table.join_slot
join_all-same joins [] = refl
join_all-same joins (w ∷ ws) = rw (join_all-same (λ i. joins (suc i)) ws) refl

pub workers_init-same : (ws : Workers) → workers_init ws ≡ Table.workers_init ws
unfolding workers_init Table.workers_init
workers_init-same [] = refl
workers_init-same (w ∷ ws) = rw (workers_init-same ws) refl

-- ===== src/Uds/Drain.antt =====
-- Where the processing of the queue in src/server_uds.c stops, and what it has taken from the queue.
use wire_command_c.Common.{
  ℕ, zero, suc, ◌≤◌, ◌<◌, ◌≡◌, ◌≢◌, refl, Option, none, some, [], ◌∷◌, arith, inl, inr, Bool-cases,
  ◌==◌, length, Status, ok, fail,
}
use wire_command_c.Buffer.{Buffer}
use wire_command_c.Queue.{QueuedRequest}
use wire_command_c.Queue.Spec
use wire_command_c.Queue.Spec.{Fifo}
use wire_command_c.Uds.Table.{Client, Clients, remove_client}
use wire_command_c.Uds.Respond.{Calls, encode_command_response}
use wire_command_c.Uds.Process.{find_slot, answered, on_first, process_loop, process_queue}

-- The first list is the second one without some of its requests.
pub data Within : Fifo → Fifo → Type 0 where
  done : Within [] []
  kept : {r : QueuedRequest} {xs ys : Fifo} → Within xs ys → Within (r ∷ xs) (r ∷ ys)
  gone : {r : QueuedRequest} {xs ys : Fifo} → Within xs ys → Within xs (r ∷ ys)

Within-refl : (xs : Fifo) → Within xs xs
Within-refl [] = done
Within-refl (x ∷ xs) = kept (Within-refl xs)

Within-trans : {xs ys zs : Fifo} → Within xs ys → Within ys zs → Within xs zs
Within-trans a done = a
Within-trans a (gone b) = gone (Within-trans a b)
Within-trans (kept a) (kept b) = kept (Within-trans a b)
Within-trans (gone a) (kept b) = gone (Within-trans a b)

pub length-Within : {xs ys : Fifo} → Within xs ys → length xs ≤ length ys
length-Within done = omega arith
length-Within (kept a) = omega (arith, length-Within a)
length-Within (gone a) = omega (arith, length-Within a)

discard_client-Within : (client_fd : ℕ) (xs : Fifo) → Within (Spec.discard_client client_fd xs) xs
discard_client-Within client_fd [] = done
discard_client-Within client_fd (x ∷ xs) = elim (Bool-cases (x.client_fd == client_fd)) [
  | inl e ↦ rw e (gone (discard_client-Within client_fd xs))
  | inr e ↦ rw e (kept (discard_client-Within client_fd xs))
]

pub remove_client-Within : (c : Client) (xs : Fifo) → Within (remove_client c xs).1 xs
unfolding remove_client
remove_client-Within c xs = at_fd c.fd
  where
    at_fd : (fd : Option ℕ) → Within (remove_client (record c { fd = fd }) xs).1 xs
    at_fd none = Within-refl xs
    at_fd (some n) = discard_client-Within n xs

answered-Within :
    (cs : Clients) (rest : Fifo) (i : ℕ) (c : Client) (r : Status × Buffer)
    → Within (answered cs rest i c r).1 rest
unfolding answered
answered-Within cs rest i c (ok, output) = Within-refl rest
answered-Within cs rest i c (fail e, output) =
    remove_client-Within (record c { output = output }) rest

-- The queue is empty, or the client of the request in front has output that must be written first.
abbrev pub Settled : Clients × Fifo → Type 0
Settled (cs, []) = Unit
Settled (cs, request ∷ rest) =
    (i : ℕ) × (c : Client) × (find_slot cs request.client_fd ≡ some (i, c)) × (c.output.length ≢ 0)

-- Settled, and nothing new or reordered in the queue.
abbrev pub Drained : Fifo → Clients × Fifo → Type 0
Drained queue (cs', queue') = Settled (cs', queue') × Within queue' queue

on_first-Drained :
    (calls : Calls) (loop : Clients → Fifo → Clients × Fifo) (cs : Clients)
    (request : QueuedRequest) (rest : Fifo) (slot : Option (ℕ × Client))
    → find_slot cs request.client_fd ≡ slot
    → ((cs' : Clients) (queue : Fifo) → Within queue rest → Drained queue (loop cs' queue))
    → Drained (request ∷ rest) (on_first calls loop cs request rest slot)
unfolding on_first
on_first-Drained calls loop cs request rest none e more =
    let t = more cs rest (Within-refl rest) in (t.0, gone t.1)
on_first-Drained calls loop cs request rest (some (i, c)) e more =
    elim (Bool-cases (c.output.length == 0)) [
      | inl z ↦
          let r = encode_command_response calls c.output request in
          let fewer = answered-Within cs rest i c r in
          let t = more (answered cs rest i c r).0 (answered cs rest i c r).1 fewer in
          rw z (t.0, gone (Within-trans t.1 fewer))
      | inr z ↦ rw z ((i, c, e, ground arith), Within-refl (request ∷ rest))
    ]

process_loop-Drained :
    (fuel : ℕ) (calls : ℕ → Calls) (cs : Clients) (queue : Fifo)
    → length queue < fuel
    → Drained queue (process_loop fuel calls cs queue)
unfolding process_loop
process_loop-Drained zero calls cs queue h = absurd (omega arith)
process_loop-Drained (suc fuel) calls cs [] h = (tt, done)
process_loop-Drained (suc fuel) calls cs (request ∷ rest) h =
    on_first-Drained (calls fuel) (process_loop fuel calls) cs request rest _ refl
      (λ cs' queue w. process_loop-Drained fuel calls cs' queue (omega (arith, length-Within w)))

-- The processing of the queue ends. It stops only when no request is left or the client of the request
-- in front still has output to be written, and it neither reorders nor repeats a request that is left.
pub process_queue-Drained :
    (calls : ℕ → Calls) (cs : Clients) (queue : Fifo) → Drained queue (process_queue calls cs queue)
unfolding process_queue
process_queue-Drained calls cs queue =
    process_loop-Drained (suc (length queue)) calls cs queue (omega arith)

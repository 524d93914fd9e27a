-- ===== src/Uds/Process.antt =====
-- The processing of the queue and the list of descriptors to poll: `wc_uds_process_queue`,
-- `wc_uds_build_poll_list` and `wc_uds_close_all_clients` of src/server_uds.c.
use wire_command_c.Common.{
  ℕ, zero, suc, Bool, true, false, Option, none, some, List, [], ◌∷◌, ◌==◌, if◌then◌else◌, ltb,
  length, Status, ok, fail,
}
use wire_command_c.Buffer.{Buffer}
use wire_command_c.Queue.{QueuedRequest}
use wire_command_c.Queue.Spec.{Fifo}
use wire_command_c.Uds.Table.{Client, Clients, find_client, has_free_client_slot, remove_client}
use wire_command_c.Uds.Slots.{get_slot}
use wire_command_c.Uds.Respond.{Calls, encode_command_response}

unfoldable pub set_slot : Clients → ℕ → Client → Clients
set_slot [] i c = []
set_slot (c' ∷ cs) zero c = c ∷ cs
set_slot (c' ∷ cs) (suc i) c = c' ∷ set_slot cs i c

-- The slot of a client, read through the pointer to it.
abbrev pub slot_at : Clients → Option ℕ → Option (ℕ × Client)
slot_at cs none = none
slot_at cs (some i) = elim (get_slot cs i) [ none ↦ none | some c ↦ some (i, c) ]

abbrev pub find_slot : Clients → ℕ → Option (ℕ × Client)
find_slot cs client_fd = slot_at cs (find_client cs client_fd)

-- The response to the request in front, which has left the queue: on a failure the client goes, and
-- its requests with it.
unfoldable pub answered : Clients → Fifo → ℕ → Client → Status × Buffer → Clients × Fifo
answered cs rest i c (ok, output) = (set_slot cs i (record c { output = output }), rest)
answered cs rest i c (fail e, output) =
    let (c', queue, closed) = remove_client (record c { output = output }) rest in
    (set_slot cs i c', queue)

-- One round on a queue with `request` in front, with the further rounds in `loop`.
unfoldable pub on_first :
    Calls
    → (Clients → Fifo → Clients × Fifo)
    → Clients
    → QueuedRequest
    → Fifo
    → Option (ℕ × Client)
    → Clients × Fifo
unfolding answered
on_first calls loop cs request rest none = loop cs rest
on_first calls loop cs request rest (some (i, c)) =
    if c.output.length == 0
    then (let (cs', queue) =
          answered cs rest i c (encode_command_response calls c.output request) in
        loop cs' queue)
    else (cs, request ∷ rest)

-- On fuel: each round that goes on has taken a request from the queue. `calls` says for each round what
-- its calls do.
unfoldable pub process_loop : ℕ → (ℕ → Calls) → Clients → Fifo → Clients × Fifo
unfolding on_first
process_loop zero calls cs queue = (cs, queue)
process_loop (suc fuel) calls cs [] = (cs, [])
process_loop (suc fuel) calls cs (request ∷ rest) =
    on_first (calls fuel) (process_loop fuel calls) cs request rest (find_slot cs request.client_fd)

unfoldable pub process_queue : (ℕ → Calls) → Clients → Fifo → Clients × Fifo
unfolding process_loop
process_queue calls cs queue = process_loop (suc (length queue)) calls cs queue

-- `struct pollfd`, with whether POLLIN and POLLOUT are asked for, and the index of the client's slot.
pub record PollEntry : Type 0 where
  pub fd : ℕ
  pub poll_in : Bool
  pub poll_out : Bool
  pub client_index : Option ℕ

unfoldable pub client_entries : ℕ → Clients → List PollEntry
client_entries index [] = []
client_entries index (c ∷ cs) =
    let rest = client_entries (suc index) cs in
    elim c.fd [
      | none ↦ rest
      | some n ↦
          record {
            fd = n;
            poll_in = true;
            poll_out = ltb 0 c.output.length;
            client_index = some index;
          }
          ∷ rest
    ]

unfoldable pub build_poll_list : ℕ → Clients → List PollEntry
build_poll_list listener_fd cs =
    record {
      fd = listener_fd;
      poll_in = has_free_client_slot cs;
      poll_out = false;
      client_index = none;
    }
    ∷ client_entries 0 cs

unfoldable pub close_all_clients : Clients → Fifo → Clients × Fifo
close_all_clients [] queue = ([], queue)
close_all_clients (c ∷ cs) queue =
    let (c', queue', closed) = remove_client c queue in
    let (cs', queue'') = close_all_clients cs queue' in (c' ∷ cs', queue'')

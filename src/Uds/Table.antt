-- ===== src/Uds/Table.antt =====
-- The client table of src/server_uds.c. A slot whose `fd` is -1 is free; that is `none` here.
use wire_command_c.Common.{
  ℕ, zero, suc, Bool, true, false, Option, none, some, List, [], ◌∷◌, ◌==◌, if◌then◌else◌, ◌||◌,
  emfile, Status, ok, fail, uint16_max, Bytes,
}
use wire_command_c.Buffer.{Buffer, init, destroy}
use wire_command_c.Queue.Spec
use wire_command_c.Queue.Spec.{Fifo}

abbrev pub max_clients : ℕ
max_clients = 64

abbrev pub max_queued_requests : ℕ
max_queued_requests = 256

abbrev pub read_size : ℕ
read_size = 4096

abbrev pub input_limit : ℕ
input_limit = uint16_max

abbrev pub output_limit : ℕ
output_limit = 65537

-- `struct wc_uds_client`, with the bytes that its socket has given, as far as they are stored, and those
-- that it has taken; the program does not keep these.
pub record Client : Type 0 where
  pub fd : Option ℕ
  pub input : Buffer
  pub output : Buffer
  pub received : Bytes
  pub sent_bytes : Bytes

abbrev pub Clients : Type 0
Clients = List Client

unfoldable pub clients_init : Clients → Clients
clients_init [] = []
clients_init (c ∷ cs) = record c { fd = none } ∷ clients_init cs

abbrev pub is_fd : Option ℕ → ℕ → Bool
is_fd none client_fd = false
is_fd (some n) client_fd = n == client_fd

abbrev pub is_free : Option ℕ → Bool
is_free none = true
is_free (some n) = false

abbrev pub next_slot : Option ℕ → Option ℕ
next_slot none = none
next_slot (some i) = some (suc i)

-- The index of the client's slot stands for the pointer to it.
unfoldable pub find_client : Clients → ℕ → Option ℕ
find_client [] client_fd = none
find_client (c ∷ cs) client_fd =
    let rest = next_slot (find_client cs client_fd) in
    if is_fd c.fd client_fd then some zero else rest

unfoldable pub has_free_client_slot : Clients → Bool
has_free_client_slot [] = false
has_free_client_slot (c ∷ cs) = is_free c.fd || has_free_client_slot cs

-- The slot with both buffers initialized and the descriptor set.
abbrev pub occupied : Client → ℕ → Status × Client
occupied c client_fd =
    let (s, input) = init c.input input_limit in
    elim s [
      | fail e ↦ (fail e, record c { input = input })
      | ok ↦
          (let (s', output) = init c.output output_limit in
            elim s' [
              | fail e ↦ (fail e, record c { input = destroy input; output = output })
              | ok ↦ (
                ok,
                record {
                  fd = some client_fd;
                  input = input;
                  output = output;
                  received = [];
                  sent_bytes = [];
                },
              )
            ])
    ]

abbrev pub with_head : Client → Status × Clients → Status × Clients
with_head c (s, cs) = (s, c ∷ cs)

unfoldable pub add_client : Clients → ℕ → Status × Clients
add_client [] client_fd = (fail emfile, [])
add_client (c ∷ cs) client_fd =
    let rest = with_head c (add_client cs client_fd) in
    let here : Status × Clients = let (s, c') = occupied c client_fd in (s, c' ∷ cs) in
    if is_free c.fd then here else rest

-- What `remove_client` leaves of the slot and of the queue, with the descriptor that it closes.
unfoldable pub remove_client : Client → Fifo → Client × Fifo × Option ℕ
remove_client c queue = elim c.fd [
  | none ↦ (c, queue, none)
  | some client_fd ↦ (
    record c { fd = none; input = destroy c.input; output = destroy c.output },
    Spec.discard_client client_fd queue,
    some client_fd,
  )
]

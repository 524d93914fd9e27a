-- ===== src/Uds/Watched.antt =====
-- What src/server_uds.c waits for in `poll()`: the list that `wc_uds_build_poll_list` makes, and that it
-- never waits for nothing.
use mathlib.Core.List.{Memᴰ}
use mathlib.Core.List.Memᴰ.{head, tail, cases_cons, not-nil}
use wire_command_c.Common.{
  ℕ, zero, suc, ◌+◌, ◌≡◌, ◌≤◌, refl, ◌∙◌, ap, arith, inl, inr, true, false, Option, none, some,
  List, [], ◌∷◌, ltb,
}
use wire_command_c.Queue.Spec.{Fifo}
use wire_command_c.Uds.Table.{Client, Clients, has_free_client_slot}
use wire_command_c.Uds.Slots.{get_slot}
use wire_command_c.Uds.Respond.{Calls}
use wire_command_c.Uds.Process.{PollEntry, client_entries, build_poll_list, process_queue}
use wire_command_c.Uds.Connected.{find_slot-owner}
use wire_command_c.Uds.Drain.{Settled, process_queue-Drained}

-- The entry of a client: it is read from, and written to exactly if there is output.
abbrev pub entry : ℕ → ℕ → Client → PollEntry
entry i n c = record {
  fd = n;
  poll_in = true;
  poll_out = ltb 0 c.output.length;
  client_index = some i;
}

-- Each entry is of a further slot than the one in front of it.
abbrev pub Rising : ℕ → List PollEntry → Type 0
Rising index [] = Unit
Rising index (e ∷ es) = (i : ℕ) × (e.client_index ≡ some i) × (index ≤ i) × Rising (suc i) es

-- The first entry is the listener, which is waited for exactly if a slot is free. The others are those of
-- the clients of the table, each with the index of its slot.
pub record Polled (listener_fd : ℕ) (cs : Clients) (entries : List PollEntry) : Type 0 where
  pub of_clients : List PollEntry
  pub listener :
      entries
      ≡ record {
        fd = listener_fd;
        poll_in = has_free_client_slot cs;
        poll_out = false;
        client_index = none;
      }
        ∷ of_clients
  pub each :
      (i n : ℕ) (c : Client)
      → get_slot cs i ≡ some c
      → c.fd ≡ some n
      → Memᴰ (entry i n c) of_clients
  pub once : Rising 0 of_clients
  pub only :
      (e : PollEntry)
      → Memᴰ e of_clients
      → (i : ℕ) × (n : ℕ) × (c : Client) × (get_slot cs i ≡ some c)
        × (c.fd ≡ some n)
        × (e ≡ entry i n c)

-- What a slot puts in front of the entries of the further ones.
abbrev in_front : Option ℕ → ℕ → Client → List PollEntry → List PollEntry
in_front none index c rest = rest
in_front (some n) index c rest = entry index n c ∷ rest

client_entries-cons :
    (index : ℕ) (c : Client) (cs : Clients)
    → client_entries index (c ∷ cs) ≡ in_front c.fd index c (client_entries (suc index) cs)
unfolding client_entries
client_entries-cons index c cs = at c.fd
  where
    at :
        (o : Option ℕ)
        → (let rest = client_entries (suc index) cs in
            elim o as (λ y. List PollEntry) [ none ↦ rest | some n ↦ entry index n c ∷ rest ])
          ≡ in_front o index c (client_entries (suc index) cs)
    at none = refl
    at (some n) = refl

Rising-later : (index : ℕ) (es : List PollEntry) → Rising (suc index) es → Rising index es
Rising-later index [] h = tt
Rising-later index (e ∷ es) (i, same, le, rest) = (i, same, omega (arith, le), rest)

client_entries-Rising : (index : ℕ) (cs : Clients) → Rising index (client_entries index cs)
unfolding client_entries
client_entries-Rising index [] = tt
client_entries-Rising index (c ∷ cs) =
    rw (client_entries-cons index c cs) (at c.fd (client_entries-Rising (suc index) cs))
  where
    at :
        (o : Option ℕ)
        → Rising (suc index) (client_entries (suc index) cs)
        → Rising index (in_front o index c (client_entries (suc index) cs))
    at none h = Rising-later index (client_entries (suc index) cs) h
    at (some n) h = (index, refl, omega arith, h)

client_entries-each :
    (index : ℕ) (cs : Clients) (i k n : ℕ) (c : Client)
    → get_slot cs i ≡ some c
    → c.fd ≡ some n
    → k ≡ i + index
    → Memᴰ (entry k n c) (client_entries index cs)
unfolding get_slot
client_entries-each index [] i k n c e f g = absurd (cc)
client_entries-each index (c₀ ∷ cs) zero k n c e f g =
    rw (client_entries-cons index c₀ cs) (at c₀.fd (cc))
  where
    at :
        (o : Option ℕ)
        → o ≡ some n
        → Memᴰ (entry k n c) (in_front o index c₀ (client_entries (suc index) cs))
    at none h = absurd (cc)
    at (some m) h =
        let same : c ≡ c₀ = cc in
        let own : n ≡ m = cc in
        let here : k ≡ index = omega (arith, g) in head (rw (same, own, here) refl)
client_entries-each index (c₀ ∷ cs) (suc i) k n c e f g =
    rw (client_entries-cons index c₀ cs)
      (at c₀.fd (client_entries-each (suc index) cs i k n c e f (omega (arith, g))))
  where
    at :
        (o : Option ℕ)
        → Memᴰ (entry k n c) (client_entries (suc index) cs)
        → Memᴰ (entry k n c) (in_front o index c₀ (client_entries (suc index) cs))
    at none m = m
    at (some j) m = tail m

-- The client of an entry.
abbrev OfSlot : ℕ → Clients → PollEntry → Type 0
OfSlot index cs e =
    (i : ℕ) × (k : ℕ) × (n : ℕ) × (c : Client) × (get_slot cs i ≡ some c)
    × (c.fd ≡ some n)
    × (k ≡ i + index)
    × (e ≡ entry k n c)

client_entries-only :
    (index : ℕ) (cs : Clients) (e : PollEntry)
    → Memᴰ e (client_entries index cs)
    → OfSlot index cs e
unfolding get_slot client_entries
client_entries-only index [] e m = absurd (not-nil m)
client_entries-only index (c₀ ∷ cs) e m =
    at c₀.fd refl (rw (client_entries-cons index c₀ cs) at m) (client_entries-only (suc index) cs e)
  where
    further : OfSlot (suc index) cs e → OfSlot index (c₀ ∷ cs) e
    further (i, k, n, c, here, own, shift, same) =
        (suc i, k, n, c, here, own, omega (arith, shift), same)

    at :
        (o : Option ℕ)
        → c₀.fd ≡ o
        → Memᴰ e (in_front o index c₀ (client_entries (suc index) cs))
        → (Memᴰ e (client_entries (suc index) cs) → OfSlot (suc index) cs e)
        → OfSlot index (c₀ ∷ cs) e
    at none f m' rest = further (rest m')
    at (some n) f m' rest = elim (cases_cons m') [
      | inl same ↦ (zero, index, n, c₀, refl, f, omega arith, same)
      | inr there ↦ further (rest there)
    ]

only_slot :
    (cs : Clients) (e : PollEntry)
    → OfSlot 0 cs e
    → (i : ℕ) × (n : ℕ) × (c : Client) × (get_slot cs i ≡ some c)
      × (c.fd ≡ some n)
      × (e ≡ entry i n c)
only_slot cs e (i, k, n, c, here, own, shift, same) =
    let equal : k ≡ i = omega (arith, shift) in
    (i, n, c, here, own, same ∙ ap (λ (j : ℕ). entry j n c) equal)

-- The list that is polled has the listener, waited for exactly if a slot is free, and one entry for each
-- client of the table and no other: it is read from, and written to exactly if there is output, and it has
-- the index of its slot.
pub build_poll_list-Polled :
    (listener_fd : ℕ) (cs : Clients) → Polled listener_fd cs (build_poll_list listener_fd cs)
unfolding build_poll_list
build_poll_list-Polled listener_fd cs = record {
  of_clients = client_entries 0 cs;
  once = client_entries-Rising 0 cs;
  listener = refl;
  each = λ i n c e f. client_entries-each 0 cs i i n c e f (omega arith);
  only = λ e m. only_slot cs e (client_entries-only 0 cs e m);
}

-- No request is left, or the client of the one in front is polled for writing.
abbrev pub Awaited : ℕ → Clients × Fifo → Type 0
Awaited listener_fd (cs, []) = Unit
Awaited listener_fd (cs, request ∷ rest) =
    (i : ℕ) × (c : Client) × (get_slot cs i ≡ some c)
    × Memᴰ
        (record { fd = request.client_fd; poll_in = true; poll_out = true; client_index = some i })
        (build_poll_list listener_fd cs)

Settled-Awaited : (listener_fd : ℕ) (x : Clients × Fifo) → Settled x → Awaited listener_fd x
unfolding build_poll_list
Settled-Awaited listener_fd (cs, []) s = tt
Settled-Awaited listener_fd (cs, request ∷ rest) (i, c, e, busy) =
    let (here, own) = find_slot-owner cs request.client_fd i c e in
    let out : ltb 0 c.output.length ≡ true = ground (arith, busy) in
    let listed = client_entries-each 0 cs i i request.client_fd c here own (omega arith) in
    (i, c, here, tail (rw out at listed))

-- When the server comes to `poll()`, no request waits, or the list that it polls has the client of the
-- request in front, with its slot, and asks when that client can be written to: the server never sleeps on
-- work that no event would wake it for.
pub process_queue-Awaited :
    (listener_fd : ℕ) (calls : ℕ → Calls) (cs : Clients) (queue : Fifo)
    → Awaited listener_fd (process_queue calls cs queue)
process_queue-Awaited listener_fd calls cs queue =
    Settled-Awaited listener_fd (process_queue calls cs queue)
      (process_queue-Drained calls cs queue).0

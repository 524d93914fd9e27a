-- ===== src/Uds/Slots.antt =====
-- What the client table of src/server_uds.c keeps when a client is added.
use wire_command_c.Common.{
  ℕ, zero, suc, ◌≡◌, ◌≢◌, refl, ap, true, false, Option, none, some, [], ◌∷◌, arith, ◌⊎◌, inl, inr,
  ◌==◌, length, Status, ok, fail, emfile,
}
use wire_command_c.Buffer.{init}
use wire_command_c.Uds.Table.{
  Client, Clients, input_limit, output_limit, find_client, has_free_client_slot, add_client,
  next_slot, with_head,
}

-- The slot at an index.
unfoldable pub get_slot : Clients → ℕ → Option Client
get_slot [] i = none
get_slot (c ∷ cs) zero = some c
get_slot (c ∷ cs) (suc i) = get_slot cs i

-- An empty slot has been given to the client, with two empty buffers under their limits.
pub record IsFresh (client_fd : ℕ) (c : Client) : Type 0 where
  pub owner : c.fd ≡ some client_fd
  pub empty_input :
      c.input ≡ (record { block = none; length = 0; capacity = 0; max_size = input_limit })
  pub empty_output :
      c.output ≡ (record { block = none; length = 0; capacity = 0; max_size = output_limit })

-- The two ends of adding a client to a table.
abbrev pub Added : ℕ → Clients → Status × Clients → Type 0
Added client_fd cs (s, cs') =
    ((s ≡ fail emfile) × (cs' ≡ cs) × (has_free_client_slot cs ≡ false))
    ⊎ ((s ≡ ok)
        × (length cs' ≡ length cs)
        × ((i : ℕ) × (c : Client) × (find_client cs' client_fd ≡ some i)
            × (get_slot cs' i ≡ some c)
            × IsFresh client_fd c)
        × ((n : ℕ) → n ≢ client_fd → find_client cs' n ≡ find_client cs n))

next_slot-none : (o : Option ℕ) → next_slot o ≡ none → o ≡ none
next_slot-none none e = refl
next_slot-none (some i) e = absurd (cc)

with_head-Added :
    (m : ℕ) (c : Client) (cs : Clients) (client_fd : ℕ) (r : Status × Clients)
    → m == client_fd ≡ false
    → Added client_fd cs r
    → let c' : Client = record c { fd = some m } in Added client_fd (c' ∷ cs) (with_head c' r)
unfolding find_client has_free_client_slot get_slot
with_head-Added m c₀ cs client_fd (s, cs') ne (inl (es, ec, full)) = inl (es, rw ec, full)
with_head-Added m c₀ cs client_fd (s, cs') ne (inr (es, el, (i, c, found, here, fresh), others)) =
    inr (es, ap suc el, (suc i, c, rw (ne, found), here, fresh), λ n d. rw (others n d))

-- Adding a client that has no slot yet succeeds exactly if a slot is free. Then a lookup finds its slot,
-- with two empty buffers, and every other client where it was. Otherwise EMFILE leaves the table as it was.
pub add_client-Added :
    (cs : Clients) (client_fd : ℕ)
    → find_client cs client_fd ≡ none
    → Added client_fd cs (add_client cs client_fd)
unfolding add_client find_client has_free_client_slot init get_slot
add_client-Added [] client_fd absent = inl (refl, refl, refl)
add_client-Added (c ∷ cs) client_fd absent = at_head c.fd absent (add_client-Added cs client_fd)
  where
    at_head :
        (fd : Option ℕ)
        → find_client (record c { fd = fd } ∷ cs) client_fd ≡ none
        → (find_client cs client_fd ≡ none → Added client_fd cs (add_client cs client_fd))
        → Added client_fd
            (record c { fd = fd } ∷ cs)
            (add_client (record c { fd = fd } ∷ cs) client_fd)
    at_head none absent' rest = inr (
      refl,
      refl,
      (
        0,
        _,
        (let same : client_fd == client_fd ≡ true = ground arith in rw same),
        refl,
        record { owner = refl; empty_input = refl; empty_output = refl },
      ),
      λ n ne. (let differ : client_fd == n ≡ false = ground arith in rw differ),
    )
    at_head (some m) absent' rest =
        with_head-Added m c cs client_fd (add_client cs client_fd) (ground arith)
          (rest (next_slot-none (find_client cs client_fd) (ground arith)))

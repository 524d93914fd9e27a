-- ===== src/Uds/Consistent.antt =====
-- The client table and the queue of src/server_uds.c stay consistent through its whole run.
use wire_command_c.Common.{
  ℕ, zero, suc, ap, ◌≡◌, refl, sym, ◌∙◌, ◌==◌, arith, inl, inr, Bool, true, false, Bool-cases,
  Option, none, some, List, [], ◌∷◌, if◌then◌else◌, All, Status, ok, fail,
}
use wire_command_c.Queue.Spec.{Fifo}
use wire_command_c.Uds.Table.{Client, Clients, has_free_client_slot}
use wire_command_c.Uds.Slots.{get_slot}
use wire_command_c.Uds.Respond.{Calls}
use wire_command_c.Uds.Response.{IsSoundCalls}
use wire_command_c.Uds.Process.{set_slot, process_queue}
use wire_command_c.Uds.Connected.{get_slot-connected}
use wire_command_c.Uds.Reading.{IsSound}
use wire_command_c.Uds.Connected.{connected}
use wire_command_c.Uds.Ready.{get_slot-AllReady, add_client-IsAdded}
use wire_command_c.Uds.Ordered.{of_client}
use wire_command_c.Uds.Elsewhere.{get_slot-AllOrdered, add_client-AllOrdered}
use wire_command_c.Uds.Served.{AllFrom, serve-Kept}
use wire_command_c.Uds.Invariant.{
  IsConsistent, AllFrom-map, set_slot-IsConsistent, process_queue-IsConsistent, IsConnected,
}
use wire_command_c.Uds.Loop.{
  AcceptResult, connected as accepted, accept_interrupted, accept_failed, admit, accept_clients,
  Events, serve, serve_all, PollResult, poll_interrupted, poll_failed, polled, run_loop,
}

-- `accept()` gives a descriptor that no client has.
abbrev pub AllNew : List AcceptResult → Clients → Type 0
AllNew [] cs = Unit
AllNew (accepted n s ∷ rs) cs = (connected cs n ≡ false) × AllNew rs (admit cs n s)
AllNew (accept_interrupted ∷ rs) cs = AllNew rs cs
AllNew (accept_failed e ∷ rs) cs = Unit

-- A client that is not connected has no request that waits.
of_client-absent :
    (cs : Clients) (n : ℕ) (q : Fifo)
    → connected cs n ≡ false
    → AllFrom (IsConnected cs) q
    → of_client n q ≡ []
of_client-absent cs n [] new all = refl
of_client-absent cs n (r ∷ q) new all = elim (Bool-cases (r.client_fd == n)) [
  | inl e ↦
      let own : r.client_fd ≡ n = ground (arith, e) in
      let there : connected cs n ≡ true = rw own at all.0 in
      let bad : true ≡ false = sym there ∙ new in absurd (cc)
  | inr e ↦ rw e (of_client-absent cs n q new all.1)
]

admit-IsConsistent :
    (C : Calls → Type 0) (cs : Clients) (n : ℕ) (s : Status) (q : Fifo)
    → connected cs n ≡ false
    → IsConsistent C cs q
    → IsConsistent C (admit cs n s) q
unfolding admit
admit-IsConsistent C cs n (fail e) q new inv = inv
admit-IsConsistent C cs n ok q new inv =
    let added = add_client-IsAdded cs n new inv.ready inv.distinct in
    record {
      ready = added.ready;
      distinct = added.distinct;
      waiting = AllFrom-map _ _ q added.stays inv.waiting;
      ordered =
          add_client-AllOrdered C cs n q (of_client-absent cs n q new inv.waiting) inv.ordered;
    }

accept_clients-IsConsistent :
    (C : Calls → Type 0) (rs : List AcceptResult) (cs : Clients) (q : Fifo)
    → AllNew rs cs
    → IsConsistent C cs q
    → IsConsistent C (accept_clients rs cs) q
unfolding accept_clients
accept_clients-IsConsistent C [] cs q new inv = inv
accept_clients-IsConsistent C (accepted n s ∷ rs) cs q new inv =
    let rest =
      accept_clients-IsConsistent C rs (admit cs n s) q new.1
        (admit-IsConsistent C cs n s q new.0 inv) in
    elim (Bool-cases (has_free_client_slot cs)) [
      | inl e ↦ rw (e, accept_clients) rest
      | inr e ↦ rw (e, accept_clients) inv
    ]
accept_clients-IsConsistent C (accept_interrupted ∷ rs) cs q new inv =
    let rest = accept_clients-IsConsistent C rs cs q new inv in
    elim (Bool-cases (has_free_client_slot cs)) [
      | inl e ↦ rw (e, accept_clients) rest
      | inr e ↦ rw (e, accept_clients) inv
    ]
accept_clients-IsConsistent C (accept_failed e ∷ rs) cs q new inv = inv

set_slot-get_slot :
    (cs : Clients) (i : ℕ) (c : Client) → get_slot cs i ≡ some c → set_slot cs i c ≡ cs
unfolding get_slot set_slot
set_slot-get_slot [] i c e = refl
set_slot-get_slot (c₀ ∷ cs) zero c e = cc
set_slot-get_slot (c₀ ∷ cs) (suc i) c e = ap (◌∷◌ c₀) (set_slot-get_slot cs i c e)

serve-free : (events : Events) (c : Client) (q : Fifo) → c.fd ≡ none → serve events c q ≡ (c, q)
unfolding serve
serve-free events c q e = at c.fd e
  where
    at :
        (o : Option ℕ)
        → o ≡ none
        → (let c' : Client = record c { fd = o } in serve events c' q ≡ (c', q))
    at none h = refl
    at (some n) h = absurd (cc)

-- A slot without a client is passed over.
serve-IsConsistent :
    (C : Calls → Type 0) (events : Events) (cs : Clients) (q : Fifo) (c : Client)
    → All IsSound events.reads
    → get_slot cs events.index ≡ some c
    → IsConsistent C cs q
    → (let x = serve events c q in IsConsistent C (set_slot cs events.index x.0) x.1)
serve-IsConsistent C events cs q c law e inv = at c.fd refl
  where
    at :
        (o : Option ℕ)
        → c.fd ≡ o
        → (let x = serve events c q in IsConsistent C (set_slot cs events.index x.0) x.1)
    at none f = rw (serve-free events c q f, set_slot-get_slot cs events.index c e) inv
    at (some n) f =
        set_slot-IsConsistent C cs events.index n q _ inv.ready inv.distinct inv.ordered e f (
          serve-Kept C (IsConnected cs) n (get_slot-connected cs events.index n e f) events c q law
            f (get_slot-AllReady cs events.index n e f inv.ready)
            (get_slot-AllOrdered C cs events.index n q e f inv.ordered) inv.waiting)

serve_all-IsConsistent :
    (C : Calls → Type 0) (events : List Events) (cs : Clients) (q : Fifo)
    → All (λ e. All IsSound e.reads) events
    → IsConsistent C cs q
    → (let x = serve_all events cs q in IsConsistent C x.0 x.1)
unfolding serve_all
serve_all-IsConsistent C [] cs q law inv = inv
serve_all-IsConsistent C (events ∷ rest) cs q law inv =
    at_slot (get_slot cs events.index) refl (λ cs' q'. serve_all-IsConsistent C rest cs' q' law.1)
  where
    at_slot :
        (o : Option Client)
        → get_slot cs events.index ≡ o
        → ((cs' : Clients) (q' : Fifo)
            → IsConsistent C cs' q'
            → (let x = serve_all rest cs' q' in IsConsistent C x.0 x.1))
        → (let x = elim o as (λ y. Clients × Fifo) [
          | none ↦ serve_all rest cs q
          | some c ↦
              (let (c', queue') = serve events c q in
                serve_all rest (set_slot cs events.index c') queue')
        ] in
            IsConsistent C x.0 x.1)
    at_slot none e more = more cs q inv
    at_slot (some c) e more = more _ _ (serve-IsConsistent C events cs q c law.0 e inv)

-- What the calls of a round do is what C and the kernel say: `realloc()` keeps the bytes, and `accept()`
-- gives a descriptor that no client has at that time.
abbrev pub IsSoundRun : List ((ℕ → Calls) × PollResult) → Clients → Fifo → Type 0
IsSoundRun [] cs q = Unit
IsSoundRun ((calls, poll_interrupted) ∷ rs) cs q =
    ((k : ℕ) → IsSoundCalls (calls k))
    × IsSoundRun rs (process_queue calls cs q).0 (process_queue calls cs q).1
IsSoundRun ((calls, poll_failed e) ∷ rs) cs q = (k : ℕ) → IsSoundCalls (calls k)
IsSoundRun ((calls, polled broken waiting events accepts) ∷ rs) cs q =
    let (cs₁, q₁) = process_queue calls cs q in
    let (cs₂, q₂) = serve_all events cs₁ q₁ in
    ((k : ℕ) → IsSoundCalls (calls k))
    × All (λ e. All IsSound e.reads) events
    × AllNew accepts cs₂
    × IsSoundRun rs (if waiting then accept_clients accepts cs₂ else cs₂) q₂

-- Through the whole run of the event loop, each client has its own descriptor, well-formed buffers under
-- their limits and no complete request left in its input; each request that waits is of a client that is
-- connected; and the stream that was received from a client is its requests answered, then its requests
-- that wait, in order, then what is in its input, and it has been sent, or has waiting in its output,
-- exactly the frames of those answers in that order. Each answer is the text of the request's own command
-- under calls of a round of the run: they have any property that the calls of all rounds have.
pub run_loop-IsConsistent :
    (C : Calls → Type 0) (rounds : List ((ℕ → Calls) × PollResult)) (cs : Clients) (q : Fifo)
    → All (λ round. (k : ℕ) → C (round.0 k)) rounds
    → IsSoundRun rounds cs q
    → IsConsistent C cs q
    → (let x = run_loop rounds cs q in IsConsistent C x.1 x.2)
unfolding run_loop
run_loop-IsConsistent C [] cs q used law inv = inv
run_loop-IsConsistent C ((calls, poll_interrupted) ∷ rs) cs q used law inv =
    run_loop-IsConsistent C rs _ _ used.1 law.1
      (process_queue-IsConsistent C calls cs q used.0 law.0 inv)
run_loop-IsConsistent C ((calls, poll_failed e) ∷ rs) cs q used law inv =
    process_queue-IsConsistent C calls cs q used.0 law inv
run_loop-IsConsistent C ((calls, polled broken waiting events accepts) ∷ rs) cs q used law inv =
    let processed = process_queue-IsConsistent C calls cs q used.0 law.0 inv in
    let served = serve_all-IsConsistent C events _ _ law.1 processed in
    let after = run_loop-IsConsistent C rs _ _ used.1 law.3 (taken waiting served law.2) in
    elim (Bool-cases broken) [ inl e ↦ rw (e, run_loop) processed | inr e ↦ rw (e, run_loop) after ]
  where
    taken :
        {cs' : Clients} {q' : Fifo} (b : Bool)
        → IsConsistent C cs' q'
        → AllNew accepts cs'
        → IsConsistent C (if b then accept_clients accepts cs' else cs') q'
    taken {cs'} {q'} true h new = accept_clients-IsConsistent C accepts cs' q' new h
    taken false h new = h

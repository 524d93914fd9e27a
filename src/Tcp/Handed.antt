-- ===== src/Tcp/Handed.antt =====
-- What src/server_tcp.c does with the descriptor of a client that it has accepted.
use wire_command_c.Common.{
  ℕ, ◌≡◌, refl, ap, ◌⊎◌, inl, inr, true, false, Bool-cases, some, List, [], ◌∷◌, ◌++◌, All, Status,
  ok, fail,
}
use wire_command_c.Tcp.Table.{
  Worker, Workers, Starting, signals_failed, mask_failed, create_failed, created, start_slot,
  with_head, start_worker, admit,
}

-- The worker that starts is given the first free slot of the table, and no other slot changes.
pub record Placed (client_fd : ℕ) (ws ws' : Workers) : Type 0 where
  pub taken : Workers
  pub slot : Worker
  pub rest : Workers
  pub thread : ℕ
  pub in_use : All (λ w. w.in_use ≡ true) taken
  pub free : slot.in_use ≡ false
  pub before : ws ≡ taken ++ (slot ∷ rest)
  pub behind :
      ws'
      ≡ taken
        ++ (record { thread = thread; client_fd = some client_fd; in_use = true; finished = false }
            ∷ rest)

-- A slot is as it was, or it was free and is free.
abbrev pub IsKept : Worker → Worker → Type 0
IsKept w w' = (w' ≡ w) ⊎ ((w.in_use ≡ false) × (w'.in_use ≡ false))

abbrev pub AllKept : Workers → Workers → Type 0
AllKept [] [] = Unit
AllKept [] (w' ∷ ws') = ⊥
AllKept (w ∷ ws) [] = ⊥
AllKept (w ∷ ws) (w' ∷ ws') = IsKept w w' × AllKept ws ws'

AllKept-refl : (ws : Workers) → AllKept ws ws
AllKept-refl [] = tt
AllKept-refl (w ∷ ws) = (inl refl, AllKept-refl ws)

-- The descriptor is with the worker of one slot, or it is closed.
abbrev pub IsHanded : ℕ → Workers → Workers × List ℕ → Type 0
IsHanded client_fd ws (ws', closed) =
    ((closed ≡ []) × Placed client_fd ws ws') ⊎ ((closed ≡ client_fd ∷ []) × AllKept ws ws')

abbrev IsStarted : ℕ → Workers → Status × Workers → Type 0
IsStarted client_fd ws (ok, ws') = Placed client_fd ws ws'
IsStarted client_fd ws (fail e, ws') = AllKept ws ws'

slot-IsStarted :
    (r : Starting) (client_fd : ℕ) (w : Worker) (ws : Workers)
    → w.in_use ≡ false
    → IsStarted client_fd (w ∷ ws) (let (s, w') = start_slot r client_fd w in (s, w' ∷ ws))
unfolding start_slot
slot-IsStarted (signals_failed e) client_fd w ws free = (inr (free, refl), AllKept-refl ws)
slot-IsStarted (mask_failed e) client_fd w ws free = (inr (free, refl), AllKept-refl ws)
slot-IsStarted (create_failed e) client_fd w ws free = (inr (free, refl), AllKept-refl ws)
slot-IsStarted (created thread) client_fd w ws free = record {
  taken = [];
  slot = w;
  rest = ws;
  thread = thread;
  in_use = tt;
  free = free;
  before = refl;
  behind = refl;
}

head-IsStarted :
    (client_fd : ℕ) (w : Worker) (ws : Workers) (x : Status × Workers)
    → w.in_use ≡ true
    → IsStarted client_fd ws x
    → IsStarted client_fd (w ∷ ws) (with_head w x)
head-IsStarted client_fd w ws (ok, ws') used p = record {
  taken = w ∷ p.taken;
  slot = p.slot;
  rest = p.rest;
  thread = p.thread;
  in_use = (used, p.in_use);
  free = p.free;
  before = ap (◌∷◌ w) p.before;
  behind = ap (◌∷◌ w) p.behind;
}
head-IsStarted client_fd w ws (fail e, ws') used kept = (inl refl, kept)

start_worker-IsStarted :
    (r : Starting) (ws : Workers) (client_fd : ℕ)
    → IsStarted client_fd ws (start_worker r ws client_fd)
unfolding start_worker
start_worker-IsStarted r [] client_fd = tt
start_worker-IsStarted r (w ∷ ws) client_fd = elim (Bool-cases w.in_use) [
  | inl used ↦
      simp (used) (head-IsStarted client_fd w ws _ used (start_worker-IsStarted r ws client_fd))
  | inr free ↦ simp (free) (slot-IsStarted r client_fd w ws free)
]

-- A client that is accepted is given the first free slot, with its descriptor, and no other slot changes;
-- or its descriptor is closed, and then no slot that is in use changes and no free one is taken.
pub admit-IsHanded :
    (ws : Workers) (client_fd : ℕ) (s : Status) (r : Starting)
    → IsHanded client_fd ws (admit ws client_fd s r)
unfolding admit
admit-IsHanded ws client_fd (fail e) r = inr (refl, AllKept-refl ws)
admit-IsHanded ws client_fd ok r =
    by_start (start_worker r ws client_fd) (start_worker-IsStarted r ws client_fd)
  where
    by_start :
        (x : Status × Workers)
        → IsStarted client_fd ws x
        → IsHanded client_fd ws (elim x.0 [ fail e ↦ (x.1, client_fd ∷ []) | ok ↦ (x.1, []) ])
    by_start (ok, ws') p = inl (refl, p)
    by_start (fail e, ws') p = inr (refl, p)

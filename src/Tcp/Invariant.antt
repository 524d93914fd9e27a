-- ===== src/Tcp/Invariant.antt =====
-- Which thread owns which slot of src/server_tcp.c, kept by every step.
use wire_command_c.Common.{ℕ, suc, ◌≤◌, ◌<◌, ◌≡◌, ◌≢◌, refl, ap, Bool, true, false, arith, update}
use wire_command_c.Tcp.Serve.{Session, max_clients}
use wire_command_c.Tcp.Table.{Worker, mark_finished}
use wire_command_c.Tcp.System.{
  State, unstarted, serving, leaving, ended, joined, Phase, accepting, joining, stopped, System,
  set_state, set_worker, start_system,
}

-- A thread that was created and not joined.
abbrev pub is_live : State → Bool
is_live unstarted = false
is_live (serving s) = true
is_live leaving = true
is_live ended = true
is_live joined = false

-- How many slots `wc_tcp_join_all` has passed.
abbrev pub passed : Phase → ℕ
passed accepting = 0
passed (joining i) = i
passed stopped = max_clients

pub record Inv (s : System) : Type 0 where
  pub owned :
      (t : ℕ)
      → is_live (s.threads t).state ≡ true
      → ((s.threads t).slot < max_clients)
        × ((s.workers (s.threads t).slot).in_use ≡ true)
        × ((s.workers (s.threads t).slot).thread ≡ t)
  pub held :
      (i : ℕ)
      → (s.workers i).in_use ≡ true
      → (is_live (s.threads (s.workers i).thread).state ≡ true)
        × ((s.threads (s.workers i).thread).slot ≡ i)
  pub over :
      (i : ℕ)
      → (s.workers i).in_use ≡ true
      → (s.workers i).finished ≡ true
      → (s.threads (s.workers i).thread).state ≡ ended
  pub unborn : (t : ℕ) → s.started ≤ t → (s.threads t).state ≡ unstarted
  pub within : passed s.phase ≤ max_clients
  pub freed : s.all_joined ≡ true → (i : ℕ) → i < passed s.phase → (s.workers i).in_use ≡ false

pub start-Inv : Inv start_system
start-Inv = record {
  owned = λ t e. absurd (cc);
  held = λ i e. absurd (cc);
  over = λ i e f. absurd (cc);
  unborn = λ t h. refl;
  within = omega arith;
  freed = λ e i h. refl;
}

-- A live thread that has not ended goes on.
pub set_state-Inv :
    {s : System} (t : ℕ) (state : State)
    → is_live (s.threads t).state ≡ true
    → (s.threads t).state ≢ ended
    → is_live state ≡ true
    → Inv s
    → Inv (record s { threads = set_state s t state })
set_state-Inv {s} t state old ne new inv = record {
  owned = λ u e. grind (arith, inv.owned u, inv.owned t);
  held = λ i e. grind (arith, inv.held i);
  over = λ i e f. grind (arith, inv.over i);
  unborn = λ u h. grind (arith, inv.unborn u);
  within = inv.within;
  freed = inv.freed;
}

-- A thread behind its loop marks its slot and returns.
pub finish-Inv :
    {s : System} (t : ℕ) (locked : Bool)
    → (s.threads t).state ≡ leaving
    → Inv s
    → Inv (record s {
      workers =
          set_worker s (s.threads t).slot (mark_finished locked (s.workers (s.threads t).slot));
      threads = set_state s t ended;
    })
unfolding mark_finished
finish-Inv {s} t locked e inv =
    let own = inv.owned t (ap is_live e) in
    record {
      owned = λ u h. grind (arith, inv.owned u, own);
      held = λ i h. grind (arith, inv.held i, own);
      over = λ i h f. grind (arith, inv.over i, inv.held i, own);
      unborn = λ u h. grind (arith, inv.unborn u);
      within = inv.within;
      freed = λ a i h. grind (arith, inv.freed a i h);
    }

-- The main thread joins the thread of a slot and gives the slot back.
pub release-Inv :
    {s : System} (i : ℕ) (w : Worker)
    → (s.workers i).in_use ≡ true
    → w.in_use ≡ false
    → Inv s
    → Inv
        (record s { workers = set_worker s i w; threads = set_state s (s.workers i).thread joined })
release-Inv {s} i w used free inv =
    let own = inv.held i used in
    record {
      owned = λ u h. grind (arith, inv.owned u, own);
      held = λ j h. grind (arith, inv.held j, own);
      over = λ j h f. grind (arith, inv.over j, inv.held j, own);
      unborn = λ u h. grind (arith, inv.unborn u, own);
      within = inv.within;
      freed = λ a j h. grind (arith, inv.freed a j h);
    }

-- The main thread gives a free slot to a new thread.
pub start-slot-Inv :
    {s : System} (i : ℕ) (w : Worker) (session : Session)
    → s.phase ≡ accepting
    → i < max_clients
    → (s.workers i).in_use ≡ false
    → w.in_use ≡ true
    → w.finished ≡ false
    → w.thread ≡ s.started
    → Inv s
    → Inv (record s {
      workers = set_worker s i w;
      threads = update s.threads s.started (record { slot = i; state = serving session });
      started = suc s.started;
    })
start-slot-Inv {s} i w session e small free used open_ thread inv =
    let none_yet = inv.unborn s.started (omega arith) in
    record {
      owned = λ u h. grind (arith, inv.owned u, none_yet);
      held = λ j h. grind (arith, inv.held j, none_yet);
      over = λ j h f. grind (arith, inv.over j, inv.held j, none_yet);
      unborn = λ u h. grind (arith, inv.unborn u);
      within = inv.within;
      freed = λ a j h. grind (arith, e);
    }

-- A free slot is written and stays free.
pub refuse-Inv :
    {s : System} (i : ℕ) (w : Worker)
    → (s.workers i).in_use ≡ false
    → w.in_use ≡ false
    → Inv s
    → Inv (record s { workers = set_worker s i w })
refuse-Inv {s} i w free free' inv = record {
  owned = λ u h. grind (arith, inv.owned u);
  held = λ j h. grind (arith, inv.held j);
  over = λ j h f. grind (arith, inv.over j);
  unborn = inv.unborn;
  within = inv.within;
  freed = λ a j h. grind (arith, inv.freed a j h);
}

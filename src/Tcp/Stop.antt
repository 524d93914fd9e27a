-- ===== src/Tcp/Stop.antt =====
-- How src/server_tcp.c ends once it has been asked to stop.
use wire_command_c.Common.{
  ℕ, suc, ◌+◌, ◌-◌, ◌*◌, ◌≤◌, ◌<◌, ◌≡◌, ◌≢◌, refl, ◌∙◌, ap, Bool, true, false, arith, ◌⊎◌, inl, inr,
  Bool-cases, sum, sum-update_lt, sum-update_le, sum-le, ltb,
}
use wire_command_c.Tcp.Serve.{max_clients}
use wire_command_c.Tcp.Table.{is_stopping}
use wire_command_c.Tcp.System.{
  State, unstarted, serving, leaving, ended, joined, Thread, Phase, accepting, joining, stopped,
  System, set_state, Step, serve, quit, finish, reap, start, refuse, stop, join, join_failed, skip,
  halt, Reach, later,
}
use wire_command_c.Tcp.Invariant.{is_live, Inv}
use wire_command_c.Tcp.Safety.{Reach-Inv}

-- How many steps a thread still takes when it has been asked to stop.
abbrev state_weight : State → ℕ
state_weight unstarted = 0
state_weight (serving s) = 2
state_weight leaving = 1
state_weight ended = 0
state_weight joined = 0

abbrev weight : Thread → ℕ
weight th = state_weight th.state

state_weight-le : (state : State) → state_weight state ≤ 2
state_weight-le unstarted = omega arith
state_weight-le (serving s) = omega arith
state_weight-le leaving = omega arith
state_weight-le ended = omega arith
state_weight-le joined = omega arith

-- How many steps the main thread still takes.
abbrev remaining : Phase → ℕ
remaining accepting = 0
remaining (joining i) = suc (max_clients - i)
remaining stopped = 0

measure : System → ℕ
measure s = sum weight s.started s.threads + remaining s.phase

-- The main thread is in `wc_tcp_join_all` or behind it, and the workers see the stop.
abbrev pub IsStopping : System → Type 0
IsStopping s = (s.stopping ≡ true) × (s.phase ≢ accepting)

started-lt : {s : System} (t : ℕ) → Inv s → (s.threads t).state ≢ unstarted → t < s.started
started-lt {s} t inv ne = elim (Bool-cases (ltb t s.started)) [
  | inl e ↦ ground (arith, e)
  | inr e ↦ absurd (ne (inv.unborn t (ground (arith, e))))
]

always-stopping : (locked unlocked : Bool) → is_stopping locked unlocked true ≡ true
unfolding is_stopping
always-stopping true true = refl
always-stopping true false = refl
always-stopping false unlocked = refl

-- A thread that goes on has fewer steps left.
thread-less :
    {s : System} (t : ℕ) (state : State)
    → Inv s
    → (s.threads t).state ≢ unstarted
    → state_weight state < state_weight (s.threads t).state
    → sum weight s.started (set_state s t state) < sum weight s.started s.threads
thread-less {s} t state inv ne less =
    sum-update_lt weight s.started s.threads t _ (started-lt t inv ne) less

joined-le :
    (s : System) (t : ℕ)
    → sum weight s.started (set_state s t joined) ≤ sum weight s.started s.threads
joined-le s t = sum-update_le weight s.started s.threads t _ (omega arith)

-- Every step keeps the stop, and takes the server nearer to its end.
Step-less :
    {s u : System} → Step s u → Inv s → IsStopping s → IsStopping u × (measure u < measure s)
unfolding measure
Step-less {s} (serve t round session locked unlocked e go law) inv (st, ph) =
    absurd (let a = always-stopping locked unlocked in let b = rw st at go in cc)
Step-less {s} (quit t session locked unlocked e go) inv (st, ph) =
    ((st, ph), omega (arith, thread-less t leaving inv (λ n. cc) (rw e (omega arith))))
Step-less {s} (finish t locked e) inv (st, ph) =
    ((st, ph), omega (arith, thread-less t ended inv (λ n. cc) (rw e (omega arith))))
Step-less {s} (reap i e small over ended_) inv (st, ph) = absurd (ph e)
Step-less {s} (start i client_fd e small free) inv (st, ph) = absurd (ph e)
Step-less {s} (refuse i client_fd r e small free free') inv (st, ph) = absurd (ph e)
Step-less {s} (stop locked e) inv (st, ph) = absurd (ph e)
Step-less {s} (join i e small used ended_) inv (st, ph) =
    ((st, λ n. cc), ground (arith, e, joined-le s (s.workers i).thread))
Step-less {s} (join_failed i e small used) inv (st, ph) = ((st, λ n. cc), ground (arith, e))
Step-less {s} (skip i e small free) inv (st, ph) = ((st, λ n. cc), ground (arith, e))
Step-less {s} (halt e) inv (st, ph) = ((st, λ n. cc), ground (arith, e))

-- The step is not a failure of `pthread_join()`.
abbrev pub Proceeds : {s u : System} → Step s u → Type 0
Proceeds (serve t round session locked unlocked e go law) = Unit
Proceeds (quit t session locked unlocked e go) = Unit
Proceeds (finish t locked e) = Unit
Proceeds (reap i e small over done) = Unit
Proceeds (start i client_fd e small free) = Unit
Proceeds (refuse i client_fd r e small free free') = Unit
Proceeds (stop locked e) = Unit
Proceeds (join i e small used done) = Unit
Proceeds (join_failed i e small used) = ⊥
Proceeds (skip i e small free) = Unit
Proceeds (halt e) = Unit

-- While the main thread has not ended, some thread can go on.
joining-progress :
    {s : System} (i : ℕ)
    → s.phase ≡ joining i
    → i < max_clients
    → s.stopping ≡ true
    → Inv s
    → (u : System) × (st : Step s u) × Proceeds st
joining-progress {s} i e small st inv = elim (Bool-cases (s.workers i).in_use) [
  | inr free ↦ (_, skip i e small free, tt)
  | inl used ↦ at_state (s.threads (s.workers i).thread).state refl (inv.held i used).0 used
]
  where
    at_state :
        (state : State)
        → (s.threads (s.workers i).thread).state ≡ state
        → is_live (s.threads (s.workers i).thread).state ≡ true
        → (s.workers i).in_use ≡ true
        → (u : System) × (st : Step s u) × Proceeds st
    at_state unstarted f live used = absurd (cc)
    at_state (serving session) f live used =
        (_, quit (s.workers i).thread session true true f (rw st (always-stopping true true)), tt)
    at_state leaving f live used = (_, finish (s.workers i).thread true f, tt)
    at_state ended f live used = (_, join i e small used f, tt)
    at_state joined f live used = absurd (cc)

progress :
    {s : System}
    → Inv s
    → IsStopping s
    → (s.phase ≡ stopped) ⊎ ((u : System) × (st : Step s u) × Proceeds st)
progress {s} inv (st, ph) = at_phase s.phase refl
  where
    at_phase :
        (p : Phase)
        → s.phase ≡ p
        → (s.phase ≡ stopped) ⊎ ((u : System) × (st : Step s u) × Proceeds st)
    at_phase accepting e = absurd (ph e)
    at_phase stopped e = inl e
    at_phase (joining i) e = elim (Bool-cases (ltb i max_clients)) [
      | inl f ↦ inr (joining-progress i e (ground (arith, f)) st inv)
      | inr f ↦
          let last : i ≡ max_clients = ground (arith, f, e, inv.within) in
          inr (_, halt (e ∙ ap joining last), tt)
    ]

-- A run of so many steps.
pub data Run : ℕ → System → System → Type 0 where
  here : {s : System} → Run 0 s s
  step : {n : ℕ} {s t u : System} → Step s t → Run n t u → Run (suc n) s u

pub Run-Reach : {n : ℕ} {s u : System} → Reach s → Run n s u → Reach u
Run-Reach r here = r
Run-Reach r (step st run) = Run-Reach (later r st) run

Run-less :
    {n : ℕ} {s u : System}
    → Reach s
    → IsStopping s
    → Run n s u
    → IsStopping u × (n + measure u ≤ measure s)
Run-less r h here = (h, omega arith)
Run-less r h (step st run) =
    let (h', less) = Step-less st (Reach-Inv r) h in
    let (h'', rest) = Run-less (later r st) h' run in (h'', omega (arith, less, rest))

measure-bound : (s : System) → measure s ≤ 2 * s.started + 65
unfolding measure
measure-bound s =
    omega (
      arith,
      sum-le weight 2 (λ th. state_weight-le th.state) s.started s.threads,
      at_phase s.phase,
    )
  where
    at_phase : (p : Phase) → remaining p ≤ 65
    at_phase accepting = omega arith
    at_phase (joining i) = omega arith
    at_phase stopped = omega arith

-- Once the stop is published and the main thread joins, the server ends under every schedule: no run from
-- there has more than 2 * started + 65 steps, and where a run has come to, the main thread has ended or
-- some thread can go on, other than by a failure of `pthread_join()`.
pub Run-ends :
    {n : ℕ} {s u : System}
    → Reach s
    → IsStopping s
    → Run n s u
    → (n ≤ 2 * s.started + 65)
      × ((u.phase ≡ stopped) ⊎ ((v : System) × (st : Step u v) × Proceeds st))
Run-ends {s} r h run =
    let (h', less) = Run-less r h run in
    (omega (arith, less, measure-bound s), progress (Reach-Inv (Run-Reach r run)) h')

-- ===== src/Uds/Invariant.antt =====
-- The invariant of the client table and the queue of src/server_uds.c, through its event loop.
use wire_command_c.Common.{
  ℕ, zero, suc, ◌≡◌, refl, ◌∙◌, sym, arith, inl, inr, true, Bool-cases, Option, none, some, [], ◌∷◌,
  ◌==◌, length, Status, ok, fail,
}
use wire_command_c.Buffer.{Buffer}
use wire_command_c.Queue.{QueuedRequest}
use wire_command_c.Queue.Spec.{Fifo}
use wire_command_c.Uds.Table.{Client, Clients}
use wire_command_c.Uds.Slots.{get_slot}
use wire_command_c.Uds.Respond.{Calls, run_command}
use wire_command_c.Uds.Response.{
  Responded, IsSoundCalls, response_text, encode_command_response-Responded,
}
use wire_command_c.Uds.Process.{
  set_slot, find_slot, answered, on_first, process_loop, process_queue,
}
use wire_command_c.Uds.Connected.{
  connected, AllDistinct, set_slot-connected_same, set_slot-connected_other, set_slot-AllDistinct,
  find_slot-owner, find_slot-absent, get_slot-connected,
}
use wire_command_c.Uds.Ready.{
  AllReady, get_slot-AllReady, set_slot-AllReady, none-ReadyAt, some-ReadyAt,
}
use wire_command_c.Uds.Ordered.{answer-Ordered}
use wire_command_c.Uds.Elsewhere.{
  AllOrdered, some-OrderedAt, none-OrderedAt, get_slot-AllOrdered, set_slot-AllOrdered,
  head-Elsewhere,
}
use wire_command_c.Uds.Served.{AllFrom, Kept, removed-Kept}
use wire_command_c.Uds.Loop.{removed}

abbrev pub IsConnected : Clients → ℕ → Type 0
IsConnected cs n = connected cs n ≡ true

-- Each client has its own descriptor, well-formed buffers under their limits and no complete request left
-- in its input; each request that waits is of a client that is connected; and each client is in order,
-- answered with calls that are among `C`.
pub record IsConsistent (C : Calls → Type 0) (cs : Clients) (q : Fifo) : Type 0 where
  pub ready : AllReady cs
  pub distinct : AllDistinct cs
  pub waiting : AllFrom (IsConnected cs) q
  pub ordered : AllOrdered C cs q

pub AllFrom-map : (P Q : ℕ → Type 0) (q : Fifo) → ((m : ℕ) → P m → Q m) → AllFrom P q → AllFrom Q q
AllFrom-map P Q [] f a = tt
AllFrom-map P Q (r ∷ q) f a = (f r.client_fd a.0, AllFrom-map P Q q f a.1)

-- The slot of a client is written back.
pub set_slot-IsConsistent :
    (C : Calls → Type 0) (cs : Clients) (i n : ℕ) {c : Client} (q₀ : Fifo) (x : Client × Fifo)
    → AllReady cs
    → AllDistinct cs
    → AllOrdered C cs q₀
    → get_slot cs i ≡ some c
    → c.fd ≡ some n
    → Kept C (IsConnected cs) n q₀ x
    → IsConsistent C (set_slot cs i x.0) x.1
set_slot-IsConsistent C cs i n q₀ (c', q) ready distinct ordered e f (inl (g, r, a, o, h)) =
    record {
      ready = set_slot-AllReady cs i c' (some-ReadyAt c' r) ready;
      distinct = set_slot-AllDistinct cs i c' e (inl (g ∙ sym f)) distinct;
      waiting = AllFrom-map _ _ q (λ m k. set_slot-connected_same cs i c' m e (g ∙ sym f) ∙ k) a;
      ordered =
          set_slot-AllOrdered C cs i n c' q₀ q e f distinct h (some-OrderedAt C n c' q g o) ordered;
    }
set_slot-IsConsistent C cs i n q₀ (c', q) ready distinct ordered e f (inr (g, a, h)) = record {
  ready = set_slot-AllReady cs i c' (none-ReadyAt c' g) ready;
  distinct = set_slot-AllDistinct cs i c' e (inr g) distinct;
  waiting = AllFrom-map _ _ q (λ m k. set_slot-connected_other cs i c' n m e f g k.1 ∙ k.0) a;
  ordered = set_slot-AllOrdered C cs i n c' q₀ q e f distinct h (none-OrderedAt C c' q g) ordered;
}

answered-IsConsistent :
    (C : Calls → Type 0) (cs : Clients) (request : QueuedRequest) (rest : Fifo) (i : ℕ) (c : Client)
    (calls : Calls) (x : Status × Buffer)
    → C calls
    → IsConsistent C cs (request ∷ rest)
    → get_slot cs i ≡ some c
    → c.fd ≡ some request.client_fd
    → c.output.length ≡ 0
    → Responded calls c.output (response_text calls (run_command calls.command request)) x
    → IsConsistent C (answered cs rest i c x).0 (answered cs rest i c x).1
unfolding answered
answered-IsConsistent C cs request rest i c calls (ok, output) used inv e f z
      (inl (s, small, v, l, holds)) =
    let n = request.client_fd in
    let r = get_slot-AllReady cs i n e f inv.ready in
    let o = get_slot-AllOrdered C cs i n (request ∷ rest) e f inv.ordered in
    set_slot-IsConsistent C cs i n (request ∷ rest) (record c { output = output }, rest) inv.ready
      inv.distinct inv.ordered e f
      (inl (
        f,
        record {
          input_valid = r.input_valid;
          input_max = r.input_max;
          drained = r.drained;
          output_valid = v;
          output_max = l;
        },
        inv.waiting.1,
        answer-Ordered n c request rest calls output refl z small holds used o,
        head-Elsewhere n request rest refl,
      ))
answered-IsConsistent C cs request rest i c calls (ok, output) used inv e f z (inr (inl s, idle)) =
    absurd (cc)
answered-IsConsistent C cs request rest i c calls (ok, output) used inv e f z (inr (inr s, idle)) =
    absurd (cc)
answered-IsConsistent C cs request rest i c calls (fail err, output) used inv e f z given =
    let n = request.client_fd in
    set_slot-IsConsistent C cs i n (request ∷ rest) (removed (record c { output = output }) rest)
      inv.ready inv.distinct inv.ordered e f
      (removed-Kept C (IsConnected cs) n (get_slot-connected cs i n e f) (request ∷ rest)
        (record c { output = output }) rest f inv.waiting.1 (head-Elsewhere n request rest refl))

on_first-IsConsistent :
    (C : Calls → Type 0) (calls : Calls) (loop : Clients → Fifo → Clients × Fifo) (cs : Clients)
    (request : QueuedRequest) (rest : Fifo) (slot : Option (ℕ × Client))
    → C calls
    → IsSoundCalls calls
    → find_slot cs request.client_fd ≡ slot
    → ((cs' : Clients) (q : Fifo)
        → IsConsistent C cs' q
        → IsConsistent C (loop cs' q).0 (loop cs' q).1)
    → IsConsistent C cs (request ∷ rest)
    → (let x = on_first calls loop cs request rest slot in IsConsistent C x.0 x.1)
unfolding on_first
on_first-IsConsistent C calls loop cs request rest none used law e more inv =
    absurd (find_slot-absent cs request.client_fd e inv.waiting.0)
on_first-IsConsistent C calls loop cs request rest (some (i, c)) used law e more inv =
    elim (Bool-cases (c.output.length == 0)) [
      | inl z ↦
          let (here, owner) = find_slot-owner cs request.client_fd i c e in
          let r = get_slot-AllReady cs i request.client_fd here owner inv.ready in
          let responded =
            encode_command_response-Responded calls c.output request law.0 law.1 law.2 (record {
              valid = r.output_valid;
              empty = ground (arith, z);
              limit = r.output_max;
            }) in
          rw z (
            more _ _ (
              answered-IsConsistent C cs request rest i c calls _ used inv here owner
                (ground (arith, z)) responded))
      | inr z ↦ rw z inv
    ]

process_loop-IsConsistent :
    (C : Calls → Type 0) (fuel : ℕ) (calls : ℕ → Calls) (cs : Clients) (q : Fifo)
    → ((k : ℕ) → C (calls k))
    → ((k : ℕ) → IsSoundCalls (calls k))
    → IsConsistent C cs q
    → (let x = process_loop fuel calls cs q in IsConsistent C x.0 x.1)
unfolding process_loop
process_loop-IsConsistent C zero calls cs q used law inv = inv
process_loop-IsConsistent C (suc fuel) calls cs [] used law inv = inv
process_loop-IsConsistent C (suc fuel) calls cs (request ∷ rest) used law inv =
    on_first-IsConsistent C (calls fuel) (process_loop fuel calls) cs request rest _ (used fuel)
      (law fuel) refl (λ cs' q' h. process_loop-IsConsistent C fuel calls cs' q' used law h) inv

pub process_queue-IsConsistent :
    (C : Calls → Type 0) (calls : ℕ → Calls) (cs : Clients) (q : Fifo)
    → ((k : ℕ) → C (calls k))
    → ((k : ℕ) → IsSoundCalls (calls k))
    → IsConsistent C cs q
    → (let x = process_queue calls cs q in IsConsistent C x.0 x.1)
unfolding process_queue
process_queue-IsConsistent C calls cs q used law inv =
    process_loop-IsConsistent C (suc (length q)) calls cs q used law inv

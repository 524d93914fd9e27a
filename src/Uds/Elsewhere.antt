-- ===== src/Uds/Elsewhere.antt =====
-- What serving one client of src/server_uds.c leaves of the requests of the others, and the order of all
-- clients.
use wire_command_c.Common.{
  ℕ, zero, suc, ◌≡◌, refl, ◌∙◌, sym, ap, arith, inl, inr, Bool, true, false, Bool-cases, ◌||◌, ◌&&◌,
  not, Option, none, some, [], ◌∷◌, ◌++◌, append-nil, ◌==◌, leb, ltb, ◌-◌, size_mod, length,
  is_null, All, Bytes,
}
use wire_command_c.Buffer.{init}
use wire_command_c.Protocol.{Request, RequestType, request_type_valid}
use wire_command_c.Queue.{QueuedRequest, request_size}
use wire_command_c.Queue.Spec
use wire_command_c.Queue.Spec.{Fifo}
use wire_command_c.Uds.Table.{Client, Clients, is_fd, max_queued_requests, add_client, clients_init}
use wire_command_c.Uds.Respond.{Calls}
use wire_command_c.Uds.Slots.{get_slot}
use wire_command_c.Uds.Process.{set_slot}
use wire_command_c.Uds.Input.{take_request}
use wire_command_c.Uds.Preserved.{consume_queued-queue}
use wire_command_c.Uds.Connected.{connected, IsNew, AllDistinct, get_slot-connected}
use wire_command_c.Uds.Ordered.{of_client, of_client-append, Ordered}

-- The requests of the clients other than `n` are as they were.
abbrev pub Elsewhere : ℕ → Fifo → Fifo → Type 0
Elsewhere n q q' = (m : ℕ) → m == n ≡ false → of_client m q' ≡ of_client m q

pub append-Elsewhere :
    (n : ℕ) (q : Fifo) (r : QueuedRequest) → r.client_fd ≡ n → Elsewhere n q (q ++ r ∷ [])
append-Elsewhere n q r own m d =
    let differ : r.client_fd == m ≡ false = ground (arith, own, d) in
    of_client-append m q (r ∷ []) ∙ rw differ (append-nil (of_client m q))

pub head-Elsewhere :
    (n : ℕ) (r : QueuedRequest) (q : Fifo) → r.client_fd ≡ n → Elsewhere n (r ∷ q) q
head-Elsewhere n r q own m d =
    let differ : r.client_fd == m ≡ false = ground (arith, own, d) in rw differ refl

pub discard_client-Elsewhere : (n : ℕ) (q : Fifo) → Elsewhere n q (Spec.discard_client n q)
discard_client-Elsewhere n [] m d = refl
discard_client-Elsewhere n (r ∷ q) m d =
    let rest = discard_client-Elsewhere n q m d in
    elim (Bool-cases (r.client_fd == n)) [
      | inl e ↦ let differ : r.client_fd == m ≡ false = ground (arith, e, d) in rw (e, differ) rest
      | inr e ↦ elim (Bool-cases (r.client_fd == m)) [
        | inl f ↦ rw (e, f) (ap (◌∷◌ r) rest)
        | inr f ↦ rw (e, f) rest
      ]
    ]

enqueue-Elsewhere :
    (n : ℕ) (memory : Bool) (q : Fifo) (type : RequestType) (argument : Option Bytes) (k : ℕ)
    → Elsewhere n q (Spec.enqueue memory q (some n) type argument k).1
unfolding Spec.enqueue
enqueue-Elsewhere n memory q type argument k m d =
    elim (Bool-cases (not (request_type_valid type) || (is_null argument && not (k == 0)))) [
      | inl e ↦ rw e refl
      | inr e ↦ elim (Bool-cases (ltb (size_mod - 1 - request_size) k)) [
        | inl f ↦ rw (e, f) refl
        | inr f ↦ elim (Bool-cases memory) [
          | inl g ↦ rw (e, f, g) (append-Elsewhere n q _ refl m d)
          | inr g ↦ rw (e, f, g) refl
        ]
      ]
    ]

pub take_request-Elsewhere :
    (n : ℕ) (q₀ : Fifo) (memory : Bool) (c : Client) (q : Fifo) (r : Request) (k : ℕ)
    → c.fd ≡ some n
    → Elsewhere n q₀ q
    → Elsewhere n q₀ (take_request memory c q r k).2
unfolding take_request
take_request-Elsewhere n q₀ memory c q r k e h m d =
    elim (Bool-cases (leb max_queued_requests (length q))) [
      | inl f ↦ rw f (h m d)
      | inr f ↦
          let x = Spec.enqueue memory q c.fd r.type (some r.argument) r.argument_length in
          let entered : of_client m x.1 ≡ of_client m q =
            simp (e)
              (enqueue-Elsewhere n memory q r.type (some r.argument) r.argument_length m d) in
          rw (f, consume_queued-queue c k x) (entered ∙ h m d)
    ]

-- A free slot has no client.
abbrev pub OrderedAt : (Calls → Type 0) → Option ℕ → Client → Fifo → Type 0
OrderedAt C none c q = Unit
OrderedAt C (some n) c q = Ordered C n c q

abbrev pub AllOrdered : (Calls → Type 0) → Clients → Fifo → Type 0
AllOrdered C cs q = All (λ c. OrderedAt C c.fd c q) cs

pub some-OrderedAt :
    (C : Calls → Type 0) (n : ℕ) (c : Client) (q : Fifo)
    → c.fd ≡ some n
    → Ordered C n c q
    → OrderedAt C c.fd c q
some-OrderedAt C n c q e o = at c.fd e
  where
    at : (x : Option ℕ) → x ≡ some n → OrderedAt C x c q
    at none h = tt
    at (some m) h = let own : m ≡ n = cc in rw own o

pub none-OrderedAt :
    (C : Calls → Type 0) (c : Client) (q : Fifo) → c.fd ≡ none → OrderedAt C c.fd c q
none-OrderedAt C c q e = at c.fd e
  where
    at : (x : Option ℕ) → x ≡ none → OrderedAt C x c q
    at none h = tt
    at (some m) h = absurd (cc)

same-Ordered :
    (C : Calls → Type 0) (n : ℕ) (c : Client) (q q' : Fifo)
    → Ordered C n c q
    → of_client n q' ≡ of_client n q
    → Ordered C n c q'
same-Ordered C n c q q' o e = record {
  answered = o.answered;
  waiting = o.waiting;
  stream = o.stream;
  replies = o.replies;
  queue = e ∙ o.queue;
  carried = o.carried;
}

-- A client that is not `n`.
others-OrderedAt :
    (C : Calls → Type 0) (n : ℕ) (c : Client) (q q' : Fifo)
    → is_fd c.fd n ≡ false
    → Elsewhere n q q'
    → OrderedAt C c.fd c q
    → OrderedAt C c.fd c q'
others-OrderedAt C n c q q' e h = at c.fd e
  where
    at : (o : Option ℕ) → is_fd o n ≡ false → OrderedAt C o c q → OrderedAt C o c q'
    at none f x = tt
    at (some m) f x = same-Ordered C m c q q' x (h m f)

pub others-AllOrdered :
    (C : Calls → Type 0) (cs : Clients) (n : ℕ) (q q' : Fifo)
    → connected cs n ≡ false
    → Elsewhere n q q'
    → AllOrdered C cs q
    → AllOrdered C cs q'
others-AllOrdered C [] n q q' e h all = tt
others-AllOrdered C (c ∷ cs) n q q' e h all = (
  others-OrderedAt C n c q q' (ground (arith, e)) h all.0,
  others-AllOrdered C cs n q q' (ground (arith, e)) h all.1,
)

pub get_slot-AllOrdered :
    (C : Calls → Type 0) (cs : Clients) (i n : ℕ) {c : Client} (q : Fifo)
    → get_slot cs i ≡ some c
    → c.fd ≡ some n
    → AllOrdered C cs q
    → Ordered C n c q
unfolding get_slot
get_slot-AllOrdered C [] i n q e f all = absurd (cc)
get_slot-AllOrdered C (c₀ ∷ cs) zero n {c} q e f all = at c₀.fd (cc) all.0
  where
    at : (o : Option ℕ) → o ≡ some n → OrderedAt C o c₀ q → Ordered C n c q
    at none h r = absurd (cc)
    at (some m) h r = let same : c₀ ≡ c = cc in let own : m ≡ n = cc in rw (same, own) at r
get_slot-AllOrdered C (c₀ ∷ cs) (suc i) n q e f all = get_slot-AllOrdered C cs i n q e f all.1

-- The client `n` is served; those of the other slots are others.
pub set_slot-AllOrdered :
    (C : Calls → Type 0) (cs : Clients) (i n : ℕ) {c : Client} (c' : Client) (q q' : Fifo)
    → get_slot cs i ≡ some c
    → c.fd ≡ some n
    → AllDistinct cs
    → Elsewhere n q q'
    → OrderedAt C c'.fd c' q'
    → AllOrdered C cs q
    → AllOrdered C (set_slot cs i c') q'
unfolding get_slot set_slot
set_slot-AllOrdered C [] i n c' q q' e f d h o all = tt
set_slot-AllOrdered C (c₀ ∷ cs) zero n {c} c' q q' e f d h o all =
    (o, others-AllOrdered C cs n q q' (new c₀.fd (cc) d.0) h all.1)
  where
    new : (x : Option ℕ) → x ≡ some n → IsNew x cs → connected cs n ≡ false
    new none g w = absurd (cc)
    new (some m) g w = let own : m ≡ n = cc in rw own at w
set_slot-AllOrdered C (c₀ ∷ cs) (suc i) n c' q q' e f d h o all = (
  others-OrderedAt C n c₀ q q' (other c₀.fd d.0) h all.0,
  set_slot-AllOrdered C cs i n c' q q' e f d.1 h o all.1,
)
  where
    there : connected cs n ≡ true
    there = get_slot-connected cs i n e f

    other : (x : Option ℕ) → IsNew x cs → is_fd x n ≡ false
    other none w = refl
    other (some m) w = elim (Bool-cases (m == n)) [
      | inl s ↦
          let own : m ≡ n = ground (arith, s) in
          let gone : connected cs n ≡ false = rw own at w in
          let bad : true ≡ false = sym there ∙ gone in absurd (cc)
      | inr s ↦ s
    ]

pub clients_init-AllOrdered :
    (C : Calls → Type 0) (cs : Clients) (q : Fifo) → AllOrdered C (clients_init cs) q
unfolding clients_init
clients_init-AllOrdered C [] q = tt
clients_init-AllOrdered C (c ∷ cs) q = (tt, clients_init-AllOrdered C cs q)

-- A new client has none of the requests that wait.
pub add_client-AllOrdered :
    (C : Calls → Type 0) (cs : Clients) (n : ℕ) (q : Fifo)
    → of_client n q ≡ []
    → AllOrdered C cs q
    → AllOrdered C (add_client cs n).1 q
unfolding add_client init
add_client-AllOrdered C [] n q e all = tt
add_client-AllOrdered C (c ∷ cs) n q e all = at c.fd all (add_client-AllOrdered C cs n q e)
  where
    at :
        (fd : Option ℕ)
        → AllOrdered C (record c { fd = fd } ∷ cs) q
        → (AllOrdered C cs q → AllOrdered C (add_client cs n).1 q)
        → AllOrdered C (add_client (record c { fd = fd } ∷ cs) n).1 q
    at none all' rest = (
      record {
        answered = [];
        waiting = [];
        stream = refl;
        replies = refl;
        queue = e;
        carried = tt;
      },
      all'.1,
    )
    at (some m) all' rest = (all'.0, rest all'.1)

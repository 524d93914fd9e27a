-- ===== src/Uds/Ready.antt =====
-- A client of src/server_uds.c that is well formed, and how the table keeps such clients.
use wire_command_c.Common.{
  ℕ, zero, suc, ◌≡◌, refl, arith, inl, inr, true, false, Bool-cases, Option, none, some, [], ◌∷◌,
  ◌==◌, All, Status,
}
use wire_command_c.Buffer.{init}
use wire_command_c.Buffer.Contents.{IsValid}
use wire_command_c.Protocol.Stream.{cut-nil}
use wire_command_c.Uds.Table.{
  Client, Clients, input_limit, output_limit, is_fd, with_head, add_client, clients_init,
}
use wire_command_c.Uds.Slots.{get_slot}
use wire_command_c.Uds.Process.{set_slot}
use wire_command_c.Uds.Reading.{Drained}
use wire_command_c.Uds.Connected.{connected, AllDistinct}

-- Both buffers are well formed and under their limits, and no complete request is left in the input.
pub record Ready (c : Client) : Type 0 where
  pub input_valid : IsValid c.input
  pub input_max : c.input.max_size ≡ input_limit
  pub drained : Drained c
  pub output_valid : IsValid c.output
  pub output_max : c.output.max_size ≡ output_limit

-- The buffers of a free slot are not looked at.
abbrev pub ReadyAt : Option ℕ → Client → Type 0
ReadyAt none c = Unit
ReadyAt (some n) c = Ready c

abbrev pub AllReady : Clients → Type 0
AllReady = All (λ c. ReadyAt c.fd c)

pub get_slot-AllReady :
    (cs : Clients) (i n : ℕ) {c : Client}
    → get_slot cs i ≡ some c
    → c.fd ≡ some n
    → AllReady cs
    → Ready c
unfolding get_slot
get_slot-AllReady [] i n e f all = absurd (cc)
get_slot-AllReady (c₀ ∷ cs) zero n {c} e f all = at c₀.fd (cc) all.0
  where
    at : (o : Option ℕ) → o ≡ some n → ReadyAt o c₀ → Ready c
    at none h r = absurd (cc)
    at (some m) h r = let same : c₀ ≡ c = cc in rw same at r
get_slot-AllReady (c₀ ∷ cs) (suc i) n e f all = get_slot-AllReady cs i n e f all.1

pub set_slot-AllReady :
    (cs : Clients) (i : ℕ) (c' : Client)
    → ReadyAt c'.fd c'
    → AllReady cs
    → AllReady (set_slot cs i c')
unfolding set_slot
set_slot-AllReady [] i c' r all = tt
set_slot-AllReady (c₀ ∷ cs) zero c' r all = (r, all.1)
set_slot-AllReady (c₀ ∷ cs) (suc i) c' r all = (all.0, set_slot-AllReady cs i c' r all.1)

pub none-ReadyAt : (c : Client) → c.fd ≡ none → ReadyAt c.fd c
none-ReadyAt c e = at c.fd e
  where
    at : (o : Option ℕ) → o ≡ none → ReadyAt o c
    at none h = tt
    at (some n) h = absurd (cc)

pub some-ReadyAt : (c : Client) → Ready c → ReadyAt c.fd c
some-ReadyAt c r = at c.fd
  where
    at : (o : Option ℕ) → ReadyAt o c
    at none = tt
    at (some n) = r

pub clients_init-AllReady : (cs : Clients) → AllReady (clients_init cs)
unfolding clients_init
clients_init-AllReady [] = tt
clients_init-AllReady (c ∷ cs) = (tt, clients_init-AllReady cs)

pub clients_init-AllDistinct : (cs : Clients) → AllDistinct (clients_init cs)
unfolding clients_init
clients_init-AllDistinct [] = tt
clients_init-AllDistinct (c ∷ cs) = (tt, clients_init-AllDistinct cs)

-- What a table that has been offered a new client keeps.
pub record IsAdded (n : ℕ) (cs cs' : Clients) : Type 0 where
  pub ready : AllReady cs'
  pub distinct : AllDistinct cs'
  pub stays : (m : ℕ) → connected cs m ≡ true → connected cs' m ≡ true
  pub absent : (m : ℕ) → n == m ≡ false → connected cs m ≡ false → connected cs' m ≡ false

pub same-IsAdded : (n : ℕ) (cs : Clients) → AllReady cs → AllDistinct cs → IsAdded n cs cs
same-IsAdded n cs r d = record { ready = r; distinct = d; stays = λ m h. h; absent = λ m h k. k }

head-IsAdded :
    (n m : ℕ) (c : Client) (cs : Clients) (x : Status × Clients)
    → c.fd ≡ some m
    → Ready c
    → m == n ≡ false
    → connected cs m ≡ false
    → IsAdded n cs x.1
    → IsAdded n (c ∷ cs) (with_head c x).1
head-IsAdded n m c cs (s, cs') e r ne new added = record {
  ready = (some-ReadyAt c r, added.ready);
  distinct = (rw e (added.absent m (ground (arith, ne)) new), added.distinct);
  stays = λ k h. elim (Bool-cases (is_fd c.fd k)) [
    | inl t ↦ rw t refl
    | inr f ↦ rw f (added.stays k (rw f at h))
  ];
  absent = λ k d h. elim (Bool-cases (is_fd c.fd k)) [
    | inl t ↦ absurd (let x : true ≡ false = rw t at h in cc)
    | inr f ↦ rw f (added.absent k d (rw f at h))
  ];
}

pub add_client-IsAdded :
    (cs : Clients) (n : ℕ)
    → connected cs n ≡ false
    → AllReady cs
    → AllDistinct cs
    → IsAdded n cs (add_client cs n).1
unfolding add_client init
add_client-IsAdded [] n new ready distinct = same-IsAdded n [] tt tt
add_client-IsAdded (c ∷ cs) n new ready distinct =
    at c.fd new ready distinct (add_client-IsAdded cs n)
  where
    at :
        (fd : Option ℕ)
        → connected (record c { fd = fd } ∷ cs) n ≡ false
        → AllReady (record c { fd = fd } ∷ cs)
        → AllDistinct (record c { fd = fd } ∷ cs)
        → (connected cs n ≡ false → AllReady cs → AllDistinct cs → IsAdded n cs (add_client cs n).1)
        → IsAdded n (record c { fd = fd } ∷ cs) (add_client (record c { fd = fd } ∷ cs) n).1
    at none new' ready' distinct' rest = record {
      ready = (
        record {
          input_valid = omega arith;
          input_max = refl;
          drained = ([], cut-nil);
          output_valid = omega arith;
          output_max = refl;
        },
        ready'.1,
      );
      distinct = (new', distinct'.1);
      stays = λ m h. ground (arith, h);
      absent = λ m d h. ground (arith, d, h);
    }
    at (some m) new' ready' distinct' rest =
        head-IsAdded n m (record c { fd = some m }) cs (add_client cs n) refl ready'.0
          (ground (arith, new')) distinct'.0 (rest (ground (arith, new')) ready'.1 distinct'.1)

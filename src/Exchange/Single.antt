-- ===== src/Exchange/Single.antt =====
-- One exchange of the client of src/main_client.c with src/server_uds.c, which serves other clients as
-- well.
use mathlib.Core.List.{Memᴰ}
use mathlib.Core.List.Memᴰ.{head, tail}
use wire_command_c.Common.{ℕ, ◌≡◌, ◌≢◌, refl, ◌∷◌, All, Option, some, List, [], ok, Bytes}
use wire_command_c.Buffer.{Buffer, Realloc}
use wire_command_c.Buffer.Contents.{IsRealloc, contents}
use wire_command_c.Buffer.Laws.{IsReadable}
use wire_command_c.Protocol.{RequestType, encode_request}
use wire_command_c.Protocol.Stream.{cut}
use wire_command_c.Sockets.{WriteResult}
use wire_command_c.Client.Receive.{ReadResult}
use wire_command_c.Client.Main.{no_request}
use wire_command_c.Client.Printed.{Delivers}
use wire_command_c.Uds.Table.{Client, Clients, clients_init}
use wire_command_c.Uds.Slots.{get_slot}
use wire_command_c.Uds.Respond.{Calls}
use wire_command_c.Uds.Loop.{PollResult, run_loop}
use wire_command_c.Uds.Ready.{clients_init-AllReady, clients_init-AllDistinct}
use wire_command_c.Uds.Ordered.{pending}
use wire_command_c.Uds.Elsewhere.{clients_init-AllOrdered, get_slot-AllOrdered}
use wire_command_c.Uds.Invariant.{IsConsistent}
use wire_command_c.Uds.Consistent.{IsSoundRun, run_loop-IsConsistent}
use wire_command_c.Exchange.{Printed, sent-Printed}

clients_init-IsConsistent :
    (C : Calls → Type 0) (cs : Clients) → IsConsistent C (clients_init cs) []
clients_init-IsConsistent C cs = record {
  ready = clients_init-AllReady cs;
  distinct = clients_init-AllDistinct cs;
  waiting = tt;
  ordered = clients_init-AllOrdered C cs [];
}

abbrev Rounds : Type 0
Rounds = List ((ℕ → Calls) × PollResult)

-- The calls are among those of one of the rounds.
abbrev pub IsOfRun : Rounds → Calls → Type 0
IsOfRun rounds calls =
    (round : (ℕ → Calls) × PollResult) × Memᴰ round rounds × (k : ℕ) × (round.0 k ≡ calls)

All-own :
    (rounds part : Rounds)
    → ((round : (ℕ → Calls) × PollResult) → Memᴰ round part → Memᴰ round rounds)
    → All (λ round. (k : ℕ) → IsOfRun rounds (round.0 k)) part
All-own rounds [] f = tt
All-own rounds (round ∷ part) f =
    (λ k. (round, f round (head refl), k, refl), All-own rounds part (λ other m. f other (tail m)))

-- The single-threaded server runs from its start, with whatever clients. One of its clients encodes a
-- request; the server has received these bytes from it, in whatever pieces, and has sent to it something
-- and all of its output. The reads of the client deliver what was sent, in whatever pieces. Then the
-- client writes to its standard output exactly the server's reply to that type and that argument, under
-- calls of one of the rounds of the run, as far as `write()` takes it, and returns what the writing returns.
pub exchange_single :
    (realloc₁ realloc₂ : Realloc) (type : RequestType) (argument : Option Bytes) (n : ℕ)
    {b' : Buffer} (rounds : List ((ℕ → Calls) × PollResult)) (cs : Clients) (i fd : ℕ) (c : Client)
    (ws : List WriteResult) {rs : List ReadResult}
    → IsRealloc realloc₁
    → IsRealloc realloc₂
    → IsReadable argument n
    → encode_request realloc₁ realloc₂ no_request type argument n ≡ (ok, b')
    → IsSoundRun rounds (clients_init cs) []
    → get_slot (run_loop rounds (clients_init cs) []).1 i ≡ some c
    → c.fd ≡ some fd
    → c.received ≡ contents b'
    → c.output.length ≡ 0
    → c.sent_bytes ≢ []
    → Delivers rs c.sent_bytes
    → Printed (IsOfRun rounds) type argument n ws rs
exchange_single realloc₁ realloc₂ type argument n rounds cs i fd c ws law₁ law₂ readable e sound
      there own received z some_sent d =
    let inv =
      run_loop-IsConsistent (IsOfRun rounds) rounds (clients_init cs) []
        (All-own rounds rounds (λ round m. m)) sound
        (clients_init-IsConsistent (IsOfRun rounds) cs) in
    let o = get_slot-AllOrdered (IsOfRun rounds) _ i fd _ there own inv.ordered in
    sent-Printed (IsOfRun rounds) realloc₁ realloc₂ type argument n ws o.answered
      (pending o.waiting (cut (contents c.input))) c.received c.sent_bytes c.output law₁ law₂
      readable e o.stream o.replies o.carried received z some_sent d

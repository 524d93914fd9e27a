-- ===== src/Uds/Storing.antt =====
-- What the storing of a read in src/server_uds.c does to the stream of requests and to the queue.
use wire_command_c.Common.{
  ℕ, ◌≤◌, ◌≡◌, refl, ◌∙◌, sym, ap, Bool, some, [], ◌++◌, arith, ◌⊎◌, inl, inr, length, take_all,
  append-nil, Status, fail, Errno, Bytes,
}
use wire_command_c.Buffer.{Buffer, Realloc}
use wire_command_c.Buffer.Contents.{IsValid, IsRealloc, contents}
use wire_command_c.Buffer.Laws.{append_lem, Appended, AppendFailure}
use wire_command_c.Protocol.Stream.{cut, feed, cut-append}
use wire_command_c.Queue.Spec.{Fifo}
use wire_command_c.Uds.Table.{Client, input_limit}
use wire_command_c.Uds.Admission.{Admit}
use wire_command_c.Uds.Input.{Loaded, store_bytes, store_appended}
use wire_command_c.Uds.Entry.{Kept, Kept-trans}
use wire_command_c.Uds.Arrival.{enqueue_complete_requests-Admitted}

-- The two ends of storing bytes: the append has failed and nothing has changed, or the requests of
-- the stream with the new bytes are admitted.
abbrev pub Stored : Realloc → (ℕ → Bool) → ℕ → Client → Fifo → Bytes → Loaded → Type 0
Stored realloc memory client_fd c q xs (st, c', q') =
    ((e : Errno) × (st ≡ fail e)
      × (c' ≡ c)
      × (q' ≡ q)
      × AppendFailure realloc c.input (some xs) (length xs) e)
    ⊎ (Admit memory client_fd (feed (cut (contents c.input)) xs) q st (cut (contents c'.input)) q'
        × Kept c c' [])

store_appended-Stored :
    (realloc : Realloc) (client_fd : ℕ) (memory : ℕ → Bool) (c : Client) (q : Fifo) (xs : Bytes)
    (r : Status × Buffer)
    → c.fd ≡ some client_fd
    → c.input.max_size ≤ input_limit
    → Appended realloc c.input (some xs) (length xs) r
    → Stored realloc memory client_fd c q xs (store_appended memory c q r)
unfolding store_appended
store_appended-Stored realloc client_fd memory c q xs (s, b) fd l (inr (e, es, eb, why)) =
    rw (es, eb) (inl (e, refl, refl, refl, why))
store_appended-Stored realloc client_fd memory c q xs (s, b) fd l (inl (es, x)) =
    let c' : Client = record c { input = b } in
    let t =
      enqueue_complete_requests-Admitted client_fd memory c' q fd x.valid
        (omega (arith, x.valid.within, x.valid.bounded, x.limit)) in
    let now : cut (contents b) ≡ feed (cut (contents c.input)) xs =
      ap cut (
        x.holds
        ∙ ap (λ (ys : Bytes). contents c.input ++ ys) (take_all (length xs) xs (omega arith)))
      ∙ cut-append (contents c.input) xs in
    let first : Kept c c' [] = record {
      valid = x.valid;
      limit = x.limit;
      same_fd = refl;
      same_output = refl;
      same_sent = refl;
      grown = sym (append-nil c.received);
    } in
    let both = Kept-trans first t.1 in rw es (inr (rw now at t.0, both))

-- The bytes of one `read()` either do not fit the input and change nothing, or the requests that the
-- stream now holds are admitted, cut exactly as if the stream had arrived at once.
pub store_bytes-Stored :
    (client_fd : ℕ) (realloc : Realloc) (memory : ℕ → Bool) (c : Client) (q : Fifo) (xs : Bytes)
    → c.fd ≡ some client_fd
    → IsRealloc realloc
    → IsValid c.input
    → c.input.max_size ≤ input_limit
    → Stored realloc memory client_fd c q xs (store_bytes realloc memory c q xs)
unfolding store_bytes
store_bytes-Stored client_fd realloc memory c q xs fd law v l =
    store_appended-Stored realloc client_fd memory c q xs _ fd l
      (append_lem realloc c.input (some xs) (length xs) law v (inr (omega arith)))

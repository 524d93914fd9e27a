-- ===== src/Uds/Output.antt =====
-- From the output of a client to its socket: `wc_uds_write_client` of src/server_uds.c.
use wire_command_c.Common.{
  ℕ, ◌-◌, ◌≤◌, ◌<◌, ◌≡◌, refl, ◌∙◌, ap, List, [], ◌∷◌, ◌++◌, arith, ◌⊎◌, inl, inr, Bool-cases, ◌==◌,
  if◌then◌else◌, take, drop, take-append-drop, min, append_assoc, Status, ok, fail, Errno, einval,
  Bytes,
}
use wire_command_c.Buffer.{Buffer, consume}
use wire_command_c.Buffer.Contents.{IsValid, contents}
use wire_command_c.Buffer.Laws.{consume_lem}

-- What one call of `send()` does: it takes `n` bytes, or all of them if there are fewer, or EINTR, EAGAIN
-- or EWOULDBLOCK, or another failure.
pub data SendResult : Type 0 where
  sent : ℕ → SendResult
  send_interrupted send_would_block : SendResult
  send_failed : Errno → SendResult

-- The status, the output that is left, and the bytes that the socket has taken.
abbrev pub Written : Type 0
Written = Status × Buffer × Bytes

unfoldable pub after_consume : (Buffer → Written) → Bytes → Status × Buffer → Written
after_consume loop xs (fail e, output) = (fail e, output, xs)
after_consume loop xs (ok, output) = let (s, output', ys) = loop output in (s, output', xs ++ ys)

-- One turn of the loop, with its further turns in `loop`. A `send()` of 0 bytes leaves `errno` as it
-- was `before`.
unfoldable pub on_send : Errno → (Buffer → Written) → Buffer → SendResult → Written
unfolding after_consume
on_send before loop output (sent n) =
    let bytes_written = min n output.length in
    if bytes_written == 0
    then (fail before, output, [])
    else after_consume loop (take bytes_written (contents output)) (consume output bytes_written)
on_send before loop output send_interrupted = loop output
on_send before loop output send_would_block = (ok, output, [])
on_send before loop output (send_failed e) = (fail e, output, [])

-- The results of the calls of `send()` in turn; behind the last one `send()` would block.
unfoldable pub write_client : Errno → List SendResult → Buffer → Written
unfolding on_send
write_client before [] output = (ok, output, [])
write_client before (r ∷ rs) output =
    let turn = on_send before (write_client before rs) output r in
    if output.length == 0 then (ok, output, []) else turn

-- No byte is lost, repeated or put elsewhere: what the socket has taken and what is left are the output.
abbrev pub Drains : Buffer → Written → Type 0
Drains output (s, left, taken) =
    IsValid left × (left.max_size ≡ output.max_size) × (taken ++ contents left ≡ contents output)

after_consume-Drains :
    (loop : Buffer → Written) (output : Buffer) (n : ℕ)
    → IsValid output
    → n ≤ output.length
    → ((b : Buffer) → IsValid b → b.length ≡ output.length - n → Drains b (loop b))
    → Drains output (after_consume loop (take n (contents output)) (consume output n))
unfolding after_consume
after_consume-Drains loop output n v le rest = go (consume output n) (consume_lem output n v)
  where
    go :
        (r : Status × Buffer)
        → (let (s, b') = r in
            IsValid b'
            × (b'.max_size ≡ output.max_size)
            × (((s ≡ ok)
                  × (n ≤ output.length)
                  × (contents b' ≡ drop n (contents output))
                  × (b'.length ≡ output.length - n))
                ⊎ ((s ≡ fail einval) × (output.length < n) × (b' ≡ output))))
        → Drains output (after_consume loop (take n (contents output)) r)
    go (s, b) (v', limit, inr (e, lt, same)) = absurd (omega (arith, le, lt))
    go (s, b) (v', limit, inl (e, le', holds, shorter)) =
        let t = rest b v' shorter in
        rw e (
          t.0,
          t.1 ∙ limit,
          append_assoc (take n (contents output)) _ _
              ∙ ap (◌++◌ (take n (contents output))) (t.2 ∙ holds)
              ∙ take-append-drop n (contents output),
        )

stay-Drains : (output : Buffer) (s : Status) → IsValid output → Drains output (s, output, [])
stay-Drains output s v = (v, refl, refl)

on_send-Drains :
    (before : Errno) (rs : List SendResult) (loop : Buffer → Written) (output : Buffer)
    (r : SendResult)
    → IsValid output
    → ((b : Buffer) → IsValid b → Drains b (loop b))
    → Drains output (on_send before loop output r)
unfolding on_send
on_send-Drains before rs loop output (sent n) v rest =
    elim (Bool-cases (min n output.length == 0)) [
      | inl e ↦ rw e (stay-Drains output (fail before) v)
      | inr f ↦ rw f (
          after_consume-Drains loop output (min n output.length) v (omega arith)
            (λ b vb el. rest b vb))
    ]
on_send-Drains before rs loop output send_interrupted v rest = rest output v
on_send-Drains before rs loop output send_would_block v rest = stay-Drains output ok v
on_send-Drains before rs loop output (send_failed e) v rest = stay-Drains output (fail e) v

-- Whatever the calls of `send()` return, the bytes that the socket has taken and then those that are left
-- in the output are the output as it was, and the output stays well formed.
pub write_client-Drains :
    (before : Errno) (rs : List SendResult) (output : Buffer)
    → IsValid output
    → Drains output (write_client before rs output)
unfolding write_client
write_client-Drains before [] output v = stay-Drains output ok v
write_client-Drains before (r ∷ rs) output v = elim (Bool-cases (output.length == 0)) [
  | inl e ↦ rw (e, write_client) (stay-Drains output ok v)
  | inr f ↦
      rw (f, write_client)
        (on_send-Drains before rs (write_client before rs) output r v
          (λ b. write_client-Drains before rs b))
]

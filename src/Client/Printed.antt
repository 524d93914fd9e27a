-- ===== src/Client/Printed.antt =====
-- What the client of src/main_client.c prints.
use wire_command_c.Common.{
  ℕ, ◌+◌, ◌≤◌, ◌<◌, ◌≡◌, ◌≢◌, refl, ◌∙◌, sym, ap, false, Option, none, some, List, [], ◌∷◌, ◌++◌,
  append_assoc, append-nil, arith, ◌⊎◌, inl, inr, Bool-cases, ◌==◌, ltb, length, length-append,
  take, take_all, Status, fail, einval, enomem, Bytes, uint16_max,
}
use wire_command_c.Buffer.{Buffer, Realloc, append}
use wire_command_c.Buffer.Contents.{IsValid, IsRealloc, contents, length-contents}
use wire_command_c.Buffer.Laws.{append_lem, Appended, no_source, too_long, no_memory}
use wire_command_c.Protocol.{complete, parse_response}
use wire_command_c.Protocol.Frame.{response_frame}
use wire_command_c.Protocol.Parse.{response_of, parse_response-frame, parse_response-take}
use wire_command_c.Protocol.Prefix.{parse_response-prefix}
use wire_command_c.Buffer.Available.{append-available}
use wire_command_c.Sockets.{WriteResult, Written, returned, write_all}
use wire_command_c.Sockets.Laws.{WrittenOf, write_all-WrittenOf}
use wire_command_c.Client.Receive.{
  ReadResult, got, interrupted, read_size, input_limit, room, after_append, on_read, on_parse,
  receive_loop, no_input, receive_response,
}

-- Reads that deliver the bytes, in pieces of any size from 1 to 4096, with EINTR anywhere. The `realloc()`
-- behind each of them finds memory.
pub data Delivers : List ReadResult → Bytes → Type 0 where
  all_there : Delivers [] []
  again : {rs : List ReadResult} {ys : Bytes} → Delivers rs ys → Delivers (interrupted ∷ rs) ys
  piece :
      {rs : List ReadResult} {ys : Bytes} (realloc : Realloc) (xs : Bytes)
      → IsRealloc realloc
      → ((p : Option Bytes) (n : ℕ) → realloc p n ≢ none)
      → 0 < length xs
      → length xs ≤ read_size
      → Delivers rs ys
      → Delivers (got realloc xs ∷ rs) (xs ++ ys)

-- The parser sees the contents of a buffer.
pub parse-contents :
    (b : Buffer)
    → IsValid b
    → parse_response b.block b.length ≡ parse_response (some (contents b)) (length (contents b))
parse-contents b v =
    parse_response-take b.block b.length (omega (arith, v.within, v.allocated))
    ∙ ap (λ (n : ℕ). parse_response (some (contents b)) n) (sym (length-contents b v))

-- The whole frame is there.
whole :
    (ws : List WriteResult) (b : Buffer) (body : Bytes) (more : Written)
    → IsValid b
    → length body ≤ uint16_max
    → contents b ≡ response_frame body
    → on_parse ws b more (parse_response b.block b.length) ≡ write_all ws (some body) (length body)
unfolding on_parse
whole ws b body more v small e =
    let found : parse_response (some (contents b)) (length (contents b))
        ≡ complete (response_of body) (2 + length body) =
      ap (λ (xs : Bytes). parse_response (some xs) (length xs))
        (e ∙ sym (append-nil (response_frame body)))
      ∙ parse_response-frame body [] small in
    rw (parse-contents b v, found) refl

-- A part is missing: the client goes on to read.
missing :
    (ws : List WriteResult) (b : Buffer) (body ys : Bytes) (more : Written)
    → IsValid b
    → b.max_size ≡ input_limit
    → length body ≤ uint16_max
    → contents b ++ ys ≡ response_frame body
    → 0 < length ys
    → on_parse ws b more (parse_response b.block b.length) ≡ more
unfolding on_parse
missing ws b body ys more v limit small e pos =
    let total = ap (λ (xs : Bytes). length xs) e in
    let short : b.length == b.max_size ≡ false =
      ground (arith, total, length-append (contents b) ys, length-contents b v, limit) in
    rw (parse-contents b v, parse_response-prefix (contents b) ys body small e pos, short) refl

-- A piece that fits is stored.
piece-stored :
    (next : Buffer → Written) (b : Buffer) (realloc : Realloc) (xs : Bytes)
    → IsRealloc realloc
    → ((p : Option Bytes) (n : ℕ) → realloc p n ≢ none)
    → IsValid b
    → b.length + length xs ≤ b.max_size
    → 0 < length xs
    → length xs ≤ read_size
    → (b' : Buffer) × (on_read next b (got realloc xs) ≡ next b')
      × IsValid b'
      × (b'.max_size ≡ b.max_size)
      × (contents b' ≡ contents b ++ xs)
unfolding on_read
piece-stored next b realloc xs law memory v fits pos le =
    let asked : length xs ≤ room b = ground arith in
    let chunk : take (room b) xs ≡ xs = take_all (room b) xs asked in
    let some_bytes : length xs == 0 ≡ false = ground arith in
    rw (chunk, some_bytes)
      (go (append realloc b (some xs) (length xs))
        (append_lem realloc b (some xs) (length xs) law v (inr (omega arith)))
        (append-available realloc b (some xs) (length xs) memory))
  where
    go :
        (r : Status × Buffer)
        → Appended realloc b (some xs) (length xs) r
        → r.0 ≢ fail enomem
        → (b' : Buffer) × (after_append next r ≡ next b')
          × IsValid b'
          × (b'.max_size ≡ b.max_size)
          × (contents b' ≡ contents b ++ xs)
    go (s, b') (inl (e, x)) ne = rw e (
      b',
      refl,
      x.valid,
      x.limit,
      x.holds ∙ ap (◌++◌ (contents b)) (take_all (length xs) xs (omega arith)),
    )
    go (s, b') (inr (_, e, same, no_source n z)) ne = absurd (cc)
    go (s, b') (inr (_, e, same, too_long h)) ne = absurd (omega arith)
    go (s, b') (inr (_, e, same, no_memory h k refused)) ne = absurd (ne e)

receive_loop-whole :
    (ws : List WriteResult) {rs : List ReadResult} {ys : Bytes} (b : Buffer) (body : Bytes)
    → Delivers rs ys
    → IsValid b
    → b.max_size ≡ input_limit
    → length body ≤ uint16_max
    → contents b ++ ys ≡ response_frame body
    → receive_loop ws rs b ≡ write_all ws (some body) (length body)
unfolding receive_loop on_read
receive_loop-whole ws b body all_there v limit small e =
    whole ws b body _ v small (sym (append-nil (contents b)) ∙ e)
receive_loop-whole ws {ys = ys} b body (again {rs} d) v limit small e =
    elim (Bool-cases (ltb 0 (length ys))) [
      | inl pos ↦
          missing ws b body ys _ v limit small e (ground (arith, pos))
          ∙ receive_loop-whole ws b body d v limit small e
      | inr none_left ↦ whole ws b body _ v small (
          sym (append-nil (contents b))
          ∙ ap (◌++◌ (contents b)) (sym (nil_of ys (ground (arith, none_left))))
          ∙ e)
    ]
  where
    nil_of : (zs : Bytes) → length zs ≡ 0 → zs ≡ []
    nil_of [] h = refl
    nil_of (z ∷ zs) h = absurd (omega arith)
receive_loop-whole ws b body (piece {rs} {ys} realloc xs law memory pos le d) v limit small e =
    let total = ap (λ (zs : Bytes). length zs) e in
    let fits : b.length + length xs ≤ b.max_size = ground (
      arith,
      total,
      limit,
      length-contents b v,
      length-append (contents b) (xs ++ ys),
      length-append xs ys,
    ) in
    let (b', stored, v', limit', holds) =
      piece-stored (receive_loop ws rs) b realloc xs law memory v fits pos le in
    missing ws b body (xs ++ ys) _ v limit small e (omega (arith, length-append xs ys))
    ∙ stored
    ∙ receive_loop-whole ws b' body d v' (limit' ∙ limit) small
        (ap (λ (zs : Bytes). zs ++ ys) holds ∙ append_assoc (contents b) xs ys ∙ e)

-- When the reads deliver the frame of a response, in pieces of any size, the client writes exactly its
-- bytes to the standard output, as far as `write()` takes them, and returns what the writing returns.
pub receive_response-frame :
    (ws : List WriteResult) {rs : List ReadResult} (body : Bytes)
    → length body ≤ uint16_max
    → Delivers rs (response_frame body)
    → (receive_response ws rs ≡ write_all ws (some body) (length body))
      × WrittenOf body (receive_response ws rs)
unfolding receive_response
receive_response-frame ws {rs} body small d =
    let same = receive_loop-whole ws no_input body d (omega arith) refl small refl in
    (same, rw same (written (write_all-WrittenOf ws (some body) (length body))))
  where
    written :
        ((◌≡◌ {A = Option Bytes} (some body) none)
            × (length body ≢ 0)
            × (write_all ws (some body) (length body) ≡ returned (fail einval) []))
          ⊎ WrittenOf (take (length body) body) (write_all ws (some body) (length body))
        → WrittenOf body (write_all ws (some body) (length body))
    written (inl (e, z, more)) = absurd (cc)
    written (inr w) = rw (take_all (length body) body (omega arith)) at w

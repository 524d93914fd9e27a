-- ===== src/Client/Whole.antt =====
-- What the client of src/main_client.c has read when it says that it has printed a response.
use wire_command_c.Common.{
  ℕ, zero, suc, ◌+◌, ◌-◌, ◌≡◌, refl, ◌∙◌, sym, ap, some, List, [], ◌∷◌, ◌++◌, append_assoc, arith,
  inl, inr, Bool-cases, ◌==◌, ltb, min, sub_size, length, take, take_all, drop, Status, ok, Bytes,
  All, IsBytes,
}
use wire_command_c.Buffer.{Buffer, Realloc}
use wire_command_c.Buffer.Contents.{IsValid, IsRealloc, contents}
use wire_command_c.Buffer.Laws.{append_lem, Appended}
use wire_command_c.Protocol.{parse_response}
use wire_command_c.Protocol.Frame.{response_frame}
use wire_command_c.Protocol.Parse.{parse_response-outcome}
use wire_command_c.Sockets.{WriteResult, Written, returned, write_all}
use wire_command_c.Sockets.Laws.{WrittenOf, write_all-WrittenOf}
use wire_command_c.Client.Receive.{
  ReadResult, got, end_of_stream, interrupted, read_failed, read_size, input_limit, room,
  after_append, on_read, on_parse, receive_loop, no_input, receive_response,
}
use wire_command_c.Client.Printed.{parse-contents}

-- The bytes that the reads take from the socket, when the input already holds `held`: of each result as
-- many as `bytes` and the input have room for, up to the end of the stream or a failure.
pub taken_from : ℕ → List ReadResult → Bytes
taken_from held [] = []
taken_from held (got realloc xs ∷ rs) =
    let chunk = take (min read_size (input_limit - held)) xs in
    chunk ++ taken_from (held + length chunk) rs
taken_from held (end_of_stream ∷ rs) = []
taken_from held (interrupted ∷ rs) = taken_from held rs
taken_from held (read_failed e ∷ rs) = []

-- A `read()` gives bytes, and the `realloc()` behind it does what C says.
abbrev pub IsSoundRead : ReadResult → Type 0
IsSoundRead (got realloc xs) = IsRealloc realloc × IsBytes xs
IsSoundRead end_of_stream = Unit
IsSoundRead interrupted = Unit
IsSoundRead (read_failed e) = Unit

-- The bytes begin with the frame of what was printed.
abbrev pub Begins : Bytes → Bytes → Type 0
Begins printed xs = (rest : Bytes) × (xs ≡ response_frame printed ++ rest)

append-IsBytes : (xs ys : Bytes) → IsBytes xs → IsBytes ys → IsBytes (xs ++ ys)
append-IsBytes [] ys h k = k
append-IsBytes (x ∷ xs) ys h k = (h.0, append-IsBytes xs ys h.1 k)

take-IsBytes : (n : ℕ) (xs : Bytes) → IsBytes xs → IsBytes (take n xs)
take-IsBytes zero xs h = tt
take-IsBytes (suc n) [] h = tt
take-IsBytes (suc n) (x ∷ xs) h = (h.0, take-IsBytes n xs h.1)

-- What the writing says it has written in full is all of it.
all_written :
    (ws : List WriteResult) (body printed : Bytes)
    → write_all ws (some body) (length body) ≡ returned ok printed
    → printed ≡ body
all_written ws body printed e = elim (write_all-WrittenOf ws (some body) (length body)) [
  | inl (absent, big, more) ↦ absurd (cc)
  | inr w ↦
      let all : WrittenOf (take (length body) body) (returned ok printed) = rw e at w in
      all ∙ take_all (length body) body (omega arith)
]

-- A round that prints has the frame in its input, or the rounds behind it do.
on_parse-Begins :
    (ws : List WriteResult) (b : Buffer) (more : Written) (later printed : Bytes)
    → IsValid b
    → IsBytes (contents b)
    → (more ≡ returned ok printed → Begins printed (contents b ++ later))
    → on_parse ws b more (parse_response b.block b.length) ≡ returned ok printed
    → Begins printed (contents b ++ later)
unfolding on_parse
on_parse-Begins ws b more later printed v small next e =
    elim (parse_response-outcome (contents b) small) [
      | inl (waits, none_there) ↦ elim (Bool-cases (b.length == b.max_size)) [
        | inl full ↦ absurd (let t = rw (parse-contents b v, waits, full) at e in cc)
        | inr f ↦ next (rw (parse-contents b v, waits, f) at e)
      ]
      | inr (body, found, begins) ↦
          let same = all_written ws body printed (rw (parse-contents b v, found) at e) in
          (
            drop (2 + length body) (contents b) ++ later,
            ap (λ (xs : Bytes). xs ++ later) begins
                ∙ append_assoc (response_frame body) (drop (2 + length body) (contents b)) later
                ∙ ap
                    (λ (x : Bytes).
                      response_frame x ++ (drop (2 + length body) (contents b) ++ later))
                    (sym same),
          )
    ]

room-min :
    (b : Buffer)
    → IsValid b
    → b.max_size ≡ input_limit
    → room b ≡ min read_size (input_limit - b.length)
room-min b v limit = elim (Bool-cases (ltb (sub_size b.max_size b.length) read_size)) [
  | inl e ↦ rw e (ground (arith, e, limit))
  | inr e ↦ rw e (ground (arith, e, limit))
]

-- What holds of the loop at every input, holds of it behind an append.
Answers : List ReadResult → (Buffer → Written) → Bytes → Type 0
Answers rs next printed =
    (b : Buffer)
    → IsValid b
    → b.max_size ≡ input_limit
    → IsBytes (contents b)
    → next b ≡ returned ok printed
    → Begins printed (contents b ++ taken_from b.length rs)

after_append-Begins :
    (next : Buffer → Written) (rs : List ReadResult) (realloc : Realloc) (b : Buffer)
    (chunk printed : Bytes) (r : Status × Buffer)
    → b.max_size ≡ input_limit
    → IsBytes (contents b)
    → IsBytes chunk
    → Answers rs next printed
    → Appended realloc b (some chunk) (length chunk) r
    → after_append next r ≡ returned ok printed
    → Begins printed (contents b ++ (chunk ++ taken_from (b.length + length chunk) rs))
unfolding after_append Answers
after_append-Begins next rs realloc b chunk printed (s, b') limit small fine answers
      (inr (x, es, eb, why)) e =
    absurd (let t = rw es at e in cc)
after_append-Begins next rs realloc b chunk printed (s, b') limit small fine answers (inl (es, x))
      e =
    let whole = take_all (length chunk) chunk (omega arith) in
    let holds : contents b' ≡ contents b ++ chunk = rw whole at x.holds in
    let longer : b'.length ≡ b.length + length chunk = rw whole at x.longer in
    let (rest, begins) =
      answers b' x.valid (x.limit ∙ limit) (rw holds (append-IsBytes (contents b) chunk small fine))
        (rw es at e) in
    (
      rest,
      sym (append_assoc (contents b) chunk (taken_from (b.length + length chunk) rs))
          ∙ ap (λ (k : ℕ). (contents b ++ chunk) ++ taken_from k rs) (sym longer)
          ∙ ap (λ (xs : Bytes). xs ++ taken_from b'.length rs) (sym holds)
          ∙ begins,
    )

on_read-Begins :
    (next : Buffer → Written) (rs : List ReadResult) (b : Buffer) (r : ReadResult) (printed : Bytes)
    → IsSoundRead r
    → IsValid b
    → b.max_size ≡ input_limit
    → IsBytes (contents b)
    → Answers rs next printed
    → on_read next b r ≡ returned ok printed
    → Begins printed (contents b ++ taken_from b.length (r ∷ rs))
unfolding on_read taken_from Answers
on_read-Begins next rs b (got realloc xs) printed law v limit small answers e =
    let room_is = room-min b v limit in
    elim (Bool-cases (length (take (room b) xs) == 0)) [
      | inl z ↦ absurd (let t = rw z at e in cc)
      | inr z ↦ rw (sym room_is) (
          after_append-Begins next rs realloc b (take (room b) xs) printed _ limit small
            (take-IsBytes (room b) xs law.1) answers
            (append_lem realloc b (some (take (room b) xs)) (length (take (room b) xs)) law.0 v
              (inr (omega arith)))
            (rw z at e))
    ]
on_read-Begins next rs b end_of_stream printed law v limit small answers e = absurd (cc)
on_read-Begins next rs b interrupted printed law v limit small answers e = answers b v limit small e
on_read-Begins next rs b (read_failed x) printed law v limit small answers e = absurd (cc)

receive_loop-Begins :
    (ws : List WriteResult) (rs : List ReadResult) (printed : Bytes)
    → All IsSoundRead rs
    → Answers rs (receive_loop ws rs) printed
unfolding receive_loop taken_from Answers
receive_loop-Begins ws [] printed law =
    λ b v limit small e. on_parse-Begins ws b _ [] printed v small (λ t. absurd (cc)) e
receive_loop-Begins ws (r ∷ rs) printed law = λ b v limit small e.
    on_parse-Begins ws b _ (taken_from b.length (r ∷ rs)) printed v small
      (on_read-Begins (receive_loop ws rs) rs b r printed law.0 v limit small
        (receive_loop-Begins ws rs printed law.1))
      e

-- When the client returns with success, the bytes that it has taken from its reads begin with a response
-- frame, and what it has printed is the whole text of that frame.
pub receive_response-Begins :
    (ws : List WriteResult) (rs : List ReadResult) (printed : Bytes)
    → All IsSoundRead rs
    → receive_response ws rs ≡ returned ok printed
    → Begins printed (taken_from 0 rs)
unfolding receive_response Answers
receive_response-Begins ws rs printed law e =
    receive_loop-Begins ws rs printed law no_input (omega arith) refl tt e

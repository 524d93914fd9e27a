-- ===== src/Uds/Reading.antt =====
-- What `wc_uds_read_client` of src/server_uds.c makes of a list of results of `read()`.
use wire_command_c.Common.{
  ℕ, ◌-◌, true, min, ltb, sub_size, ◌≤◌, ◌≡◌, refl, ◌∙◌, sym, ap, Bool, some, List, [], ◌∷◌, ◌++◌,
  arith, inl, inr, Bool-cases, ◌==◌, length, take, append-nil, append_assoc, Status, ok, fail,
  Errno, emsgsize, Bytes, All,
}
use wire_command_c.Buffer.{Realloc}
use wire_command_c.Buffer.Contents.{IsValid, IsRealloc, contents, length-contents}
use wire_command_c.Protocol.Stream.{
  Stream, rest_is, broken, more, cut, feed, cut-append, parse-cases, cut-complete, cut-need_more,
  cut-invalid,
}
use wire_command_c.Queue.Spec.{Fifo}
use wire_command_c.Uds.Table.{Client, read_size, input_limit, max_queued_requests}
use wire_command_c.Uds.Admission.{Admit, all_in, next, Admit-feed, Admit-bound}
use wire_command_c.Uds.Entry.{Kept, Kept-trans, same-Kept}
use wire_command_c.Uds.Storing.{Stored, store_bytes-Stored}
use wire_command_c.Uds.Input.{
  Loaded, ReadResult, got, end_of_stream, interrupted, would_block, failed, next_round, on_read,
  read_client, room,
}

-- The bytes behind the requests of a stream.
pub left_over : Stream → Bytes
left_over (rest_is xs) = xs
left_over broken = []
left_over (more r s) = left_over s

-- The bytes that the reads must take for a client whose input holds `held`, if none of them fails: of each
-- result as many as `bytes` and the input have room for, when the requests that came before have left it.
pub received_by : ℕ → Bytes → List ReadResult → Bytes
unfolding left_over
received_by limit held [] = []
received_by limit held (got realloc memory xs ∷ rs) =
    let chunk = take (min read_size (limit - length held)) xs in
    chunk ++ received_by limit (left_over (feed (cut held) chunk)) rs
received_by limit held (end_of_stream ∷ rs) = []
received_by limit held (interrupted ∷ rs) = received_by limit held rs
received_by limit held (would_block ∷ rs) = []
received_by limit held (failed e ∷ rs) = []

-- The `realloc()` behind a read does what C says.
abbrev pub IsSound : ReadResult → Type 0
IsSound (got realloc memory xs) = IsRealloc realloc
IsSound end_of_stream = Unit
IsSound interrupted = Unit
IsSound would_block = Unit
IsSound (failed e) = Unit

-- The input holds no complete request, and nothing that the parser refuses.
abbrev pub Drained : Client → Type 0
Drained c = (xs : Bytes) × (cut (contents c.input) ≡ rest_is xs)

-- The bytes received are those that the reads must take; they continue the stream, and its requests are admitted.
abbrev pub Continued : ℕ → Client → Fifo → List ReadResult → Bytes → Client → Fifo → Type 0
Continued client_fd c q rs received c' q' =
    (received ≡ received_by c.input.max_size (contents c.input) rs)
    × Drained c'
    × Admit (λ k. true) client_fd (feed (cut (contents c.input)) received) q ok
        (cut (contents c'.input)) q'

abbrev pub ReadBy : ℕ → Client → Fifo → List ReadResult → Loaded → Type 0
ReadBy client_fd c q rs (st, c', q') =
    (received : Bytes) × Kept c c' received
    × (length q ≤ max_queued_requests → length q' ≤ max_queued_requests)
    × ((st ≡ ok) → Continued client_fd c q rs received c' q')

pub Admit-drained :
    {memory : ℕ → Bool} {client_fd : ℕ} {s s' : Stream} {q q' : Fifo}
    → Admit memory client_fd s q ok s' q'
    → (xs : Bytes) × (s' ≡ rest_is xs)
Admit-drained (all_in {xs}) = (xs, refl)
Admit-drained (next h a) = Admit-drained a

feed-nil : (xs : Bytes) → feed (cut xs) [] ≡ cut xs
feed-nil xs = sym (cut-append xs []) ∙ ap cut (append-nil xs)

nothing-ReadBy :
    (client_fd : ℕ) (c : Client) (q : Fifo) (rs : List ReadResult) (st : Status)
    → IsValid c.input
    → Drained c
    → (st ≡ ok → [] ≡ received_by c.input.max_size (contents c.input) rs)
    → ReadBy client_fd c q rs (st, c, q)
nothing-ReadBy client_fd c q rs st v (xs, d) none_left = (
  [],
  same-Kept c v,
  λ h. h,
  λ e. (none_left e, (xs, d), rw (feed-nil (contents c.input), d) all_in),
)

-- What is left of a stream without a request is all of it.
pub cut-rest : (xs ys : Bytes) → cut xs ≡ rest_is ys → ys ≡ xs
cut-rest xs ys e = elim (parse-cases xs) [
  | inl (r, k, p, pos, le) ↦ let c = cut-complete xs r k p in absurd (cc)
  | inr (inl p) ↦ let c = cut-need_more xs p in cc
  | inr (inr p) ↦ let c = cut-invalid xs p in absurd (cc)
]

Admit-left_over :
    {memory : ℕ → Bool} {client_fd : ℕ} {s s' : Stream} {q q' : Fifo}
    → Admit memory client_fd s q ok s' q'
    → left_over s ≡ left_over s'
unfolding left_over
Admit-left_over all_in = refl
Admit-left_over (next h a) = Admit-left_over a

left_over-Drained : (c : Client) → Drained c → left_over (cut (contents c.input)) ≡ contents c.input
unfolding left_over
left_over-Drained c (xs, d) = ap left_over d ∙ cut-rest (contents c.input) xs d

pub room-min :
    (c : Client)
    → IsValid c.input
    → room c ≡ min read_size (c.input.max_size - length (contents c.input))
room-min c v = elim (Bool-cases (ltb (sub_size c.input.max_size c.input.length) read_size)) [
  | inl e ↦ rw e (ground (arith, e, length-contents c.input v))
  | inr e ↦ rw e (ground (arith, e, length-contents c.input v))
]

feed-append : (xs ys zs : Bytes) → feed (cut xs) (ys ++ zs) ≡ feed (feed (cut xs) ys) zs
feed-append xs ys zs =
    sym (cut-append xs (ys ++ zs))
    ∙ ap cut (sym (append_assoc xs ys zs))
    ∙ cut-append (xs ++ ys) zs
    ∙ ap (λ (s : Stream). feed s zs) (cut-append xs ys)

-- The client `c` with the bytes of a read noted, before they are stored.
noted-Kept :
    (c : Client) (xs : Bytes)
    → IsValid c.input
    → Kept c (record c { received = c.received ++ xs }) xs
noted-Kept c xs v = record {
  valid = v;
  limit = refl;
  same_fd = refl;
  same_output = refl;
  same_sent = refl;
  grown = refl;
}

pub stored-Kept :
    (c c' : Client) (xs : Bytes)
    → IsValid c.input
    → Kept (record c { received = c.received ++ xs }) c' []
    → Kept c c' xs
stored-Kept c c' xs v kept =
    let both = Kept-trans (noted-Kept c xs v) kept in rw (append-nil xs) at both

-- A chunk that is stored, and then the further reads.
next_round-ReadBy :
    (client_fd : ℕ) (c : Client) (q : Fifo) (rs : List ReadResult) (xs : Bytes) (realloc : Realloc)
    (memory : ℕ → Bool) (loop : Client → Fifo → Loaded) (x : Loaded)
    → IsValid c.input
    → ((c' : Client)
        → Kept c c' (take (room c) xs)
        → Drained c'
        → (q' : Fifo) → ReadBy client_fd c' q' rs (loop c' q'))
    → (let chunk = take (room c) xs in
        Stored realloc memory client_fd (record c { received = c.received ++ chunk }) q chunk x)
    → ReadBy client_fd c q (got realloc memory xs ∷ rs) (next_round loop x)
unfolding next_round received_by
next_round-ReadBy client_fd c q rs xs realloc memory loop (st, c', q') v rest
      (inl (e, es, ec, eq, why)) =
    rw (es, ec, eq) (take (room c) xs, noted-Kept c (take (room c) xs) v, λ h. h, λ n. cc)
next_round-ReadBy client_fd c q rs xs realloc memory loop (fail e, c', q') v rest (inr (a, kept)) =
    (take (room c) xs, stored-Kept c c' (take (room c) xs) v kept, λ h. Admit-bound a h, λ n. cc)
next_round-ReadBy client_fd c q rs xs realloc memory loop (ok, c', q') v rest (inr (a, kept)) =
    let chunk = take (room c) xs in
    let first = stored-Kept c c' chunk v kept in
    let drained = Admit-drained a in
    let (ys, kept', bound, more_reads) = rest c' first drained q' in
    let left : left_over (feed (cut (contents c.input)) chunk) ≡ contents c'.input =
      Admit-left_over a ∙ left_over-Drained c' drained in
    (
      chunk ++ ys,
      Kept-trans first kept',
      λ h. bound (Admit-bound a h),
      λ e.
          let (ry, d, b) = more_reads e in
          (
            ap (◌++◌ chunk) (
                  ry
                  ∙ ap (λ (m : ℕ). received_by m (contents c'.input) rs) first.limit
                  ∙ ap (λ (held : Bytes). received_by c.input.max_size held rs) (sym left))
                ∙ ap
                    (λ (k : ℕ).
                      take k xs
                      ++ received_by c.input.max_size
                          (left_over (feed (cut (contents c.input)) (take k xs))) rs)
                    (room-min c v),
            d,
            rw (feed-append (contents c.input) chunk ys) (Admit-feed ys a b),
          ),
    )

skip-ReadBy :
    {client_fd : ℕ} {c : Client} {q : Fifo} (rs : List ReadResult) (x : Loaded)
    → ReadBy client_fd c q rs x
    → ReadBy client_fd c q (interrupted ∷ rs) x
unfolding received_by
skip-ReadBy rs (st, c', q') (ys, kept, bound, b) = (ys, kept, bound, b)

on_read-ReadBy :
    (client_fd : ℕ) (before : Errno) (rs : List ReadResult) (loop : Client → Fifo → Loaded)
    (c : Client) (q : Fifo) (r : ReadResult)
    → c.fd ≡ some client_fd
    → IsValid c.input
    → c.input.max_size ≤ input_limit
    → Drained c
    → IsSound r
    → ((c' : Client)
        → (xs : Bytes) → Kept c c' xs
        → Drained c'
        → (q' : Fifo) → ReadBy client_fd c' q' rs (loop c' q'))
    → ReadBy client_fd c q (r ∷ rs) (on_read before loop c q r)
unfolding on_read received_by
on_read-ReadBy client_fd before rs loop c q (got realloc memory xs) fd v l d law rest =
    elim (Bool-cases (length (take (room c) xs) == 0)) [
      | inl e ↦ rw e (
          nothing-ReadBy client_fd c q (got realloc memory xs ∷ rs) (fail before) v d
            (λ n. absurd (cc)))
      | inr f ↦ rw f (
          next_round-ReadBy client_fd c q rs xs realloc memory loop _ v
            (λ c' kept. rest c' (take (room c) xs) kept)
            (store_bytes-Stored client_fd realloc memory
              (record c { received = c.received ++ take (room c) xs }) q (take (room c) xs) fd law v
              l))
    ]
on_read-ReadBy client_fd before rs loop c q end_of_stream fd v l d law rest =
    nothing-ReadBy client_fd c q (end_of_stream ∷ rs) (fail before) v d (λ n. absurd (cc))
on_read-ReadBy client_fd before rs loop c q interrupted fd v l d law rest =
    skip-ReadBy rs (loop c q) (rest c [] (same-Kept c v) d q)
on_read-ReadBy client_fd before rs loop c q would_block fd v l d law rest =
    nothing-ReadBy client_fd c q (would_block ∷ rs) ok v d (λ e. refl)
on_read-ReadBy client_fd before rs loop c q (failed e) fd v l d law rest =
    nothing-ReadBy client_fd c q (failed e ∷ rs) (fail e) v d (λ n. absurd (cc))

-- Reading from a client, whatever the calls of `read()` return, keeps its input well formed and the
-- queue within 256 requests. If it succeeds, exactly the bytes that the reads must have taken, of each result
-- as many as there is room for, have continued the stream of the client, all its complete requests are
-- queued, and the rest waits in the input.
pub read_client-ReadBy :
    (client_fd : ℕ) (before : Errno) (rs : List ReadResult) (c : Client) (q : Fifo)
    → c.fd ≡ some client_fd
    → IsValid c.input
    → c.input.max_size ≤ input_limit
    → Drained c
    → All IsSound rs
    → ReadBy client_fd c q rs (read_client before rs c q)
unfolding read_client received_by
read_client-ReadBy client_fd before [] c q fd v l d law = elim (Bool-cases (room c == 0)) [
  | inl e ↦ rw e (nothing-ReadBy client_fd c q [] (fail emsgsize) v d (λ n. absurd (cc)))
  | inr f ↦ rw f (nothing-ReadBy client_fd c q [] ok v d (λ e. refl))
]
read_client-ReadBy client_fd before (r ∷ rs) c q fd v l d law = elim (Bool-cases (room c == 0)) [
  | inl e ↦
      rw (e, read_client)
        (nothing-ReadBy client_fd c q (r ∷ rs) (fail emsgsize) v d (λ n. absurd (cc)))
  | inr f ↦
      rw (f, read_client)
        (on_read-ReadBy client_fd before rs (read_client before rs) c q r fd v l d law.0
          (λ c' xs kept d' q'.
            read_client-ReadBy client_fd before rs c' q' (kept.same_fd ∙ fd) kept.valid
              (omega (arith, kept.limit)) d' law.1))
]

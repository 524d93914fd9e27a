-- ===== src/Queue/Discard.antt =====
-- `wc_request_queue_discard_client` of src/queue.c against a filter of the list.
use wire_command_c.Common.{
  ℕ, zero, suc, ◌+◌, ◌<◌, ◌≡◌, ◌≢◌, refl, ◌∙◌, ap, none, some, [], ◌∷◌, ◌++◌, arith, true, false,
  length, append_assoc, ◌⊎◌, inl, inr, Bool-cases, ◌==◌, if◌then◌else◌, size_mod, add_size,
}
use wire_command_c.Queue.{
  Pointer, null, QueuedRequest, Heap, Queue, done, ◌>>=◌, unlink, discard_loop, discard_client,
}
use wire_command_c.Queue.Segment.{Placed, node, first, last, Cells, Absent, IsQueue, last-snoc}
use wire_command_c.Queue.Unlink.{unlink-IsQueue}

-- The requests of other clients, in their order.
abbrev pub others : ℕ → Placed → Placed
others client_fd [] = []
others client_fd ((a, x) ∷ r) =
    if x.client_fd == client_fd then others client_fd r else (a, x) ∷ others client_fd r

-- How many requests are the client's.
abbrev pub count_of : ℕ → Placed → ℕ
count_of client_fd [] = 0
count_of client_fd ((a, x) ∷ r) =
    if x.client_fd == client_fd then suc (count_of client_fd r) else count_of client_fd r

-- An address that was not in the queue holds what it held; one that was and is no longer holds nothing.
abbrev pub Released : Queue → Placed → Placed → Queue → Type 0
Released q xs xs' q' =
    (o : Pointer)
    → (Absent o xs → q'.heap o ≡ q.heap o) × (Absent o xs' → Absent o xs ⊎ (q'.heap o ≡ none))

cell_at :
    (h : Heap) (ys zs : Placed) (a : Pointer) (x : QueuedRequest)
    → Cells h (ys ++ (a, x) ∷ zs)
    → (a ≢ null) × (h a ≡ some (node x (first zs)))
cell_at h [] zs a x cs = (cs.0, cs.1)
cell_at h ((b, y) ∷ r) zs a x cs = cell_at h r zs a x cs.2

Absent-insert :
    (o a : Pointer) (x : QueuedRequest) (ys zs : Placed)
    → o ≢ a
    → Absent o (ys ++ zs)
    → Absent o (ys ++ (a, x) ∷ zs)
Absent-insert o a x [] zs n m = (n, m)
Absent-insert o a x ((b, y) ∷ r) zs n m = (m.0, Absent-insert o a x r zs n m.1)

discard_loop-remove :
    (fuel client_fd : ℕ) (q q' : Queue) (a next previous removed : ℕ) (x : QueuedRequest)
    → a ≢ null
    → q.heap a ≡ some (node x next)
    → x.client_fd == client_fd ≡ true
    → unlink q previous a next ≡ done q'
    → discard_loop (suc fuel) client_fd q a previous removed
      ≡ discard_loop fuel client_fd q' next previous (add_size removed 1)
unfolding discard_loop
discard_loop-remove fuel client_fd q q' a next previous removed x z h e u =
    let nz : a == null ≡ false = ground arith in rw (discard_loop, nz, nz, h, ◌>>=◌, e, u)

discard_loop-keep :
    (fuel client_fd : ℕ) (q : Queue) (a next previous removed : ℕ) (x : QueuedRequest)
    → a ≢ null
    → q.heap a ≡ some (node x next)
    → x.client_fd == client_fd ≡ false
    → discard_loop (suc fuel) client_fd q a previous removed
      ≡ discard_loop fuel client_fd q next a removed
unfolding discard_loop
discard_loop-keep fuel client_fd q a next previous removed x z h e =
    let nz : a == null ≡ false = ground arith in rw (discard_loop, nz, nz, h, ◌>>=◌, e)

Absent-delete :
    (o a : Pointer) (x : QueuedRequest) (ys zs : Placed)
    → Absent o (ys ++ (a, x) ∷ zs)
    → Absent o (ys ++ zs)
Absent-delete o a x [] zs m = m.1
Absent-delete o a x ((b, y) ∷ r) zs m = (m.0, Absent-delete o a x r zs m.1)

Released-unlink :
    (q q₁ q' : Queue) (ys zs xs' : Placed) (a : Pointer) (x : QueuedRequest)
    → q₁.heap a ≡ none
    → ((o : Pointer) → Absent o (ys ++ (a, x) ∷ zs) → q₁.heap o ≡ q.heap o)
    → Released q₁ (ys ++ zs) xs' q'
    → Released q (ys ++ (a, x) ∷ zs) xs' q'
Released-unlink q q₁ q' ys zs xs' a x gone same rel o = (
  λ m. (rel o).0 (Absent-delete o a x ys zs m) ∙ same o m,
  λ n. go ((rel o).1 n) (Bool-cases (o == a)),
)
  where
    go :
        Absent o (ys ++ zs) ⊎ (q'.heap o ≡ none)
        → ((o == a) ≡ true) ⊎ ((o == a) ≡ false)
        → Absent o (ys ++ (a, x) ∷ zs) ⊎ (q'.heap o ≡ none)
    go (inr e) _ = inr e
    go (inl m) (inl t) = let at : o ≡ a = ground arith in inr ((rel o).0 m ∙ ap q₁.heap at ∙ gone)
    go (inl m) (inr f) = inl (Absent-insert o a x ys zs (ground arith) m)

-- The loop with the nodes `ys` kept so far and `zs` still to see.
discard_loop-IsQueue :
    (client_fd : ℕ) (zs ys : Placed) (fuel : ℕ) (q : Queue) (removed : ℕ)
    → IsQueue q (ys ++ zs)
    → length zs < fuel
    → removed + length zs < size_mod
    → (q' : Queue) × (discard_loop fuel client_fd q (first zs) (last ys) removed
        ≡ done (removed + count_of client_fd zs, q'))
      × IsQueue q' (ys ++ others client_fd zs)
      × Released q (ys ++ zs) (ys ++ others client_fd zs) q'
discard_loop-IsQueue client_fd [] ys (suc fuel) q removed v f l = (
  q,
  unfold discard_loop in ap (λ (k : ℕ). done (k, q)) (omega arith),
  v,
  λ o. (λ n. refl, λ n. inl n),
)
discard_loop-IsQueue client_fd [] ys zero q removed v f l = absurd (omega arith)
discard_loop-IsQueue client_fd ((a, x) ∷ zs) ys zero q removed v f l = absurd (omega arith)
discard_loop-IsQueue client_fd ((a, x) ∷ zs) ys (suc fuel) q removed v f l =
    let cell = cell_at q.heap ys zs a x v.cells in
    elim (Bool-cases (x.client_fd == client_fd)) [
      | inl e ↦
          let (q₁, e₁, v₁, gone, same) = unlink-IsQueue q ys zs a x v in
          let (q', e', v', rel) =
            discard_loop-IsQueue client_fd zs ys fuel q₁ (removed + 1) v₁ (omega arith)
              (omega arith) in
          let wraps : add_size removed 1 ≡ removed + 1 = omega arith in
          rw e (
            q',
            discard_loop-remove fuel client_fd q q₁ a (first zs) (last ys) removed x cell.0 cell.1 e
                  e₁
                ∙ rw wraps (e' ∙ ap (λ (k : ℕ). done (k, q')) (omega arith)),
            v',
            Released-unlink q q₁ q' ys zs (ys ++ others client_fd zs) a x gone same rel,
          )
      | inr e ↦
          let v₁ = rw (← append_assoc ys ((a, x) ∷ []) zs) at v in
          let (q', e', v', rel) =
            discard_loop-IsQueue client_fd zs (ys ++ (a, x) ∷ []) fuel q removed v₁ (omega arith)
              (omega arith) in
          rw e (
            q',
            discard_loop-keep fuel client_fd q a (first zs) (last ys) removed x cell.0 cell.1 e
                ∙ (rw (last-snoc ys a x) at e'),
            rw (append_assoc ys ((a, x) ∷ []) (others client_fd zs)) at v',
            rw
                (
                  append_assoc ys ((a, x) ∷ []) (others client_fd zs),
                  append_assoc ys ((a, x) ∷ []) zs,
                )
                at rel,
          )
    ]

-- A disconnect takes out every request of that client: the loop ends within its fuel and follows no
-- bad pointer, the result is the number of those requests, the queue then holds the others in their
-- order with head, tail and length in place, and on the heap the removed nodes are freed and nothing
-- outside the queue has changed.
pub discard_client-IsQueue :
    (q : Queue) (client_fd : ℕ) (xs : Placed)
    → IsQueue q xs
    → (q' : Queue) × (discard_client q client_fd ≡ done (count_of client_fd xs, q'))
      × IsQueue q' (others client_fd xs)
      × Released q xs (others client_fd xs) q'
unfolding discard_client
discard_client-IsQueue q client_fd xs v =
    let (q', e, v', rel) =
      discard_loop-IsQueue client_fd xs [] (q.length + 1) q 0 v (omega arith) (omega arith) in
    (
      q',
      ap (λ (p : Pointer). discard_loop (q.length + 1) client_fd q p null 0) v.at_head
          ∙ e
          ∙ ap (λ (k : ℕ). done (k, q')) (omega arith),
      v',
      rel,
    )

-- Nothing of the client is left behind, whatever was queued.
pub count_of-others : (client_fd : ℕ) (xs : Placed) → count_of client_fd (others client_fd xs) ≡ 0
count_of-others client_fd [] = refl
count_of-others client_fd ((a, x) ∷ r) = ground (arith, count_of-others client_fd r)

pub length-others :
    (client_fd : ℕ) (xs : Placed) → length (others client_fd xs) + count_of client_fd xs ≡ length xs
length-others client_fd [] = refl
length-others client_fd ((a, x) ∷ r) = ground (arith, length-others client_fd r)

-- ===== src/Queue/Clear.antt =====
-- `wc_request_queue_clear` of src/queue.c frees every request.
use wire_command_c.Common.{
  ℕ, zero, suc, ◌+◌, ◌<◌, ◌≡◌, ◌≢◌, refl, ◌∙◌, none, some, [], ◌∷◌, arith, true, false, length, ◌⊎◌,
  inl, inr, Bool-cases, ◌==◌,
}
use wire_command_c.Queue.{
  Pointer, null, QueuedRequest, Heap, Queue, done, ◌>>=◌, write, clear_loop, clear,
}
use wire_command_c.Queue.Segment.{
  Placed, node, first, Cells, Absent, Distinct, IsQueue, Cells-write,
}

-- An address that is not in the list holds what it held, and the others hold nothing.
abbrev pub Cleared : Heap → Placed → Heap → Type 0
Cleared h xs h' = (o : Pointer) → (Absent o xs → h' o ≡ h o) × (Absent o xs ⊎ (h' o ≡ none))

clear_loop-step :
    (fuel : ℕ) (h : Heap) (a next : Pointer) (x : QueuedRequest)
    → a ≢ null
    → h a ≡ some (node x next)
    → clear_loop (suc fuel) h a ≡ clear_loop fuel (write h a none) next
unfolding clear_loop
clear_loop-step fuel h a next x z e =
    let nz : a == null ≡ false = ground arith in rw (clear_loop, nz, nz, e, ◌>>=◌)

clear_loop-frees :
    (fuel : ℕ) (h : Heap) (xs : Placed)
    → length xs < fuel
    → Cells h xs
    → Distinct xs
    → (h' : Heap) × (clear_loop fuel h (first xs) ≡ done h') × Cleared h xs h'
clear_loop-frees zero h xs f cs d = absurd (omega arith)
clear_loop-frees (suc fuel) h [] f cs d = (h, unfold clear_loop in refl, λ o. (λ m. refl, inl tt))
clear_loop-frees (suc fuel) h ((a, x) ∷ r) f cs d =
    let (h', e, rel) =
      clear_loop-frees fuel (write h a none) r (omega arith) (Cells-write h a none r d.0 cs.2)
        d.1 in
    (
      h',
      clear_loop-step fuel h a (first r) x cs.0 cs.1 ∙ e,
      λ o. (λ m. kept h' o m ((rel o).0 m.1), freed h' o (rel o) (Bool-cases (o == a))),
    )
  where
    kept : (h' : Heap) (o : Pointer) → Absent o ((a, x) ∷ r) → h' o ≡ write h a none o → h' o ≡ h o
    kept h' o m p = let other : o == a ≡ false = ground (arith, m.0) in rw other at p

    freed :
        (h' : Heap) (o : Pointer)
        → (Absent o r → h' o ≡ write h a none o) × (Absent o r ⊎ (h' o ≡ none))
        → ((o == a) ≡ true) ⊎ ((o == a) ≡ false)
        → Absent o ((a, x) ∷ r) ⊎ (h' o ≡ none)
    freed h' o (same, inr p) _ = inr p
    freed h' o (same, inl m) (inl t) = inr (rw t at (same m))
    freed h' o (same, inl m) (inr n) = inl (ground arith, m)

-- Clearing ends within its fuel and follows no bad pointer; the queue is then empty, each of its nodes
-- is freed, and nothing else on the heap has changed.
pub clear-IsQueue :
    (q : Queue) (xs : Placed)
    → IsQueue q xs
    → (q' : Queue) × (clear q ≡ done q') × IsQueue q' [] × Cleared q.heap xs q'.heap
unfolding clear
clear-IsQueue q xs v =
    let (h', e, rel) = clear_loop-frees (q.length + 1) q.heap xs (omega arith) v.cells v.distinct in
    (
      record { heap = h'; head = null; tail = null; length = 0 },
      rw (v.at_head, e),
      ground arith,
      rel,
    )

-- ===== src/Queue/Segment.antt =====
-- The list that a queue of src/queue.c stands for: the nodes on the heap from `head` on, with their
-- addresses.
use wire_command_c.Common.{
  ◌<◌, ◌≡◌, ◌≢◌, refl, sym, ap, Option, none, some, List, [], ◌∷◌, ◌++◌, arith, length, size_mod,
  map,
}
use wire_command_c.Queue.{Pointer, null, QueuedRequest, Node, Heap, Queue, write}

abbrev pub Placed : Type 0
Placed = List (Pointer × QueuedRequest)

abbrev pub node : QueuedRequest → Pointer → Node
node x next = record { request = x; next = next }

abbrev pub first : Placed → Pointer
first [] = null
first ((a, x) ∷ r) = a

abbrev pub last : Placed → Pointer
last [] = null
last ((a, x) ∷ []) = a
last ((a, x) ∷ (b, y) ∷ r) = last ((b, y) ∷ r)

-- Each node is on the heap at its address and points to the next one.
abbrev pub Cells : Heap → Placed → Type 0
Cells h [] = Unit {0}
Cells h ((a, x) ∷ r) = (a ≢ null) × (h a ≡ some (node x (first r))) × Cells h r

-- The address is none of those of the list.
abbrev pub Absent : Pointer → Placed → Type 0
Absent p [] = Unit {0}
Absent p ((a, x) ∷ r) = (p ≢ a) × Absent p r

abbrev pub Distinct : Placed → Type 0
Distinct [] = Unit {0}
Distinct ((a, x) ∷ r) = Absent a r × Distinct r

-- The representation invariant: head, tail and length are those of the list, and its nodes stand on
-- the heap at distinct addresses.
pub record IsQueue (q : Queue) (xs : Placed) : Type 0 where
  pub at_head : q.head ≡ first xs
  pub at_tail : q.tail ≡ last xs
  pub counted : q.length ≡ length xs
  pub bounded : length xs < size_mod
  pub cells : Cells q.heap xs
  pub distinct : Distinct xs

-- The requests, oldest first: the abstract queue.
abbrev pub requests : Placed → List QueuedRequest
requests = map (λ x. x.1)

pub Cells-write :
    (h : Heap) (p : Pointer) (c : Option Node) (xs : Placed)
    → Absent p xs
    → Cells h xs
    → Cells (write h p c) xs
Cells-write h p c [] n cs = tt
Cells-write h p c ((a, x) ∷ r) n cs = (cs.0, ground arith, Cells-write h p c r n.1 cs.2)

pub Absent-append : (p : Pointer) (xs ys : Placed) → Absent p xs → Absent p ys → Absent p (xs ++ ys)
Absent-append p [] ys a b = b
Absent-append p ((c, x) ∷ r) ys a b = (a.0, Absent-append p r ys a.1 b)

pub Absent-append_left : (p : Pointer) (xs ys : Placed) → Absent p (xs ++ ys) → Absent p xs
Absent-append_left p [] ys a = tt
Absent-append_left p ((c, x) ∷ r) ys a = (a.0, Absent-append_left p r ys a.1)

pub Absent-append_right : (p : Pointer) (xs ys : Placed) → Absent p (xs ++ ys) → Absent p ys
Absent-append_right p [] ys a = a
Absent-append_right p ((c, x) ∷ r) ys a = Absent-append_right p r ys a.1

-- An address that holds no node is none of those of the list.
pub Absent-fresh : (h : Heap) (p : Pointer) (xs : Placed) → h p ≡ none → Cells h xs → Absent p xs
Absent-fresh h p [] e cs = tt
Absent-fresh h p ((a, x) ∷ r) e cs = (λ same. let e' = ap h same in cc, Absent-fresh h p r e cs.2)

pub Distinct-snoc :
    (xs : Placed) (p : Pointer) (x : QueuedRequest)
    → Absent p xs
    → Distinct xs
    → Distinct (xs ++ (p, x) ∷ [])
Distinct-snoc [] p x n d = (tt, tt)
Distinct-snoc ((a, y) ∷ r) p x n d =
    (Absent-append a r ((p, x) ∷ []) d.0 (λ e. n.0 (sym e), tt), Distinct-snoc r p x n.1 d.1)

pub last-snoc : (xs : Placed) (p : Pointer) (x : QueuedRequest) → last (xs ++ (p, x) ∷ []) ≡ p
last-snoc [] p x = refl
last-snoc ((a, y) ∷ []) p x = refl
last-snoc ((a, y) ∷ (b, z) ∷ r) p x = last-snoc ((b, z) ∷ r) p x

-- The last node is one of the list's, and is on the heap.
pub last-ne_of_Absent :
    (p a : Pointer) (x : QueuedRequest) (r : Placed) → Absent p ((a, x) ∷ r) → last ((a, x) ∷ r) ≢ p
last-ne_of_Absent p a x [] n e = n.0 (sym e)
last-ne_of_Absent p a x ((b, y) ∷ r) n e = last-ne_of_Absent p b y r n.1 e

pub last-cell :
    (h : Heap) (a : Pointer) (x : QueuedRequest) (r : Placed)
    → Cells h ((a, x) ∷ r)
    → (last ((a, x) ∷ r) ≢ null) × ((n : Node) × (h (last ((a, x) ∷ r)) ≡ some n))
last-cell h a x [] cs = (cs.0, (node x null, cs.1))
last-cell h a x ((b, y) ∷ r) cs = last-cell h b y r cs.2

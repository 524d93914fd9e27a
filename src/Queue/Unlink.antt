-- ===== src/Queue/Unlink.antt =====
-- One node taken out of the middle of the list, as the loop of `wc_request_queue_discard_client` of
-- src/queue.c does it.
use wire_command_c.Common.{
  ◌≡◌, ◌≢◌, refl, sym, none, some, [], ◌∷◌, ◌++◌, arith, length-append, sub_size, append-nil, ◌==◌,
  if◌then◌else◌,
}
use wire_command_c.Queue.{Pointer, null, QueuedRequest, Node, Heap, Queue, done, write, unlink}
use wire_command_c.Queue.Segment.{
  Placed, node, first, last, Cells, Absent, Distinct, IsQueue, Cells-write, last-ne_of_Absent,
  Absent-append_left, Absent-append_right, Absent-append,
}

Cells-append_right : (h : Heap) (ys zs : Placed) → Cells h (ys ++ zs) → Cells h zs
Cells-append_right h [] zs cs = cs
Cells-append_right h ((b, y) ∷ r) zs cs = Cells-append_right h r zs cs.2

Distinct-append_right : (ys zs : Placed) → Distinct (ys ++ zs) → Distinct zs
Distinct-append_right [] zs d = d
Distinct-append_right ((b, y) ∷ r) zs d = Distinct-append_right r zs d.1

Distinct-without :
    (ys zs : Placed) (a : Pointer) (x : QueuedRequest)
    → Distinct (ys ++ (a, x) ∷ zs)
    → Distinct (ys ++ zs) × Absent a (ys ++ zs)
Distinct-without [] zs a x d = (d.1, d.0)
Distinct-without ((b, y) ∷ r) zs a x d =
    let rest = Distinct-without r zs a x d.1 in
    let right = Absent-append_right b r ((a, x) ∷ zs) d.0 in
    (
      (Absent-append b r zs (Absent-append_left b r ((a, x) ∷ zs) d.0) right.1, rest.0),
      ((λ e. right.0 (sym e)), rest.1),
    )

-- The cells when the last of `ys` has been made to point past the node `a`, and that node is gone.
Cells-unlink :
    (h : Heap) (n : Node) (b : Pointer) (y : QueuedRequest) (r zs : Placed) (a : Pointer)
    (x : QueuedRequest)
    → h (last ((b, y) ∷ r)) ≡ some n
    → Distinct (((b, y) ∷ r) ++ (a, x) ∷ zs)
    → Cells h (((b, y) ∷ r) ++ (a, x) ∷ zs)
    → Cells
        (write (write h (last ((b, y) ∷ r)) (some (record n { next = first zs }))) a none)
        (((b, y) ∷ r) ++ zs)
Cells-unlink h n b y [] zs a x e d cs =
    (cs.0, ground (arith, d.0.0), Cells-write _ a none zs d.1.0 (Cells-write h b _ zs d.0.1 cs.2.2))
Cells-unlink h n b y ((c, w) ∷ r) zs a x e d cs =
    let right = Absent-append_right b ((c, w) ∷ r) ((a, x) ∷ zs) d.0 in
    let left = Absent-append_left b ((c, w) ∷ r) ((a, x) ∷ zs) d.0 in
    (
      cs.0,
      ground (arith, right.0, last-ne_of_Absent b c w r left),
      Cells-unlink h n c w r zs a x e d.1 cs.2,
    )

last-append :
    (ys zs : Placed) (a : Pointer) (x : QueuedRequest)
    → last (ys ++ (a, x) ∷ zs) ≡ last ((a, x) ∷ zs)
last-append [] zs a x = refl
last-append ((b, y) ∷ []) zs a x = refl
last-append ((b, y) ∷ (c, w) ∷ r) zs a x = last-append ((c, w) ∷ r) zs a x

-- The tail moves back exactly when the last node goes.
tail-without :
    (ys zs : Placed) (a : Pointer) (x : QueuedRequest)
    → Absent a (ys ++ zs)
    → (if last (ys ++ (a, x) ∷ zs) == a then last ys else last (ys ++ (a, x) ∷ zs))
      ≡ last (ys ++ zs)
tail-without ys [] a x n = rw (last-append ys [] a x, append-nil ys) (ground arith)
tail-without ys ((c, w) ∷ zs) a x n =
    rw (last-append ys ((c, w) ∷ zs) a x, last-append ys zs c w)
      (ground (arith, last-ne_of_Absent a c w zs (Absent-append_right a ys ((c, w) ∷ zs) n)))

Cells-append_left :
    (h : Heap) (b : Pointer) (y : QueuedRequest) (r zs : Placed)
    → Cells h (((b, y) ∷ r) ++ zs)
    → (last ((b, y) ∷ r) ≢ null) × ((n : Node) × (h (last ((b, y) ∷ r)) ≡ some n))
Cells-append_left h b y [] zs cs = (cs.0, (node y (first zs), cs.1))
Cells-append_left h b y ((c, w) ∷ r) zs cs = Cells-append_left h c w r zs cs.2

-- Behind any nodes `ys`, of which the last one is `previous`, the node goes and the others stay.
pub unlink-IsQueue :
    (q : Queue) (ys zs : Placed) (a : Pointer) (x : QueuedRequest)
    → IsQueue q (ys ++ (a, x) ∷ zs)
    → (q' : Queue) × (unlink q (last ys) a (first zs) ≡ done q')
      × IsQueue q' (ys ++ zs)
      × (q'.heap a ≡ none)
      × ((o : Pointer) → Absent o (ys ++ (a, x) ∷ zs) → q'.heap o ≡ q.heap o)
unfolding unlink
unlink-IsQueue q [] zs a x v =
    let tail : Pointer = if q.tail == a then null else q.tail in
    (
      record {
        heap = write q.heap a none;
        head = first zs;
        tail = tail;
        length = sub_size q.length 1;
      },
      refl,
      record {
        at_head = refl;
        at_tail = rw v.at_tail (tail-without [] zs a x v.distinct.0);
        counted = omega (arith, v.counted, v.bounded);
        bounded = omega (arith, v.bounded);
        cells = Cells-write q.heap a none zs v.distinct.0 v.cells.2;
        distinct = v.distinct.1;
      },
      ground arith,
      λ o n. ground (arith, n.0),
    )
unlink-IsQueue q ((b, y) ∷ r) zs a x v =
    let cell = Cells-append_left q.heap b y r ((a, x) ∷ zs) v.cells in
    let n : Node = cell.1.0 in
    let tail : Pointer = if q.tail == a then last ((b, y) ∷ r) else q.tail in
    let without = Distinct-without ((b, y) ∷ r) zs a x v.distinct in
    (
      record {
        heap =
            write (write q.heap (last ((b, y) ∷ r)) (some (record n { next = first zs }))) a none;
        head = q.head;
        tail = tail;
        length = sub_size q.length 1;
      },
      ground (arith, cell.0, cell.1.1),
      record {
        at_head = v.at_head;
        at_tail = rw v.at_tail (tail-without ((b, y) ∷ r) zs a x without.1);
        counted =
            omega (arith, v.counted, v.bounded, length-append r ((a, x) ∷ zs), length-append r zs);
        bounded = omega (arith, v.bounded, length-append r ((a, x) ∷ zs), length-append r zs);
        cells = Cells-unlink q.heap n b y r zs a x cell.1.1 v.distinct v.cells;
        distinct = without.0;
      },
      ground arith,
      λ o m. ground (
        arith,
        last-ne_of_Absent o b y r (Absent-append_left o ((b, y) ∷ r) ((a, x) ∷ zs) m),
        (Absent-append_right o ((b, y) ∷ r) ((a, x) ∷ zs) m).0,
      ),
    )

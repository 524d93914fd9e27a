-- ===== src/Commands/Result.antt =====
-- What the commands of src/commands.c hand back: the whole output of the child, or a failure.
use wire_command_c.Common.{
  ℕ, zero, suc, ◌+◌, ◌≤◌, ◌<◌, ◌≡◌, ◌≢◌, refl, ◌∙◌, sym, ap, subst, Bool, true, false, Option, none,
  some, [], ◌∷◌, ◌++◌, arith, ◌⊎◌, inl, inr, Bool-cases, ltb→le, ◌==◌, if◌then◌else◌, ltb, length,
  length-append, length-take, length-drop, take, take_all, take-append-drop, drop, append-nil,
  size_mod, value, Bytes, bytes, Errno, Status, ok, fail, eio, emsgsize, enomem,
}
use wire_command_c.Buffer.{Buffer, Realloc, new_capacity}
use wire_command_c.Buffer.Contents.{IsValid, IsRealloc, contents}
use wire_command_c.Buffer.Laws.{
  Refuses, Refuses-by, Extends, AppendFailure, no_source, too_long, no_memory, append_lem,
}
use wire_command_c.Protocol.Append.{Extends-trans}
use wire_command_c.Commands.{
  read_size, append_chunk, read_loop, finish, run, Child, CommandResult, Shell, bad_exit,
  WaitStatus, wait_failed, exited, killed,
}

-- Why the loop of reads fails, with `left` still to come for the buffer `b`.
-- Some `realloc()` of the run has refused a block.
abbrev Starved : (ℕ → Realloc) → Type 0
Starved realloc = (k : ℕ) × Refuses (realloc k)

abbrev ReadFailure : (ℕ → Realloc) → Bool → Buffer → Bytes → Errno → Type 0
ReadFailure realloc fails b left e =
    ((e ≡ eio) × (fails ≡ true))
    ⊎ (((e ≡ emsgsize) × (b.max_size < b.length + length left)) ⊎ ((e ≡ enomem) × Starved realloc))

abbrev Read : (ℕ → Realloc) → Bool → Buffer → Bytes → Option Errno × Buffer → Type 0
Read realloc fails b left (none, b') = (fails ≡ false) × Extends b left b'
Read realloc fails b left (some e, b') = ReadFailure realloc fails b left e

abbrev ChunkRead : Realloc → Buffer → Bytes → Status × Buffer → Type 0
ChunkRead realloc b chunk (s, b') =
    ((s ≡ ok) × Extends b chunk b')
    ⊎ ((e : Errno) × (s ≡ fail e)
        × (((e ≡ emsgsize) × (b.max_size < b.length + length chunk))
            ⊎ ((e ≡ enomem) × Refuses realloc)))

chunk_failure :
    {realloc : Realloc} {b : Buffer} {chunk : Bytes} {size : ℕ} {e : Errno}
    → AppendFailure realloc b (some chunk) size e
    → ((e ≡ emsgsize) × (b.max_size < b.length + size)) ⊎ ((e ≡ enomem) × Refuses realloc)
chunk_failure (no_source n z) = absurd (cc)
chunk_failure (too_long h) = inl (refl, h)
chunk_failure {b} {size} (no_memory h k refused) =
    inr (refl, Refuses-by b.block (new_capacity b (b.length + size)) refused)

chunk-ChunkRead :
    (realloc : Realloc) (b : Buffer) (chunk : Bytes)
    → IsRealloc realloc
    → IsValid b
    → ChunkRead realloc b chunk (append_chunk realloc b chunk)
unfolding append_chunk
chunk-ChunkRead realloc b [] law v = inl (
  refl,
  record { valid = v; holds = sym (append-nil (contents b)); longer = omega arith; limit = refl },
)
chunk-ChunkRead realloc b (c ∷ cs) law v =
    let full : length (c ∷ cs) == 0 ≡ false = ground arith in
    elim (append_lem realloc b (some (c ∷ cs)) (length (c ∷ cs)) law v (inr (omega arith))) [
      | inl (es, x) ↦
          rw full (inl (es, rw (take_all (length (c ∷ cs)) (c ∷ cs) (omega arith)) at x))
      | inr (e, es, eb, why) ↦ rw full (inr (e, es, chunk_failure why))
    ]

module _ (realloc : ℕ → Realloc) (fails : Bool) (fuel : ℕ) (b : Buffer) (left : Bytes) where
  read_loop-failed :
      (e : Errno)
      → (append_chunk (realloc fuel) b (take read_size left)).0 ≡ fail e
      → read_loop (suc fuel) realloc fails b left
        ≡ (some e, (append_chunk (realloc fuel) b (take read_size left)).1)
  unfolding read_loop
  read_loop-failed e h = rw (read_loop, h)

  read_loop-short :
      ltb (length (take read_size left)) read_size ≡ true
      → (append_chunk (realloc fuel) b (take read_size left)).0 ≡ ok
      → read_loop (suc fuel) realloc fails b left ≡ (
        if fails then some eio else none,
        (append_chunk (realloc fuel) b (take read_size left)).1,
      )
  unfolding read_loop
  read_loop-short short h = rw (read_loop, h, short)

  read_loop-next :
      ltb (length (take read_size left)) read_size ≡ false
      → (append_chunk (realloc fuel) b (take read_size left)).0 ≡ ok
      → read_loop (suc fuel) realloc fails b left
        ≡ read_loop fuel realloc fails
            (append_chunk (realloc fuel) b (take read_size left)).1
            (drop read_size left)
  unfolding read_loop
  read_loop-next long h = rw (read_loop, h, long)

-- A failure later on is a failure now, with more to come.
later :
    (realloc : ℕ → Realloc) (fails : Bool) {b b' : Buffer} (xs ys : Bytes)
    (r : Option Errno × Buffer)
    → Extends b xs b'
    → Read realloc fails b' ys r
    → Read realloc fails b (xs ++ ys) r
later realloc fails {b} {b'} xs ys (none, b'') x (f, y) = (f, Extends-trans x y)
later realloc fails {b} {b'} xs ys (some e, b'') x (inl p) = inl p
later realloc fails {b} {b'} xs ys (some e, b'') x (inr (inl (p, l))) =
    inr (inl (p, omega (arith, x.longer, x.limit, length-append xs ys)))
later realloc fails {b} {b'} xs ys (some e, b'') x (inr (inr p)) = inr (inr p)

last_round :
    (realloc : ℕ → Realloc) (fails : Bool) (b : Buffer) (left : Bytes) {xs : Bytes} (b' : Buffer)
    → xs ≡ left
    → Extends b xs b'
    → Read realloc fails b left (if fails then some eio else none, b')
last_round realloc true b left b' e x = inl (refl, refl)
last_round realloc false b left b' e x = (refl, rw (← e) x)

read_loop-Read :
    (fuel : ℕ) (realloc : ℕ → Realloc) (fails : Bool) (b : Buffer) (left : Bytes)
    → ((k : ℕ) → IsRealloc (realloc k))
    → IsValid b
    → length left < fuel
    → Read realloc fails b left (read_loop fuel realloc fails b left)
read_loop-Read zero realloc fails b left law v f = absurd (omega arith)
read_loop-Read (suc fuel) realloc fails b left law v f =
    elim (chunk-ChunkRead (realloc fuel) b (take read_size left) (law fuel) v) [
      | inr (e, es, inl (p, l)) ↦
          rw (read_loop-failed realloc fails fuel b left e es)
            (inr (inl (p, omega (arith, length-take read_size left))))
      | inr (e, es, inr p) ↦
          rw (read_loop-failed realloc fails fuel b left e es) (inr (inr (p.0, (fuel, p.1))))
      | inl (es, x) ↦ elim (Bool-cases (ltb (length (take read_size left)) read_size)) [
        | inl short ↦ rw (read_loop-short realloc fails fuel b left short es) (
            last_round realloc fails b left _
              (take_all read_size left (ground (arith, short, length-take read_size left))) x)
        | inr long ↦ rw (read_loop-next realloc fails fuel b left long es) (
            subst
              (λ (t : Bytes). Read realloc fails b t (
                read_loop fuel realloc fails (append_chunk (realloc fuel) b (take read_size left)).1
                  (drop read_size left)))
              (take-append-drop read_size left)
              (later realloc fails (take read_size left) (drop read_size left) _ x (
                read_loop-Read fuel realloc fails _ (drop read_size left) law x.valid (
                  omega (
                    arith,
                    length-drop read_size left,
                    length-take read_size left,
                    ltb→le (length (take read_size left)) read_size long,
                  )))))
      ]
    ]

exited-zero : (status : WaitStatus) → bad_exit status ≡ false → status ≡ exited 0
exited-zero wait_failed h = cc
exited-zero (exited n) h = ap exited (ground arith)
exited-zero killed h = cc

ne-exited_zero : (status : WaitStatus) → bad_exit status ≡ true → status ≢ exited 0
ne-exited_zero status h e = let h' = rw e at h in cc

-- The two ends of a run.
abbrev pub Ran : (ℕ → Realloc) → Child → ℕ → CommandResult → Status × CommandResult → Type 0
Ran realloc child max_size before (s, r) =
    ((s ≡ ok)
      × (child.status ≡ exited 0)
      × (child.read_fails ≡ false)
      × (length child.output ≤ max_size)
      × (r.length ≡ length child.output)
      × (take r.length (bytes r.block) ≡ child.output))
    ⊎ ((e : Errno) × (s ≡ fail e)
        × (r ≡ before)
        × (((e ≡ eio) × ((child.read_fails ≡ true) ⊎ (child.status ≢ exited 0)))
            ⊎ (((e ≡ emsgsize) × (max_size < length child.output))
                ⊎ ((e ≡ enomem) × Starved realloc))))

finish-Ran :
    (realloc : ℕ → Realloc) (child : Child) (b : Buffer) (before : CommandResult)
    (r : Option Errno × Buffer)
    → b.length ≡ 0
    → Read realloc child.read_fails b child.output r
    → Ran realloc child b.max_size before (finish child.status r before)
unfolding finish
finish-Ran realloc child b before (some e, b') z (inl (p, f)) = inr (e, refl, refl, inl (p, inl f))
finish-Ran realloc child b before (some e, b') z (inr (inl (p, l))) =
    inr (e, refl, refl, inr (inl (p, omega arith)))
finish-Ran realloc child b before (some e, b') z (inr (inr p)) = inr (e, refl, refl, inr (inr p))
finish-Ran realloc child b before (none, b') z (f, x) = elim (Bool-cases (bad_exit child.status)) [
  | inl bad ↦ rw bad (inr (eio, refl, refl, inl (refl, inr (ne-exited_zero child.status bad))))
  | inr good ↦ rw good (
      inl (
        refl,
        exited-zero child.status good,
        f,
        omega (arith, x.longer, x.limit, x.valid.within, x.valid.bounded),
        omega (arith, x.longer),
        x.holds ∙ ap (λ (k : ℕ). take k (bytes b.block) ++ child.output) z,
      ))
]

-- When the shell gives a child for the command, the run ends in one of two ways. It succeeds, and then
-- the child ended with status 0, its output could be read to the end and keeps to `max_size`, and the
-- result is that output, whole. Or it fails and leaves the result as it was: with EIO if reading failed
-- or the child ended badly, with EMSGSIZE if the output is too long, or with ENOMEM if some `realloc()` refuses a block.
pub run_lem :
    (shell : Shell) (realloc : ℕ → Realloc) (command : Bytes) (max_size : ℕ)
    (before : CommandResult) (child : Child)
    → ((k : ℕ) → IsRealloc (realloc k))
    → max_size < size_mod
    → shell command ≡ value child
    → Ran realloc child max_size before (run shell realloc command max_size before)
unfolding run
run_lem shell realloc command max_size before child law small e =
    let start : Buffer = record { block = none; length = 0; capacity = 0; max_size = max_size } in
    let valid : IsValid start = omega arith in
    rw (e, run)
      (finish-Ran realloc child start before _ refl (
        read_loop-Read (suc (length child.output)) realloc child.read_fails start child.output law
          valid (omega arith)))

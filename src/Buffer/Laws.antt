-- ===== src/Buffer/Laws.antt =====
-- What `wc_buffer_append` and `wc_buffer_consume` of src/buffer.c do to the bytes that a buffer holds.
use wire_command_c.Common.{
  length-take, add_size, Bool-cases, is_null, ◌&&◌, not, ◌==◌, ltb, sub_size, ℕ, ◌+◌, ◌-◌, ◌≤◌, ◌<◌,
  ◌≡◌, ◌≢◌, refl, ◌∙◌, sym, ap, ◌⊎◌, inl, inr, Option, none, some, ◌++◌, arith, length, take, drop,
  Option-cases, append-nil, size_mod, Errno, Status, ok, fail, einval, emsgsize, enomem, Bytes,
  bytes,
}
use wire_command_c.Buffer.{
  Buffer, Realloc, memmove, grow, copy_in, init, append, consume, new_capacity,
}
use wire_command_c.Buffer.Grow.{new_capacity_bounds}
use wire_command_c.Buffer.Contents.{
  contents, IsValid, IsRealloc, length-memcpy, take-memcpy, length-memmove, take-memmove,
}

-- An empty buffer with a limit that a `size_t` can hold is well formed.
pub init-IsValid : (b : Buffer) (n : ℕ) → n < size_mod → IsValid (init b n).1
unfolding init
init-IsValid b n h = omega arith

-- A call of `realloc()` that gets no block.
pub record Refuses (realloc : Realloc) : Type 0 where
  pub block : Option Bytes
  pub size : ℕ
  pub refused : realloc block size ≡ none

pub Refuses-by :
    {realloc : Realloc} (p : Option Bytes) (n : ℕ) → realloc p n ≡ none → Refuses realloc
Refuses-by p n e = record { block = p; size = n; refused = e }

-- The two ends of `wc_buffer_grow`: `realloc()` has refused and nothing has changed, or room and the same contents.
abbrev pub Grown : Realloc → Buffer → ℕ → Status × Buffer → Type 0
Grown realloc b required (s, b') =
    ((s ≡ fail enomem)
      × (b' ≡ b)
      × (b.capacity < required)
      × (realloc b.block (new_capacity b required) ≡ none))
    ⊎ ((s ≡ ok)
        × IsValid b'
        × (required ≤ b'.capacity)
        × (b'.length ≡ b.length)
        × (b'.max_size ≡ b.max_size)
        × (contents b' ≡ contents b))

grow-Grown :
    (realloc : Realloc) (b : Buffer) (required : ℕ)
    → IsRealloc realloc
    → IsValid b
    → required ≤ b.max_size
    → Grown realloc b required (grow realloc b required)
unfolding grow
grow-Grown realloc b required law v h =
    elim (Option-cases (realloc b.block (new_capacity b required))) [
      | inl e ↦ ground (arith, e)
      | inr (q, e) ↦ ground (
        arith,
        e,
        law.size b.block (new_capacity b required) q e,
        law.keeps b.block (new_capacity b required) q b.length e,
        new_capacity_bounds b required v.bounded v.sized,
      )
    ]

-- The buffer `b'` holds the bytes of `b` and then `xs`.
pub record Extends (b : Buffer) (xs : Bytes) (b' : Buffer) : Type 0 where
  pub valid : IsValid b'
  pub holds : contents b' ≡ contents b ++ xs
  pub longer : b'.length ≡ b.length + length xs
  pub limit : b'.max_size ≡ b.max_size

-- A region of `size` bytes at `src` may be read; NULL is passed with any size.
abbrev pub IsReadable : Option Bytes → ℕ → Type 0
IsReadable src size = (src ≡ none) ⊎ (size ≤ length (bytes src))

copy_in-Extends :
    (src : Option Bytes) (size : ℕ) (b : Buffer) (block : Option Bytes)
    → b.block ≡ block
    → IsValid b
    → 0 < size
    → b.length + size ≤ b.capacity
    → size ≤ length (bytes src)
    → ((copy_in src size (ok, b)).0 ≡ ok)
      × Extends b (take size (bytes src)) (copy_in src size (ok, b)).1
unfolding copy_in
copy_in-Extends src size b none e v p room given =
    absurd (omega (arith, v.allocated, ap (λ (o : Option Bytes). length (bytes o)) e))
copy_in-Extends src size b (some xs) e v p room given = (
  refl,
  record {
    valid = ground (arith, e, all, length-memcpy xs src b.length size fits given);
    holds = rw (e, wraps) (take-memcpy xs src b.length size fits given (b.length + size) refl);
    longer = omega (arith, length-take size (bytes src));
    limit = refl;
  },
)
  where
    all : length xs ≡ b.capacity
    all = rw e at v.allocated

    fits : b.length + size ≤ length xs
    fits = omega (arith, all)

    wraps : add_size b.length size ≡ b.length + size
    wraps = omega arith

-- Why a failing append fails, with the buffer as it was.
pub data AppendFailure (realloc : Realloc) (b : Buffer) (src : Option Bytes) (size : ℕ)
    : Errno → Type 0 where
  no_source : src ≡ none → size ≢ 0 → AppendFailure realloc b src size einval
  too_long : b.max_size < b.length + size → AppendFailure realloc b src size emsgsize
  no_memory :
      b.capacity < b.length + size
      → b.length + size ≤ b.max_size
      → realloc b.block (new_capacity b (b.length + size)) ≡ none
      → AppendFailure realloc b src size enomem

-- The two ends of an append: the bytes are behind the old contents, or nothing has changed.
abbrev pub Appended : Realloc → Buffer → Option Bytes → ℕ → Status × Buffer → Type 0
Appended realloc b src size (s, b') =
    ((s ≡ ok) × Extends b (take size (bytes src)) b')
    ⊎ ((e : Errno) × (s ≡ fail e) × (b' ≡ b) × AppendFailure realloc b src size e)

nothing-Extends : (b : Buffer) (src : Option Bytes) → IsValid b → Extends b (take 0 (bytes src)) b
nothing-Extends b src v = record {
  valid = v;
  holds = sym (append-nil (contents b));
  longer = omega arith;
  limit = refl;
}

Extends-grown :
    {b b' b'' : Buffer} {xs : Bytes}
    → contents b' ≡ contents b
    → b'.length ≡ b.length
    → b'.max_size ≡ b.max_size
    → Extends b' xs b''
    → Extends b xs b''
Extends-grown {b} {b'} {b''} {xs} c l m x = record {
  valid = x.valid;
  holds = x.holds ∙ ap (λ (t : Bytes). t ++ xs) c;
  longer = omega (arith, x.longer);
  limit = x.limit ∙ m;
}

copied-Appended :
    (realloc : Realloc) (b : Buffer) (src : Option Bytes) (size required : ℕ) (r : Status × Buffer)
    → required ≡ b.length + size
    → required ≤ b.max_size
    → 0 < size
    → size ≤ length (bytes src)
    → Grown realloc b required r
    → Appended realloc b src size (copy_in src size r)
unfolding copy_in
copied-Appended realloc b src size required (s, b') e room p given (inl (es, eb, over, refused)) =
    rw (es, copy_in)
      (inr (enomem, refl, eb, no_memory (omega arith) (omega arith) (rw e at refused)))
copied-Appended realloc b src size required (s, b') e room p given (inr (es, v, big, el, em, ec)) =
    let made = copy_in-Extends src size b' b'.block refl v p (omega arith) given in
    rw es (inl (made.0, Extends-grown ec el em made.1))

pub append_lem :
    (realloc : Realloc) (b : Buffer) (src : Option Bytes) (size : ℕ)
    → IsRealloc realloc
    → IsValid b
    → IsReadable src size
    → Appended realloc b src size (append realloc b src size)
unfolding append
append_lem realloc b src size law v r = elim (Bool-cases (is_null src && not (size == 0))) [
  | inl e ↦ rw e (inr (einval, refl, refl, no_source (ground arith) (ground arith)))
  | inr f ↦ elim (Bool-cases (ltb (sub_size b.max_size b.length) size)) [
    | inl e ↦ rw (f, e) (inr (emsgsize, refl, refl, too_long (ground (arith, e))))
    | inr g ↦ elim (Bool-cases (size == 0)) [
      | inl e ↦
          rw (f, g, e)
            (inl (refl, rw (let z : size ≡ 0 = ground arith in z) (nothing-Extends b src v)))
      | inr h ↦
          rw (f, g, h)
            (copied-Appended realloc b src size (add_size b.length size) _ (ground (arith, g))
              (ground (arith, g)) (ground arith) (ground arith)
              (grow-Grown realloc b (add_size b.length size) law v (ground (arith, g))))
    ]
  ]
]

consumed :
    (b : Buffer) (n left : ℕ) (block : Option Bytes)
    → b.block ≡ block
    → IsValid b
    → n + left ≡ b.length
    → 0 < n
    → let b' = record b { block = memmove b.block n left; length = left } in
      IsValid b' × (contents b' ≡ drop n (contents b))
consumed b n left none e v m p =
    absurd (omega (arith, v.allocated, ap (λ (o : Option Bytes). length (bytes o)) e))
consumed b n left (some xs) e v m p = (
  ground (arith, e, all, length-memmove xs n left fits),
  rw e (take-memmove xs n left fits b.length (sym m)),
)
  where
    all : length xs ≡ b.capacity
    all = rw e at v.allocated

    fits : n + left ≤ length xs
    fits = omega (arith, all)

-- `wc_buffer_consume` removes `n` bytes from the front and keeps the others in order, if there are as
-- many; otherwise it fails with EINVAL and changes nothing.
pub consume_lem :
    (b : Buffer) (n : ℕ)
    → IsValid b
    → let (s, b') = consume b n in
      IsValid b'
      × (b'.max_size ≡ b.max_size)
      × (((s ≡ ok)
            × (n ≤ b.length)
            × (contents b' ≡ drop n (contents b))
            × (b'.length ≡ b.length - n))
          ⊎ ((s ≡ fail einval) × (b.length < n) × (b' ≡ b)))
unfolding consume
consume_lem b n v = elim (Bool-cases (ltb b.length n)) [
  | inl e ↦ rw e (v, refl, inr (refl, ground (arith, e), refl))
  | inr f ↦ elim (Bool-cases (n == 0)) [
    | inl e ↦
        let z : n ≡ 0 = ground arith in
        rw (f, e)
          (
            v,
            refl,
            inl (refl, omega arith, ap (λ (k : ℕ). drop k (contents b)) (sym z), omega arith),
          )
    | inr g ↦
        let left : sub_size b.length n ≡ b.length - n = ground (arith, f) in
        let made = consumed b n (b.length - n) b.block refl v (ground (arith, f)) (ground arith) in
        rw (f, g, left) (made.0, refl, inl (refl, ground (arith, f), made.1, refl))
  ]
]

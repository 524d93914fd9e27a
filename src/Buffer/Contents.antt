-- ===== src/Buffer/Contents.antt =====
-- What a buffer of src/buffer.c holds, when it is well formed, and the block after `memcpy` and
-- `memmove`.
use wire_command_c.Common.{
  ℕ, ◌+◌, ◌≤◌, ◌<◌, ◌≡◌, ◌∙◌, ap, Option, some, ◌++◌, arith, length, take, drop, length-append,
  length-take, length-drop, take-take, take-append_le, take-append_add, take-drop, size_mod, Bytes,
  bytes,
}
use wire_command_c.Buffer.{Buffer, Realloc, memcpy, memmove}

-- The bytes between `data` and `data + length`.
abbrev pub contents : Buffer → Bytes
contents b = take b.length (bytes b.block)

-- The block has `capacity` bytes, `length` of them in use, and `capacity` keeps to `max_size`.
pub record IsValid (b : Buffer) : Type 0 where
  pub within : b.length ≤ b.capacity
  pub bounded : b.capacity ≤ b.max_size
  pub sized : b.max_size < size_mod
  pub allocated : length (bytes b.block) ≡ b.capacity

-- What C says of `realloc()`: a block that it returns has the size asked for, and begins with the old
-- bytes as far as both blocks go.
pub record IsRealloc (realloc : Realloc) : Type 0 where
  pub size : (p : Option Bytes) (n : ℕ) (q : Bytes) → realloc p n ≡ some q → length q ≡ n
  pub keeps :
      (p : Option Bytes) (n : ℕ) (q : Bytes) (k : ℕ)
      → realloc p n ≡ some q
      → k ≤ length (bytes p)
      → k ≤ n
      → take k q ≡ take k (bytes p)

pub length-contents : (b : Buffer) → IsValid b → length (contents b) ≡ b.length
length-contents b v = omega (arith, length-take b.length (bytes b.block))

module _ (xs : Bytes) (src : Option Bytes) (start size : ℕ) (room : start + size ≤ length xs)
    (given : size ≤ length (bytes src)) where
  -- A copy within the block keeps its size.
  pub length-memcpy : length (bytes (memcpy (some xs) start src size)) ≡ length xs
  length-memcpy = omega (
    arith,
    length-append (take start xs) (take size (bytes src) ++ drop (start + size) xs),
    length-append (take size (bytes src)) (drop (start + size) xs),
    length-take start xs,
    length-take size (bytes src),
    length-drop (start + size) xs,
  )

  pub take-memcpy :
      (n : ℕ)
      → n ≡ start + size
      → take n (bytes (memcpy (some xs) start src size)) ≡ take start xs ++ take size (bytes src)
  take-memcpy n e =
      take-append_add n size (take start xs) _ (omega (arith, length-take start xs))
      ∙ ap (λ (t : Bytes). take start xs ++ t)
          (take-append_le size (take size (bytes src)) _
              (omega (arith, length-take size (bytes src)))
            ∙ take-take size size (bytes src) (omega arith))

module _ (xs : Bytes) (from size : ℕ) (room : from + size ≤ length xs) where
  pub length-memmove : length (bytes (memmove (some xs) from size)) ≡ length xs
  length-memmove = omega (
    arith,
    length-append (take size (drop from xs)) (drop size xs),
    length-take size (drop from xs),
    length-drop from xs,
    length-drop size xs,
  )

  -- The bytes moved to the front are those from `from` on.
  pub take-memmove :
      (n : ℕ)
      → n ≡ from + size
      → take size (bytes (memmove (some xs) from size)) ≡ drop from (take n xs)
  take-memmove n e =
      take-append_le size (take size (drop from xs)) _
        (omega (arith, length-take size (drop from xs), length-drop from xs))
      ∙ take-take size size (drop from xs) (omega arith)
      ∙ take-drop from size n xs e

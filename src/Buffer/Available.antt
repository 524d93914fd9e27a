-- ===== src/Buffer/Available.antt =====
-- An append of src/buffer.c while there is memory.
use wire_command_c.Common.{
  ℕ, ◌≡◌, ◌≢◌, Option-cases, inl, inr, Option, none, arith, add_size, ok, fail, enomem, Bytes,
}
use wire_command_c.Buffer.{Buffer, Realloc, grow, copy_in, append, new_capacity}

grow-available :
    (realloc : Realloc) (b : Buffer) (required : ℕ)
    → ((p : Option Bytes) (n : ℕ) → realloc p n ≢ none)
    → (grow realloc b required).0 ≡ ok
unfolding grow
grow-available realloc b required memory =
    elim (Option-cases (realloc b.block (new_capacity b required))) [
      | inl e ↦ absurd (memory b.block (new_capacity b required) e)
      | inr (q, e) ↦ ground (arith, e)
    ]

-- An append does not fail with ENOMEM if `realloc()` finds memory.
pub append-available :
    (realloc : Realloc) (b : Buffer) (src : Option Bytes) (size : ℕ)
    → ((p : Option Bytes) (n : ℕ) → realloc p n ≢ none)
    → (append realloc b src size).0 ≢ fail enomem
unfolding append copy_in
append-available realloc b src size memory e =
    let grown = grow-available realloc b (add_size b.length size) memory in ground (arith, grown)

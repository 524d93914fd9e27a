-- ===== src/Buffer/Ptr.antt =====
-- The functions of src/buffer.c as they are called, through a pointer to the buffer: NULL fails with
-- EINVAL, and is let pass by `destroy`.
use wire_command_c.Common.{ℕ, Option, Bytes, Status, on_object, some, none}
use wire_command_c.Buffer.{
  Buffer, Realloc, init as init_at, append as append_at, consume as consume_at,
  destroy as destroy_at,
}

unfoldable pub init : Option Buffer → ℕ → Status × Option Buffer
init buffer max_size = on_object buffer λ b. init_at b max_size

unfoldable pub append : Realloc → Option Buffer → Option Bytes → ℕ → Status × Option Buffer
append realloc buffer src size = on_object buffer λ b. append_at realloc b src size

unfoldable pub consume : Option Buffer → ℕ → Status × Option Buffer
consume buffer size = on_object buffer λ b. consume_at b size

unfoldable pub destroy : Option Buffer → Option Buffer
destroy none = none
destroy (some b) = some (destroy_at b)

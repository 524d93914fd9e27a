-- ===== src/Buffer/Examples.antt =====
-- The theorems on src/buffer.c at concrete buffers, and runs of its functions.
use wire_command_c.Common.{
  ◌-◌, ◌≤◌, ◌<◌, ◌≡◌, refl, ◌⊎◌, none, some, [], ◌∷◌, arith, drop, ok, fail, einval, enomem,
}
use wire_command_c.Buffer.{append, consume, new_capacity}
use wire_command_c.Buffer.Grow.{new_capacity_bounds}
use wire_command_c.Buffer.Contents.{contents, IsValid}
use wire_command_c.Buffer.Laws.{consume_lem}
use wire_command_c.Buffer.Plain.{plain_realloc, empty_buffer, small_buffer, small_buffer-IsValid}

append_runs :
    contents (append plain_realloc small_buffer (some (1 ∷ 2 ∷ [])) 2).1 ≡ 7 ∷ 8 ∷ 9 ∷ 1 ∷ 2 ∷ []
unfolding append new_capacity
append_runs = refl

append_without_memory :
    append (λ p n. none) small_buffer (some (1 ∷ 2 ∷ [])) 2 ≡ (fail enomem, small_buffer)
unfolding append new_capacity
append_without_memory = refl

consume_runs : contents (consume small_buffer 1).1 ≡ 8 ∷ 9 ∷ []
unfolding consume
consume_runs = refl

new_capacity_runs : new_capacity empty_buffer 65 ≡ 100
unfolding new_capacity
new_capacity_runs = refl

new_capacity_bounds_example :
    (65 ≤ new_capacity empty_buffer 65)
    × (new_capacity empty_buffer 65 ≤ 100)
    × (0 ≤ new_capacity empty_buffer 65)
new_capacity_bounds_example =
    new_capacity_bounds empty_buffer 65 (omega arith) (omega arith) (omega arith) (omega arith)

consume_lem_example :
    let (s, b') = consume small_buffer 2 in
    IsValid b'
    × (b'.max_size ≡ 100)
    × (((s ≡ ok) × (2 ≤ 3) × (contents b' ≡ drop 2 (contents small_buffer)) × (b'.length ≡ 3 - 2))
        ⊎ ((s ≡ fail einval) × (3 < 2) × (b' ≡ small_buffer)))
consume_lem_example = consume_lem small_buffer 2 small_buffer-IsValid

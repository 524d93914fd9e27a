-- ===== src/Buffer/Grow.antt =====
-- How far the loop of `wc_buffer_grow` of src/buffer.c runs, and the capacity that it finds.
use wire_command_c.Common.{ℕ, zero, suc, ◌+◌, ◌*◌, ◌≤◌, ◌<◌, arith, size_mod}
use wire_command_c.Buffer.{Buffer, grow_loop, first_capacity, new_capacity}

-- A round adds one at least, so that `required` rounds are enough for the loop to end by its test.
grow_loop_bounds :
    (fuel c required max_size : ℕ)
    → 0 < c
    → c ≤ max_size
    → required ≤ max_size
    → max_size < size_mod
    → required ≤ c + fuel
    → (required ≤ grow_loop fuel c required max_size)
      × (grow_loop fuel c required max_size ≤ max_size)
      × (c ≤ grow_loop fuel c required max_size)
unfolding grow_loop
grow_loop_bounds zero c required max_size p h k m e = omega arith
grow_loop_bounds (suc fuel) c required max_size p h k m e = ground (
  arith,
  grow_loop_bounds fuel max_size required max_size,
  grow_loop_bounds fuel (c * 2) required max_size,
)

-- For a request above the capacity and within `max_size`, the loop that `wc_buffer_grow` runs ends by
-- its test: the capacity that it finds holds the request, does not shrink, and is `max_size` at most.
pub new_capacity_bounds :
    (b : Buffer) (required : ℕ)
    → b.capacity ≤ b.max_size
    → b.max_size < size_mod
    → b.capacity < required
    → required ≤ b.max_size
    → (required ≤ new_capacity b required)
      × (new_capacity b required ≤ b.max_size)
      × (b.capacity ≤ new_capacity b required)
unfolding new_capacity
new_capacity_bounds b required c m r h =
    ground (arith, grow_loop_bounds required (first_capacity b) required b.max_size)

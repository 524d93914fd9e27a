-- ===== src/Buffer.antt =====
-- src/buffer.c: a byte buffer that grows on demand up to `max_size`. `block` is the allocation that
-- `data` points to, with the bytes behind `length` that the program never reads. What `realloc()`
-- does is an argument of each call that may reach it.
pub mod Ptr
pub mod Grow
pub mod Contents
pub mod Laws
pub mod Available
pub mod Plain
mod Examples
use wire_command_c.Common.{
  ℕ, zero, suc, ◌/◌, ◌+◌, ◌≡◌, ◌≤◌, Bool, Option, none, some, ◌++◌, min, ltb, ◌==◌, if◌then◌else◌,
  ◌&&◌, not, length, take, drop, add_size, sub_size, mul_size, size_mod, Errno, einval, emsgsize,
  enomem, Status, ok, fail, Bytes, is_null, bytes, on_object,
}

-- `realloc(block, size)`: the new block, or NULL.
abbrev pub Realloc : Type 0
Realloc = Option Bytes → ℕ → Option Bytes

pub record Buffer : Type 0 where
  pub block : Option Bytes
  pub length : ℕ
  pub capacity : ℕ
  pub max_size : ℕ

abbrev pub initial_capacity : ℕ
initial_capacity = 64

-- `while (new_capacity < required_capacity)`, on fuel.
unfoldable pub grow_loop : ℕ → ℕ → ℕ → ℕ → ℕ
grow_loop zero new_capacity required max_size = new_capacity
grow_loop (suc fuel) new_capacity required max_size =
    let larger = if ltb (max_size / 2) new_capacity then max_size else mul_size new_capacity 2 in
    let rest = grow_loop fuel larger required max_size in
    if ltb new_capacity required then rest else new_capacity

-- The capacity from which the loop starts.
unfoldable pub first_capacity : Buffer → ℕ
first_capacity b =
    let start = if b.capacity == 0 then initial_capacity else b.capacity in
    if ltb b.max_size start then b.max_size else start

-- The fuel is `required`, since each round adds one at least (Buffer/Grow).
unfoldable pub new_capacity : Buffer → ℕ → ℕ
unfolding grow_loop first_capacity
new_capacity b required = grow_loop required (first_capacity b) required b.max_size

unfoldable pub grow : Realloc → Buffer → ℕ → Status × Buffer
grow realloc b required =
    if ltb b.capacity required
    then (let size = new_capacity b required in
        elim (realloc b.block size) [
          | none ↦ (fail enomem, b)
          | some xs ↦ (ok, record b { block = some xs; capacity = size })
        ])
    else (ok, b)

unfoldable pub init : Buffer → ℕ → Status × Buffer
init b max_size = (ok, record { block = none; length = 0; capacity = 0; max_size = max_size })

-- `memcpy(block + at, src, size)`
abbrev pub memcpy : Option Bytes → ℕ → Option Bytes → ℕ → Option Bytes
memcpy none start src size = none
memcpy (some xs) start src size =
    some (take start xs ++ (take size (bytes src) ++ drop (start + size) xs))

-- `memmove(block, block + from, size)`
abbrev pub memmove : Option Bytes → ℕ → ℕ → Option Bytes
memmove none from size = none
memmove (some xs) from size = some (take size (drop from xs) ++ drop size xs)

-- What `append` does once there is room for the `size` bytes.
unfoldable pub copy_in : Option Bytes → ℕ → Status × Buffer → Status × Buffer
copy_in src size (fail e, b) = (fail e, b)
copy_in src size (ok, b) =
    (ok, record b { block = memcpy b.block b.length src size; length = add_size b.length size })

unfoldable pub append : Realloc → Buffer → Option Bytes → ℕ → Status × Buffer
unfolding grow copy_in
append realloc b src size =
    if is_null src && not (size == 0)
    then (fail einval, b)
    else if ltb (sub_size b.max_size b.length) size
    then (fail emsgsize, b)
    else if size == 0
    then (ok, b)
    else copy_in src size (grow realloc b (add_size b.length size))

unfoldable pub consume : Buffer → ℕ → Status × Buffer
consume b size =
    if ltb b.length size
    then (fail einval, b)
    else if size == 0
    then (ok, b)
    else (let remaining = sub_size b.length size in
        (ok, record b { block = memmove b.block size remaining; length = remaining }))

unfoldable pub destroy : Buffer → Buffer
destroy b = record { block = none; length = 0; capacity = 0; max_size = 0 }

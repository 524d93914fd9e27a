-- ===== src/Common/Machine.antt =====
-- C integers and the outcome of a C call: `size_t` is 64 bits wide, a call that returns 0 or -1 with
-- `errno` returns a `Status`, and a pointer is an `Option`, `none` for NULL.
use Prim.Native.Nat.{ℕ, ◌+◌, ◌-◌, ◌*◌, ◌%◌, ◌^◌}
use mathlib.Core.Bool.{Bool, true, false}
use mathlib.Core.Option.{Option, none, some}
use mathlib.Core.List.{List, []}

-- SIZE_MAX + 1
abbrev pub size_mod : ℕ
size_mod = 2 ^ 64

abbrev pub uint16_max : ℕ
uint16_max = 65535

abbrev pub add_size : ℕ → ℕ → ℕ
add_size a b = (a + b) % size_mod

abbrev pub sub_size : ℕ → ℕ → ℕ
sub_size a b = (a + size_mod - b) % size_mod

abbrev pub mul_size : ℕ → ℕ → ℕ
mul_size a b = a * b % size_mod

-- The values of `errno` that the sources name; `other n` is any further one.
pub data Errno : Type 0 where
  einval emsgsize enomem eoverflow enoent eio eproto enobufs emfile : Errno
  eintr eagain epipe enametoolong econnreset : Errno
  other : ℕ → Errno

-- 0, or -1 with `errno`
pub data Status : Type 0 where
  ok : Status
  fail : Errno → Status

-- A byte is a number; those that the code computes are below 256.
abbrev pub Bytes : Type 0
Bytes = List ℕ

abbrev pub is_null {ℓ} : {A : Type ℓ} → Option A → Bool
is_null none = true
is_null (some a) = false

-- The bytes of a block; NULL has none.
abbrev pub bytes : Option Bytes → Bytes
bytes none = []
bytes (some xs) = xs

-- The call of a method through a pointer to its object: NULL fails with EINVAL.
abbrev pub on_object {ℓ} : {S : Type ℓ} → Option S → (S → Status × S) → Status × Option S
on_object none f = (fail einval, none)
on_object (some s) f = let (r, s') = f s in (r, some s')

-- A value, or a failure with `errno`
pub data Outcome {ℓ} (A : Type ℓ) : Type ℓ where
  value : A → Outcome A
  error : Errno → Outcome A

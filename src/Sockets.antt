-- ===== src/Sockets.antt =====
-- src/socket_utils.c over the results of its system calls: a list of the results that a loop meets.
pub mod Laws
pub mod Signals
mod Examples
use wire_command_c.Common.{
  ℕ, zero, suc, ◌-◌, Bool, true, false, Option, none, some, List, [], ◌∷◌, ◌++◌, ◌&&◌, not, ◌==◌,
  if◌then◌else◌, length, take, drop, Errno, einval, eio, Status, ok, fail, Bytes, bytes, is_null,
}

-- What one call of `write()` does: it takes `n` bytes, or EINTR, or another failure.
pub data WriteResult : Type 0 where
  wrote : ℕ → WriteResult
  write_interrupted : WriteResult
  write_failed : Errno → WriteResult

-- How a loop over results ends: with a status and the bytes that were written, or waiting in a call
-- whose result the list does not have.
pub data Written : Type 0 where
  returned : Status → Bytes → Written
  blocked : Bytes → Written

abbrev pub after : Bytes → Written → Written
after xs (returned s ys) = returned s (xs ++ ys)
after xs (blocked ys) = blocked (xs ++ ys)

-- `left` is `bytes + total_written` with its `size - total_written` bytes.
unfoldable pub write_loop : List WriteResult → Bytes → Written
write_loop rs [] = returned ok []
write_loop [] (x ∷ xs) = blocked []
write_loop (wrote zero ∷ rs) (x ∷ xs) = returned (fail eio) []
write_loop (wrote (suc n) ∷ rs) (x ∷ xs) = after (x ∷ take n xs) (write_loop rs (drop n xs))
write_loop (write_interrupted ∷ rs) (x ∷ xs) = write_loop rs (x ∷ xs)
write_loop (write_failed e ∷ rs) (x ∷ xs) = returned (fail e) []

unfoldable pub write_all : List WriteResult → Option Bytes → ℕ → Written
unfolding write_loop
write_all rs src size =
    if is_null src && not (size == 0)
    then returned (fail einval) []
    else write_loop rs (take size (bytes src))

-- What one call of `fcntl()` returns: the flags, of which the code looks at O_NONBLOCK alone, or EINTR,
-- or another failure.
pub data FlagsResult : Type 0 where
  flags : Bool → FlagsResult
  fcntl_interrupted : FlagsResult
  fcntl_failed : Errno → FlagsResult

-- The loop `do ... while (flags == -1 && errno == EINTR)`, with the results that are left.
unfoldable pub retry : List FlagsResult → Option ((Status × Bool) × List FlagsResult)
retry [] = none
retry (flags nonblocking ∷ rs) = some ((ok, nonblocking), rs)
retry (fcntl_interrupted ∷ rs) = retry rs
retry (fcntl_failed e ∷ rs) = some ((fail e, false), rs)

-- The status, with whether the descriptor is non-blocking as far as the calls have told or made it;
-- `none` if a call has not returned.
unfoldable pub set_nonblocking : List FlagsResult → List FlagsResult → Option (Status × Bool)
unfolding retry
set_nonblocking get set = elim (retry get) [
  | none ↦ none
  | some ((fail e, nonblocking), rs) ↦ some (fail e, false)
  | some ((ok, true), rs) ↦ some (ok, true)
  | some ((ok, false), rs) ↦ (elim (retry set) [
    | none ↦ none
    | some ((fail e, nonblocking), rs') ↦ some (fail e, false)
    | some ((ok, nonblocking), rs') ↦ some (ok, true)
  ])
]

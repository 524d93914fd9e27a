-- ===== src/Sockets/Examples.antt =====
-- The theorem on src/socket_utils.c at three bytes that take two writes.
use wire_command_c.Common.{ℕ, some, [], ◌∷◌, Bytes, Option}

abbrev three : Option Bytes
three = some (1 ∷ 2 ∷ 3 ∷ [])

abbrev size : ℕ
size = 3

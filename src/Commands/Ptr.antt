-- ===== src/Commands/Ptr.antt =====
-- The commands of src/commands.c as they are called, through a pointer to the result: NULL fails with
-- EINVAL before anything else, and is let pass by `result_destroy`.
use wire_command_c.Common.{ℕ, Option, Bytes, Status, on_object, some, none}
use wire_command_c.Commands.{
  CommandResult, Environment, ls as ls_at, pwd as pwd_at, cat as cat_at,
  result_destroy as destroy_at,
}

unfoldable pub ls :
    Environment → Option Bytes → ℕ → ℕ → Option CommandResult → Status × Option CommandResult
ls env argument n max_size result = on_object result λ r. ls_at env argument n max_size

unfoldable pub pwd : Environment → ℕ → Option CommandResult → Status × Option CommandResult
pwd env max_size result = on_object result λ r. pwd_at env max_size

unfoldable pub cat :
    Environment → Option Bytes → ℕ → ℕ → Option CommandResult → Status × Option CommandResult
cat env argument n max_size result = on_object result λ r. cat_at env argument n max_size

unfoldable pub result_destroy : Option CommandResult → Option CommandResult
result_destroy none = none
result_destroy (some r) = some (destroy_at r)

-- ===== src/Uds/Respond.antt =====
-- From a queued request to a response in the client's output: `wc_uds_run_command` and
-- `wc_uds_encode_command_response` of src/server_uds.c. What the shell, `strerror()` and `snprintf()`
-- do is a parameter.
use wire_command_c.Common.{
  ℕ, ◌-◌, Bool, some, ◌++◌, ◌==◌, if◌then◌else◌, not, leb, length, take, Status, ok, fail, Errno,
  einval, eio, Bytes, codes, uint16_max,
}
use wire_command_c.Buffer.{Buffer, Realloc}
use wire_command_c.Protocol.{request_ls, request_pwd, request_cat, encode_response}
use wire_command_c.Queue.{QueuedRequest}
use wire_command_c.Commands.{Environment, CommandResult, no_result, ls, pwd, cat}

unfoldable pub run_command : Environment → QueuedRequest → Status × CommandResult
run_command env request =
    if request.type == request_ls
    then ls env (some request.argument) request.argument_length uint16_max
    else if request.type == request_pwd
    then (if not (request.argument_length == 0)
        then (fail einval, no_result)
        else pwd env uint16_max)
    else if request.type == request_cat
    then cat env (some request.argument) request.argument_length uint16_max
    else (fail einval, no_result)

-- `sizeof(error_text)`
abbrev pub error_text_size : ℕ
error_text_size = 256

-- What the calls behind one response do: the command, `strerror()`, whether `snprintf()` fails, and the
-- two calls of `realloc()` for the response.
pub record Calls : Type 0 where
  pub command : Environment
  pub strerror : Errno → Bytes
  pub snprintf_fails : Bool
  pub realloc₁ : Realloc
  pub realloc₂ : Realloc

-- `"ERROR: %s"`
abbrev pub error_text : Calls → Errno → Bytes
error_text calls e = codes "ERROR: " ++ calls.strerror e

-- The length of a text as the code caps it.
unfoldable pub text_length : Bytes → ℕ
text_length text = if leb error_text_size (length text) then error_text_size - 1 else length text

-- What `snprintf()` writes of a text: 255 bytes at most.
unfoldable pub written : Bytes → Bytes
written text = take (error_text_size - 1) text

unfoldable pub encode_text : Calls → Buffer → Bytes → Status × Buffer
encode_text calls output text =
    if calls.snprintf_fails
    then (fail eio, output)
    else encode_response calls.realloc₁ calls.realloc₂ output (some (written text))
        (text_length text)

unfoldable pub respond : Calls → Buffer → Status × CommandResult → Status × Buffer
respond calls output (ok, r) = encode_response calls.realloc₁ calls.realloc₂ output r.block r.length
respond calls output (fail e, r) = encode_text calls output (error_text calls e)

unfoldable pub encode_command_response : Calls → Buffer → QueuedRequest → Status × Buffer
unfolding respond run_command encode_text
encode_command_response calls output request =
    respond calls output (run_command calls.command request)

-- ===== src/Commands.antt =====
-- src/commands.c: LS, PWD and CAT by a shell. The child process is a parameter: `popen()` is a function
-- from the command line to a child, of which the program sees the bytes it writes, whether reading
-- them fails at their end, and what `pclose()` reports.
pub mod Shell
pub mod Quote
pub mod Result
pub mod Bounds
pub mod Ptr
mod Examples
use wire_command_c.Common.{
  ℕ, zero, suc, ◌+◌, ◌-◌, ◌*◌, ◌/◌, Bool, true, false, Option, none, some, [], ◌∷◌, ◌++◌, ltb, ◌==◌,
  if◌then◌else◌, ◌&&◌, ◌||◌, not, take, drop, get_or, length, size_mod, add_size, sub_size,
  mul_size, Errno, einval, enomem, eoverflow, eio, Status, ok, fail, Outcome, value, error, Bytes,
  is_null, bytes, codes,
}
use wire_command_c.Buffer.{Buffer, Realloc, append, destroy}

abbrev pub read_size : ℕ
read_size = 4096

-- '
abbrev pub quote_mark : ℕ
quote_mark = 39

-- \
abbrev pub backslash : ℕ
backslash = 92

-- `memchr(argument, '\0', n) != NULL`
abbrev pub has_nul : Bytes → Bool
has_nul [] = false
has_nul (c ∷ cs) = c == 0 || has_nul cs

-- The loop over the argument: a quote mark leaves the quotes, stands escaped, and enters them again.
abbrev pub quote_loop : Bytes → Bytes
quote_loop [] = []
quote_loop (c ∷ cs) =
    let rest = quote_loop cs in
    if c == quote_mark then quote_mark ∷ backslash ∷ quote_mark ∷ quote_mark ∷ rest else c ∷ rest

-- The Boolean says whether `malloc()` finds memory. The result is a C string, without its final NUL.
pub quote_argument : Bool → Option Bytes → ℕ → Outcome Bytes
quote_argument memory argument n =
    if is_null argument || (n == 0 || has_nul (take n (bytes argument)))
    then error einval
    else if ltb ((size_mod - 1 - 3) / 4) n
    then error eoverflow
    else if not memory
    then error enomem
    else value (quote_mark ∷ (quote_loop (take n (bytes argument)) ++ quote_mark ∷ []))

abbrev pub suffix : Bytes
suffix = codes " 2>/dev/null"

-- `sizeof(suffix)` counts the NUL; `snprintf` writes that many bytes less one at most.
abbrev command_length : Bytes → Bytes → ℕ
command_length program quoted =
    add_size (add_size (add_size (length program) 1) (length quoted)) (length suffix + 1)

format_command : Bool → Bytes → Bytes → Outcome Bytes
format_command memory program quoted =
    if not memory
    then error enomem
    else value (
        take (sub_size (command_length program quoted) 1)
          (program ++ (codes " " ++ (quoted ++ suffix))))

pub build : Bool → Bool → Bytes → Option Bytes → ℕ → Outcome Bytes
unfolding format_command
build memory₁ memory₂ program argument n = elim (quote_argument memory₁ argument n) [
  | error e ↦ error e
  | value quoted ↦ format_command memory₂ program quoted
]

-- What `pclose()` reports: -1, a normal exit with its status, or another end.
pub data WaitStatus : Type 0 where
  wait_failed : WaitStatus
  exited : ℕ → WaitStatus
  killed : WaitStatus

pub record Child : Type 0 where
  pub output : Bytes
  pub read_fails : Bool
  pub status : WaitStatus

-- `popen(command, "r")`
abbrev pub Shell : Type 0
Shell = Bytes → Outcome Child

-- `struct wc_command_result`
pub record CommandResult : Type 0 where
  pub block : Option Bytes
  pub length : ℕ

abbrev pub no_result : CommandResult
no_result = record { block = none; length = 0 }

-- `bytes_read > 0 && wc_buffer_append(...) == -1`
unfoldable pub append_chunk : Realloc → Buffer → Bytes → Status × Buffer
append_chunk realloc b chunk =
    if length chunk == 0 then (ok, b) else append realloc b (some chunk) (length chunk)

-- The loop of `fread` and append; `fread` returns fewer bytes than asked for only at the end of the
-- output. The result is `failure_errno` if `command_failed`, and the buffer.
-- Each round has a `realloc()` of its own.
unfoldable pub read_loop : ℕ → (ℕ → Realloc) → Bool → Buffer → Bytes → Option Errno × Buffer
read_loop zero realloc fails b left = (some eio, b)
read_loop (suc fuel) realloc fails b left =
    let chunk = take read_size left in
    let (s, b') = append_chunk (realloc fuel) b chunk in
    elim s [
      | fail e ↦ (some e, b')
      | ok ↦ elim (ltb (length chunk) read_size) [
        | true ↦ (if fails then some eio else none, b')
        | false ↦ read_loop fuel realloc fails b' (drop read_size left)
      ]
    ]

abbrev pub bad_exit : WaitStatus → Bool
bad_exit wait_failed = true
bad_exit (exited n) = not (n == 0)
bad_exit killed = true

-- The end of `run`: a failure of the loop keeps its `errno`, a bad exit alone is EIO.
unfoldable pub finish : WaitStatus → Option Errno × Buffer → CommandResult → Status × CommandResult
finish status (some e, b) result = (fail e, result)
finish status (none, b) result =
    if bad_exit status
    then (fail eio, result)
    else (ok, record { block = b.block; length = b.length })

-- One round more than there are full chunks; the output's length is enough.
unfoldable pub run : Shell → (ℕ → Realloc) → Bytes → ℕ → CommandResult → Status × CommandResult
unfolding read_loop append_chunk finish
run shell realloc command max_size result = elim (shell command) [
  | error e ↦ (fail e, result)
  | value child ↦
      let start : Buffer = record { block = none; length = 0; capacity = 0; max_size = max_size } in
      finish child.status
        (read_loop (suc (length child.output)) realloc child.read_fails start child.output) result
]

-- What `malloc()`, `realloc()` and `popen()` do in one command.
pub record Environment : Type 0 where
  pub memory₁ : Bool
  pub memory₂ : Bool
  pub realloc : ℕ → Realloc
  pub shell : Shell

run_built : Environment → ℕ → Outcome Bytes → Status × CommandResult
run_built env max_size (error e) = (fail e, no_result)
run_built env max_size (value command) = run env.shell env.realloc command max_size no_result

unfoldable pub ls : Environment → Option Bytes → ℕ → ℕ → Status × CommandResult
unfolding run_built
ls env argument n max_size =
    run_built env max_size (build env.memory₁ env.memory₂ (codes "ls -1 --") argument n)

-- `if (... && data[length - 1] == '\n') --length`
unfoldable pub strip_newline : Status × CommandResult → Status × CommandResult
strip_newline (fail e, r) = (fail e, r)
strip_newline (ok, r) =
    if ltb 0 r.length && get_or (bytes r.block) (r.length - 1) 0 == 10
    then (ok, record r { length = r.length - 1 })
    else (ok, r)

unfoldable pub pwd : Environment → ℕ → Status × CommandResult
unfolding strip_newline
pwd env max_size =
    strip_newline (run env.shell env.realloc (codes "pwd 2>/dev/null") max_size no_result)

unfoldable pub cat : Environment → Option Bytes → ℕ → ℕ → Status × CommandResult
unfolding run_built
cat env argument n max_size =
    if is_null argument || (n == 0 || not (get_or (bytes argument) 0 0 == 47))
    then (fail einval, no_result)
    else run_built env max_size (build env.memory₁ env.memory₂ (codes "cat --") argument n)

unfoldable pub result_destroy : CommandResult → CommandResult
result_destroy r = no_result

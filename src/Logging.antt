-- ===== src/Logging.antt =====
-- src/logging.c: the minimum level and the line that a call writes to stderr. What `time()` and its
-- kin and `vsnprintf()` make of their arguments is a field of the call.
pub mod Laws
mod Examples
use wire_command_c.Common.{
  ℕ, zero, suc, ◌-◌, Bool, true, false, Option, none, some, List, [], get_or, ◌∷◌, ◌++◌, leb, ltb,
  ◌==◌, ◌||◌, not, if◌then◌else◌, length, take, Bytes, Errno, is_null, codes,
}

-- `WC_LOG_ERROR` to `WC_LOG_TRACE` are 0 to 4.
abbrev pub log_trace : ℕ
log_trace = 4

abbrev pub log_info : ℕ
log_info = 2

abbrev pub level_valid : ℕ → Bool
level_valid level = leb level log_trace

abbrev names : List Bytes
names = codes "ERROR" ∷ codes "WARN" ∷ codes "INFO" ∷ codes "DEBUG" ∷ codes "TRACE" ∷ []

unfoldable pub level_name : ℕ → Bytes
level_name level = if not (level_valid level) then codes "UNKNOWN" else get_or names level []

-- The minimum level after the call.
unfoldable pub set_level : ℕ → ℕ → ℕ
set_level minimum_level level = if level_valid level then level else minimum_level

unfoldable pub get_level : ℕ → ℕ
get_level minimum_level = minimum_level

-- What `time()`, `localtime_r()` and `strftime()` do: the first two work or not, and the last gives a
-- text, or none when it returns 0.
pub record Clock : Type 0 where
  pub now : Bool
  pub local_time : Bool
  pub formatted : Option Bytes

unfoldable pub timestamp : Clock → Option Bytes
timestamp clock =
    if not clock.now then none else if not clock.local_time then none else clock.formatted

-- A call of `wc_log_v`. `text` is what `vsnprintf()` makes of `format` and the arguments, or none when it
-- fails.
pub record Call : Type 0 where
  pub level : ℕ
  pub component : Option Bytes
  pub event : Option Bytes
  pub format : Option Bytes
  pub text : Option Bytes
  pub clock : Clock

-- `WC_LOG_MESSAGE_SIZE`
abbrev pub message_size : ℕ
message_size = 2048

abbrev first_bytes : Option Bytes → Option Bytes
first_bytes none = none
first_bytes (some []) = none
first_bytes (some (c ∷ cs)) = some (take (message_size - 1) (c ∷ cs))

-- The context, if there is one: `vsnprintf()` is called for a format that is not empty, and cuts what it
-- makes.
unfoldable pub context : Option Bytes → Option Bytes → Option Bytes
context none text = none
context (some []) text = none
context (some (c ∷ cs)) text = first_bytes text

abbrev spaces : ℕ → Bytes
spaces zero = []
spaces (suc n) = 32 ∷ spaces n

-- `%-5s`
abbrev padded : Bytes → Bytes
padded xs = xs ++ spaces (5 - length xs)

abbrev context_text : Option Bytes → Bytes
context_text none = []
context_text (some xs) = 32 ∷ xs

-- `"[%s] %-5s %s:%s%s%s\n"`
abbrev line : ℕ → Option Bytes → Option Bytes → Option Bytes → Option Bytes → Option Bytes
line level (some timestamp) (some component) (some event) context = some (
    codes "["
    ++ (timestamp
        ++ (codes "] "
            ++ (padded (level_name level)
                ++ (32 ∷ (component ++ (58 ∷ (event ++ (context_text context ++ 10 ∷ [])))))))))
line level timestamp component event context = none

-- The line that is written, if any.
unfoldable pub written : ℕ → Call → Option Bytes
written minimum_level call =
    if not (level_valid call.level)
      || (ltb minimum_level call.level || (is_null call.component || is_null call.event))
    then none
    else line call.level (timestamp call.clock) call.component call.event
        (context call.format call.text)

-- The line, and `errno` behind the call, which is set back to what it was.
unfoldable pub log_v : ℕ → Errno → Call → Option Bytes × Errno
unfolding written
log_v minimum_level saved_errno call = (written minimum_level call, saved_errno)

unfoldable pub log : ℕ → Errno → Call → Option Bytes × Errno
unfolding log_v
log minimum_level saved_errno call =
    let (line, errno) = log_v minimum_level saved_errno call in (line, saved_errno)

-- ===== src/Sockets/Signals.antt =====
-- The dispositions of signals: `wc_socket_ignore_sigpipe` of src/socket_utils.c, and what it shares with
-- the programs. A signal has its number on Linux.
use wire_command_c.Common.{ℕ, List, ◌∷◌, Status, ok, fail}

-- `SIG_IGN`, or the handler of the program.
pub data Action : Type 0 where
  ignored handled : Action

-- The signals whose action the program has set, the last one first.
abbrev pub Actions : Type 0
Actions = List (ℕ × Action)

-- What `sigemptyset()` and `sigaction()` return.
pub record SignalCalls : Type 0 where
  pub empty : Status
  pub set : Status

abbrev pub sigint : ℕ
sigint = 2

abbrev pub sigpipe : ℕ
sigpipe = 13

abbrev pub sigterm : ℕ
sigterm = 15

-- `sigaction()` changes the action only if it returns 0.
unfoldable pub set_action : Status → ℕ → Action → Actions → Status × Actions
set_action (fail e) signal action actions = (fail e, actions)
set_action ok signal action actions = (ok, (signal, action) ∷ actions)

unfoldable pub ignore_sigpipe : SignalCalls → Actions → Status × Actions
unfolding set_action
ignore_sigpipe calls actions = elim calls.empty [
  | fail e ↦ (fail e, actions)
  | ok ↦ set_action calls.set sigpipe ignored actions
]

-- ===== src/Programs/Statuses.antt =====
-- What the exit status of a server says.
use wire_command_c.Common.{
  ℕ, ◌≤◌, ◌<◌, ◌≡◌, refl, arith, ◌⊎◌, inl, inr, true, Option, none, some, List, [], ◌∷◌, Status, ok,
  fail, Bytes, uint16_max,
}
use wire_command_c.Logging.{log_trace, set_level}
use wire_command_c.Sockets.Signals.{
  Actions, ignored, handled, sigint, sigpipe, sigterm, set_action, ignore_sigpipe,
}
use wire_command_c.Arguments.Servers.{TcpOptions, tcp_defaults, tcp_options}
use wire_command_c.Arguments.Checked.{CheckedResult, tcp_options-CheckedResult}
use wire_command_c.Tcp.Main.{RunCalls, RunEnd, run_server}
use wire_command_c.Tcp.Table.{Workers}
use wire_command_c.Tcp.Ended.{IsEnded, run_server-IsEnded}
use wire_command_c.Programs.{
  install_stop_handler, SetupCalls, set_up_signals, Exit, exit_status, main_tcp_set, main_tcp,
}

-- Writing to a closed socket no longer ends the program, and both signals set the stop flag.
abbrev pub all_set : Actions
all_set = (sigterm, handled) ∷ (sigint, handled) ∷ (sigpipe, ignored) ∷ []

abbrev IsSetUp : Status × Actions → Type 0
IsSetUp (fail e, actions) = Unit
IsSetUp (ok, actions) = actions ≡ all_set

set_up_signals-IsSetUp : (calls : SetupCalls) → IsSetUp (set_up_signals calls)
unfolding set_up_signals ignore_sigpipe install_stop_handler set_action
set_up_signals-IsSetUp calls =
    at calls.for_sigpipe.empty calls.for_sigpipe.set calls.for_sigint.empty calls.for_sigint.set
      calls.for_sigterm.empty calls.for_sigterm.set
  where
    at :
        (a a' b b' c c' : Status)
        → IsSetUp (
            set_up_signals (record {
              for_sigpipe = record { empty = a; set = a' };
              for_sigint = record { empty = b; set = b' };
              for_sigterm = record { empty = c; set = c' };
            }))
    at (fail e) a' b b' c c' = tt
    at ok (fail e) b b' c c' = tt
    at ok ok (fail e) b' c c' = tt
    at ok ok ok (fail e) c c' = tt
    at ok ok ok ok (fail e) c' = tt
    at ok ok ok ok ok (fail e) = tt
    at ok ok ok ok ok ok = refl

-- The server has run: with all signals set up, and the exit status is that of its result.
pub record HasRun (r : Exit RunEnd) (end : RunEnd) : Type 0 where
  pub ran : r.run ≡ some end
  pub set_up : r.actions ≡ all_set
  pub as_result : r.status ≡ exit_status end.result
  pub ended : IsEnded end

-- The command line is refused with status 2, and nothing is changed. Or its options are in their ranges
-- and its level is set; and then either the server has not run and the status is 1, or it has run as the
-- options say.
abbrev pub IsMainExit : RunCalls → Workers → ℕ → Option TcpOptions → Exit RunEnd → Type 0
IsMainExit calls ws minimum_level none r =
    (r.status ≡ 2) × (r.minimum_level ≡ minimum_level) × (r.actions ≡ []) × (r.run ≡ none)
IsMainExit calls ws minimum_level (some o) r =
    (r.minimum_level ≡ o.log_level)
    × (o.log_level ≤ log_trace)
    × (0 < o.port)
    × (o.port ≤ uint16_max)
    × (((r.status ≡ 1) × (r.run ≡ none))
        ⊎ HasRun r (run_server calls true (some o.bind_address) o.port ws))

main_tcp_set-IsMainExit :
    (calls : RunCalls) (ws : Workers) (minimum_level : ℕ) (o : TcpOptions) (x : Status × Actions)
    → CheckedResult (some o)
    → IsSetUp x
    → IsMainExit calls ws minimum_level
        (some o)
        (main_tcp_set calls ws o (set_level minimum_level o.log_level) x)
unfolding main_tcp_set set_level
main_tcp_set-IsMainExit calls ws minimum_level o (fail e, actions) c s =
    (ground (arith, c), c.2, c.0, c.1, inl (refl, refl))
main_tcp_set-IsMainExit calls ws minimum_level o (ok, actions) c s = (
  ground (arith, c),
  c.2,
  c.0,
  c.1,
  inr (record {
    ran = refl;
    set_up = s;
    as_result = refl;
    ended = run_server-IsEnded calls true (some o.bind_address) o.port ws;
  }),
)

-- The server over TCP exits with 2 only for a command line that it refuses, and has then changed nothing.
-- Otherwise its options are in their ranges and its level is set; and it exits with 1 and has not run, or
-- it has run with SIGPIPE ignored and both stop signals handled, has ended with its listener closed and
-- its threads joined or its mutex kept, and exits with 0 only if that run has worked.
pub main_tcp-IsMainExit :
    (setup : SetupCalls) (calls : RunCalls) (ws : Workers) (minimum_level : ℕ)
    (arguments : List Bytes)
    → IsMainExit calls ws minimum_level
        (tcp_options tcp_defaults arguments)
        (main_tcp setup calls ws minimum_level arguments)
unfolding main_tcp
main_tcp-IsMainExit setup calls ws minimum_level arguments =
    at (tcp_options tcp_defaults arguments)
      (tcp_options-CheckedResult tcp_defaults arguments (omega arith, omega arith, omega arith))
  where
    at :
        (x : Option TcpOptions)
        → CheckedResult x
        → IsMainExit calls ws minimum_level x (elim x as (λ y. Exit RunEnd) [
          | none ↦ record { status = 2; minimum_level = minimum_level; actions = []; run = none }
          | some o ↦
              main_tcp_set calls ws o (set_level minimum_level o.log_level) (set_up_signals setup)
        ])
    at none c = (refl, refl, refl, refl)
    at (some o) c =
        main_tcp_set-IsMainExit calls ws minimum_level o _ c (set_up_signals-IsSetUp setup)

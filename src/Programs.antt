-- ===== src/Programs.antt =====
-- The start of the servers: src/main_tcp.c, src/main_uds.c and src/main_uds_threaded.c, from the command
-- line to the exit status. The parsing of the options is in Arguments/Servers.
pub mod Statuses
mod Examples
use wire_command_c.Common.{ℕ, true, Option, none, some, List, [], Status, ok, fail, Bytes}
use wire_command_c.Logging.{set_level}
use wire_command_c.Sockets.Signals.{
  Actions, handled, SignalCalls, sigint, sigterm, set_action, ignore_sigpipe,
}
use wire_command_c.Arguments.Servers.{
  TcpOptions, tcp_defaults, tcp_options, UdsOptions, uds_defaults, uds_options, threaded_defaults,
  threaded_options,
}
use wire_command_c.Tcp.Main as TcpMain
use wire_command_c.Tcp.Table.{Workers}
use wire_command_c.Uds.Main as UdsMain
use wire_command_c.Uds.Table.{Clients}
use wire_command_c.Threaded.Main as ThreadedMain

-- The handlers set the flag that the event loops read, whatever the signal and the flag were.
unfoldable pub handle_stop_signal : ℕ → ℕ → ℕ
handle_stop_signal signal_number stop_requested = 1

unfoldable pub install_stop_handler : SignalCalls → ℕ → Actions → Status × Actions
unfolding set_action
install_stop_handler calls signal_number actions = elim calls.empty [
  | fail e ↦ (fail e, actions)
  | ok ↦ set_action calls.set signal_number handled actions
]

-- What the calls that set up the signals return.
pub record SetupCalls : Type 0 where
  pub for_sigpipe : SignalCalls
  pub for_sigint : SignalCalls
  pub for_sigterm : SignalCalls

-- `a == -1 || b == -1`: the second call is made only if the first one works.
abbrev pub or_else : Status × Actions → (Actions → Status × Actions) → Status × Actions
or_else (fail e, actions) next = (fail e, actions)
or_else (ok, actions) next = next actions

unfoldable pub set_up_signals : SetupCalls → Status × Actions
unfolding ignore_sigpipe install_stop_handler
set_up_signals calls = or_else (ignore_sigpipe calls.for_sigpipe []) (λ actions.
    or_else (install_stop_handler calls.for_sigint sigint actions)
      (install_stop_handler calls.for_sigterm sigterm))

-- The exit status, the minimum level of the logger, the actions of signals, and the end of the run of the
-- server, if it has been run.
pub record Exit (End : Type 0) : Type 0 where
  pub status : ℕ
  pub minimum_level : ℕ
  pub actions : Actions
  pub run : Option End

abbrev pub exit_status : Status → ℕ
exit_status ok = 0
exit_status (fail e) = 1

-- `main` of src/main_tcp.c with the options that it has parsed.
unfoldable pub main_tcp_set :
    TcpMain.RunCalls → Workers → TcpOptions → ℕ → Status × Actions → Exit TcpMain.RunEnd
main_tcp_set calls ws o minimum_level (fail e, actions) = record {
  status = 1;
  minimum_level = minimum_level;
  actions = actions;
  run = none;
}
main_tcp_set calls ws o minimum_level (ok, actions) =
    let end = TcpMain.run_server calls true (some o.bind_address) o.port ws in
    record {
      status = exit_status end.result;
      minimum_level = minimum_level;
      actions = actions;
      run = some end;
    }

-- A command line that is refused prints the usage.
unfoldable pub main_tcp :
    SetupCalls → TcpMain.RunCalls → Workers → ℕ → List Bytes → Exit TcpMain.RunEnd
unfolding main_tcp_set
main_tcp setup calls ws minimum_level arguments = elim (tcp_options tcp_defaults arguments) [
  | none ↦ record { status = 2; minimum_level = minimum_level; actions = []; run = none }
  | some o ↦ main_tcp_set calls ws o (set_level minimum_level o.log_level) (set_up_signals setup)
]

-- `main` of src/main_uds.c with the options that it has parsed.
unfoldable pub main_uds_set :
    UdsMain.RunCalls → Clients → UdsOptions → ℕ → Status × Actions → Exit UdsMain.RunEnd
main_uds_set calls cs o minimum_level (fail e, actions) = record {
  status = 1;
  minimum_level = minimum_level;
  actions = actions;
  run = none;
}
main_uds_set calls cs o minimum_level (ok, actions) =
    let end = UdsMain.run_server calls true (some o.socket_path) cs in
    record {
      status = exit_status end.result;
      minimum_level = minimum_level;
      actions = actions;
      run = some end;
    }

unfoldable pub main_uds :
    SetupCalls → UdsMain.RunCalls → Clients → ℕ → List Bytes → Exit UdsMain.RunEnd
unfolding main_uds_set
main_uds setup calls cs minimum_level arguments = elim (uds_options uds_defaults arguments) [
  | none ↦ record { status = 2; minimum_level = minimum_level; actions = []; run = none }
  | some o ↦ main_uds_set calls cs o (set_level minimum_level o.log_level) (set_up_signals setup)
]

-- `main` of src/main_uds_threaded.c with the options that it has parsed.
unfoldable pub main_threaded_set :
    ThreadedMain.RunCalls → Workers → UdsOptions → ℕ → Status × Actions → Exit TcpMain.RunEnd
main_threaded_set calls ws o minimum_level (fail e, actions) = record {
  status = 1;
  minimum_level = minimum_level;
  actions = actions;
  run = none;
}
main_threaded_set calls ws o minimum_level (ok, actions) =
    let end = ThreadedMain.run_server calls true (some o.socket_path) ws in
    record {
      status = exit_status end.result;
      minimum_level = minimum_level;
      actions = actions;
      run = some end;
    }

unfoldable pub main_threaded :
    SetupCalls → ThreadedMain.RunCalls → Workers → ℕ → List Bytes → Exit TcpMain.RunEnd
unfolding main_threaded_set
main_threaded setup calls ws minimum_level arguments =
    elim (threaded_options threaded_defaults arguments) [
      | none ↦ record { status = 2; minimum_level = minimum_level; actions = []; run = none }
      | some o ↦
          main_threaded_set calls ws o (set_level minimum_level o.log_level) (set_up_signals setup)
    ]

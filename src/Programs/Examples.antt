-- ===== src/Programs/Examples.antt =====
-- The starts of the servers at concrete command lines.
use wire_command_c.Common.{true, false, [], ◌∷◌, List, Bytes, none, ok, fail, codes, ◌≡◌, refl, eio}
use wire_command_c.Logging.{log_info}
use wire_command_c.Sockets.Signals.{SignalCalls, ignored, handled}
use wire_command_c.Endpoints.{open_tcp_listener}
use wire_command_c.Endpoints.Plain.{endpoint_calls}
use wire_command_c.Arguments.Servers.{
  tcp_defaults, tcp_option, tcp_parse_port, tcp_parse_log_level, tcp_options, uds_options,
}
use wire_command_c.Uds.Main.{RunCalls as UdsCalls}
use wire_command_c.Arguments.{strtoul, unsigned_or_none, find_name}
use wire_command_c.Tcp.Main.{RunCalls, run_server, shut_down, main_loop}
use wire_command_c.Tcp.Table.{Worker, join_all, workers_init}
use wire_command_c.Programs.{SetupCalls, set_up_signals, main_tcp, main_uds}
use wire_command_c.Programs.Statuses.{IsMainExit, main_tcp-IsMainExit}

abbrev working : SignalCalls
working = record { empty = ok; set = ok }

abbrev setup : SetupCalls
setup = record { for_sigpipe = working; for_sigint = working; for_sigterm = working }

-- SIGTERM is left as it was.
set_up_signals_test :
    set_up_signals (record setup { for_sigterm = record { empty = ok; set = fail eio } })
    ≡ (fail eio, (2, handled) ∷ (13, ignored) ∷ [])
unfolding set_up_signals
set_up_signals_test = refl

abbrev run_calls : RunCalls
run_calls = record {
  mutex_init = ok;
  endpoint = endpoint_calls;
  rounds = [];
  ending = record { lock = ok; unlock = ok; close = ok; joins = λ i. true; destroy = ok };
}

abbrev command_line : List Bytes
command_line = codes "--port" ∷ codes "8080" ∷ codes "--log-level" ∷ codes "debug" ∷ []

abbrev free : Worker
free = record { thread = 0; client_fd = none; in_use = false; finished = false }

main_tcp_test : (main_tcp setup run_calls (free ∷ []) log_info command_line).status ≡ 0
unfolding main_tcp tcp_options tcp_option tcp_parse_port strtoul unsigned_or_none
    tcp_parse_log_level find_name set_up_signals run_server open_tcp_listener shut_down join_all
    main_loop workers_init
main_tcp_test = refl

main_uds_refused_test :
    (c : UdsCalls) → (main_uds setup c [] log_info (codes "--port" ∷ [])).status ≡ 2
unfolding main_uds uds_options
main_uds_refused_test c = refl

main_tcp-IsMainExit_example :
    IsMainExit run_calls
      (free ∷ [])
      log_info
      (tcp_options tcp_defaults command_line)
      (main_tcp setup run_calls (free ∷ []) log_info command_line)
main_tcp-IsMainExit_example = main_tcp-IsMainExit setup run_calls (free ∷ []) log_info command_line

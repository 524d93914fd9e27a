-- ===== src/Arguments/Servers.antt =====
-- The command lines of the servers: src/main_tcp.c, src/main_uds.c and src/main_uds_threaded.c. A result is
-- what `main` passes on, or none for the usage and exit status 2.
use wire_command_c.Common.{
  ℕ, Option, none, some, List, [], ◌∷◌, ◌==◌, ◌||◌, not, if◌then◌else◌, ltb, length, einval,
  Outcome, value, error, Bytes, uint16_max, codes,
}
use wire_command_c.Arguments.{strtoul, same_text, find_name, level_names}
use wire_command_c.Logging.{log_info}

-- `wc_tcp_parse_port`
unfoldable pub tcp_parse_port : Bytes → Outcome ℕ
tcp_parse_port text =
    let n = strtoul text in
    if n.out_of_range
      || (length text == 0 || (not (length n.end == 0) || (n.value == 0 || ltb uint16_max n.value)))
    then error einval
    else value n.value

-- `wc_tcp_parse_log_level`
unfoldable pub tcp_parse_log_level : Bytes → Outcome ℕ
tcp_parse_log_level text = find_name 0 level_names text

-- The variables of `main` of src/main_tcp.c.
pub record TcpOptions : Type 0 where
  pub bind_address : Bytes
  pub port : ℕ
  pub log_level : ℕ

abbrev pub tcp_defaults : TcpOptions
tcp_defaults = record { bind_address = codes "127.0.0.1"; port = 9090; log_level = log_info }

abbrev pub with_port : TcpOptions → Outcome ℕ → Option TcpOptions
with_port o (error e) = none
with_port o (value port) = some (record o { port = port })

abbrev pub with_level : TcpOptions → Outcome ℕ → Option TcpOptions
with_level o (error e) = none
with_level o (value level) = some (record o { log_level = level })

-- An option and the argument behind it.
unfoldable pub tcp_option : TcpOptions → Bytes → Bytes → Option TcpOptions
tcp_option o name argument =
    if same_text name (codes "--bind")
    then some (record o { bind_address = argument })
    else if same_text name (codes "--port")
    then with_port o (tcp_parse_port argument)
    else if same_text name (codes "--log-level")
    then with_level o (tcp_parse_log_level argument)
    else none

unfoldable pub tcp_options : TcpOptions → List Bytes → Option TcpOptions
tcp_options o [] = some o
tcp_options o (name ∷ []) = none
tcp_options o (name ∷ argument ∷ rest) = elim (tcp_option o name argument) [
  | none ↦ none
  | some o' ↦ tcp_options o' rest
]

-- `wc_parse_log_level`
unfoldable pub uds_parse_log_level : Bytes → Outcome ℕ
uds_parse_log_level text = find_name 0 level_names text

-- The variables of `main` of src/main_uds.c and of src/main_uds_threaded.c.
pub record UdsOptions : Type 0 where
  pub socket_path : Bytes
  pub log_level : ℕ

abbrev pub uds_defaults : UdsOptions
uds_defaults = record { socket_path = codes "/tmp/wirecommand.sock"; log_level = log_info }

abbrev pub with_uds_level : UdsOptions → Outcome ℕ → Option UdsOptions
with_uds_level o (error e) = none
with_uds_level o (value level) = some (record o { log_level = level })

unfoldable pub uds_option : UdsOptions → Bytes → Bytes → Option UdsOptions
uds_option o name argument =
    if same_text name (codes "--socket")
    then some (record o { socket_path = argument })
    else if same_text name (codes "--log-level")
    then with_uds_level o (uds_parse_log_level argument)
    else none

unfoldable pub uds_options : UdsOptions → List Bytes → Option UdsOptions
uds_options o [] = some o
uds_options o (name ∷ []) = none
uds_options o (name ∷ argument ∷ rest) = elim (uds_option o name argument) [
  | none ↦ none
  | some o' ↦ uds_options o' rest
]

-- `wc_threaded_parse_log_level`
unfoldable pub threaded_parse_log_level : Bytes → Outcome ℕ
threaded_parse_log_level text = find_name 0 level_names text

abbrev pub threaded_defaults : UdsOptions
threaded_defaults = record {
  socket_path = codes "/tmp/wirecommand-threaded.sock";
  log_level = log_info;
}

unfoldable pub threaded_option : UdsOptions → Bytes → Bytes → Option UdsOptions
threaded_option o name argument =
    if same_text name (codes "--socket")
    then some (record o { socket_path = argument })
    else if same_text name (codes "--log-level")
    then with_uds_level o (threaded_parse_log_level argument)
    else none

unfoldable pub threaded_options : UdsOptions → List Bytes → Option UdsOptions
threaded_options o [] = some o
threaded_options o (name ∷ []) = none
threaded_options o (name ∷ argument ∷ rest) = elim (threaded_option o name argument) [
  | none ↦ none
  | some o' ↦ threaded_options o' rest
]

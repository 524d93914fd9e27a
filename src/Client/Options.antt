-- ===== src/Client/Options.antt =====
-- The command line of src/main_client.c.
pub mod Checked
use wire_command_c.Common.{
  ℕ, Bool, true, false, Option, none, some, List, [], ◌∷◌, ◌==◌, ◌&&◌, ◌||◌, not, if◌then◌else◌,
  ltb, length, Errno, einval, Outcome, value, error, Bytes, uint16_max, codes, is_null,
}
use wire_command_c.Protocol.{RequestType, request_ls, request_pwd, request_cat}
use wire_command_c.Arguments.{Number, strtoul, same_text, find_name, level_names}
use wire_command_c.Logging.{log_info}

unfoldable pub parse_log_level : Bytes → Outcome ℕ
parse_log_level text = find_name 0 level_names text

unfoldable pub parse_command : Bytes → Outcome RequestType
parse_command name =
    if same_text name (codes "LS")
    then value request_ls
    else if same_text name (codes "PWD")
    then value request_pwd
    else if same_text name (codes "CAT")
    then value request_cat
    else error einval

unfoldable pub parse_port : Bytes → Outcome ℕ
parse_port text =
    let n = strtoul text in
    if n.out_of_range
      || (length text == 0 || (not (length n.end == 0) || (n.value == 0 || ltb uint16_max n.value)))
    then error einval
    else value n.value

-- The variables of `main` that the options set.
pub record Options : Type 0 where
  pub socket_path : Bytes
  pub tcp_host : Bytes
  pub tcp_port : ℕ
  pub log_level : ℕ
  pub socket_option_seen : Bool
  pub use_tcp : Bool

abbrev pub default_options : Options
default_options = record {
  socket_path = codes "/tmp/wirecommand.sock";
  tcp_host = codes "127.0.0.1";
  tcp_port = 9090;
  log_level = log_info;
  socket_option_seen = false;
  use_tcp = false;
}

-- What one turn of the loop makes of an option and of the argument behind it: the usage is printed, the
-- loop ends, or it goes on.
pub data Turn : Type 0 where
  usage : Turn
  no_option : Turn
  option : Options → Turn

abbrev pub port_option : Options → Outcome ℕ → Turn
port_option o (error e) = usage
port_option o (value port) = option (record o { tcp_port = port; use_tcp = true })

abbrev pub level_option : Options → Outcome ℕ → Turn
level_option o (error e) = usage
level_option o (value level) = option (record o { log_level = level })

unfoldable pub option_turn : Options → Bytes → Bytes → Turn
option_turn o name argument =
    if same_text name (codes "--socket") && not o.use_tcp
    then option (record o { socket_path = argument; socket_option_seen = true })
    else if same_text name (codes "--host") && not o.socket_option_seen
    then option (record o { tcp_host = argument; use_tcp = true })
    else if same_text name (codes "--port") && not o.socket_option_seen
    then port_option o (parse_port argument)
    else if same_text name (codes "--log-level")
    then level_option o (parse_log_level argument)
    else no_option

-- The options and the arguments behind them, or the usage and exit status 2.
abbrev pub OptionsResult : Type 0
OptionsResult = Option (Options × List Bytes)

unfoldable pub parse_options : Options → List Bytes → OptionsResult
parse_options o [] = some (o, [])
parse_options o (name ∷ []) = some (o, name ∷ [])
parse_options o (name ∷ argument ∷ rest) = elim (option_turn o name argument) [
  | usage ↦ none
  | no_option ↦ some (o, name ∷ argument ∷ rest)
  | option o' ↦ parse_options o' rest
]

-- The request that the command line asks for.
pub record Command : Type 0 where
  pub options : Options
  pub type : RequestType
  pub argument : Option Bytes
  pub argument_length : ℕ

abbrev pub no_argument : Options → RequestType → List Bytes → Option Command
no_argument o type [] =
    some (record { options = o; type = type; argument = none; argument_length = 0 })
no_argument o type (a ∷ rest) = none

abbrev pub one_argument : Options → RequestType → List Bytes → Option Command
one_argument o type [] = none
one_argument o type (a ∷ []) =
    some (record { options = o; type = type; argument = some a; argument_length = length a })
one_argument o type (a ∷ b ∷ rest) = none

abbrev pub with_type : Options → List Bytes → Outcome RequestType → Option Command
with_type o rest (error e) = none
with_type o rest (value type) =
    if type == request_pwd then no_argument o type rest else one_argument o type rest

abbrev pub with_options : OptionsResult → Option Command
with_options none = none
with_options (some (o, [])) = none
with_options (some (o, name ∷ rest)) = with_type o rest (parse_command name)

-- The arguments behind the program's name; `none` for the usage and exit status 2.
unfoldable pub parse_arguments : List Bytes → Option Command
parse_arguments arguments = with_options (parse_options default_options arguments)

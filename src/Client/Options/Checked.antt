-- ===== src/Client/Options/Checked.antt =====
-- What the options of src/main_client.c can be.
use wire_command_c.Common.{
  ℕ, ◌≤◌, ◌<◌, ◌≡◌, refl, false, none, some, List, [], ◌∷◌, arith, inl, inr, Bool-cases, ◌==◌, ◌&&◌,
  not, length, Outcome, value, error, Bytes, uint16_max, codes,
}
use wire_command_c.Arguments.{same_text, level_names}
use wire_command_c.Arguments.Checked.{find_name-bound}
use wire_command_c.Arguments.Decimal.{decimal, numeral-digit, strtoul-decimal}
use wire_command_c.Logging.{log_trace}
use wire_command_c.Client.Options.{
  parse_log_level, parse_port, Options, default_options, Turn, usage, no_option, option,
  port_option, level_option, option_turn, parse_options, OptionsResult,
}

-- A port that the client accepts is in its range.
parse_port-bounds :
    (text : Bytes) (port : ℕ) → parse_port text ≡ value port → (0 < port) × (port ≤ uint16_max)
unfolding parse_port
parse_port-bounds text port e = ground arith

decimal-length : (n : ℕ) → length (decimal n) == 0 ≡ false
decimal-length n = let (d, cs, e, small) = numeral-digit n n in rw e (ground arith)

-- The client accepts the decimal numeral of every port from 1 to 65535 as that port.
pub parse_port-decimal :
    (port : ℕ) → 0 < port → port ≤ uint16_max → parse_port (decimal port) ≡ value port
unfolding parse_port
parse_port-decimal port pos small =
    rw (strtoul-decimal port (omega arith), decimal-length port) (ground arith)

-- The port and the level are in their ranges, and not both transports have been asked for.
abbrev pub IsChecked : Options → Type 0
IsChecked o =
    (0 < o.tcp_port)
    × (o.tcp_port ≤ uint16_max)
    × (o.log_level ≤ log_trace)
    × (o.socket_option_seen && o.use_tcp ≡ false)

-- What a turn leaves of the options, if the loop goes on.
abbrev CheckedTurn : Turn → Type 0
CheckedTurn usage = Unit
CheckedTurn no_option = Unit
CheckedTurn (option o) = IsChecked o

port_option-CheckedTurn :
    (o : Options) (text : Bytes) (x : Outcome ℕ)
    → IsChecked o
    → o.socket_option_seen ≡ false
    → parse_port text ≡ x
    → CheckedTurn (port_option o x)
port_option-CheckedTurn o text (error e) h no_socket f = tt
port_option-CheckedTurn o text (value port) h no_socket f =
    let t = parse_port-bounds text port f in (t.0, t.1, h.2, rw no_socket refl)

level_option-CheckedTurn :
    (o : Options) (text : Bytes) (x : Outcome ℕ)
    → IsChecked o
    → parse_log_level text ≡ x
    → CheckedTurn (level_option o x)
unfolding parse_log_level
level_option-CheckedTurn o text (error e) h f = tt
level_option-CheckedTurn o text (value level) h f =
    (h.0, h.1, omega (arith, find_name-bound 0 level_names text level f), h.3)

option_turn-CheckedTurn :
    (o : Options) (name argument : Bytes) → IsChecked o → CheckedTurn (option_turn o name argument)
unfolding option_turn
option_turn-CheckedTurn o name argument h =
    elim (Bool-cases (same_text name (codes "--socket") && not o.use_tcp)) [
      | inl e ↦
          let no_tcp : o.use_tcp ≡ false = ground (arith, e) in rw (e, no_tcp) (h.0, h.1, h.2, refl)
      | inr e ↦ elim (Bool-cases (same_text name (codes "--host") && not o.socket_option_seen)) [
        | inl f ↦
            let no_socket : o.socket_option_seen ≡ false = ground (arith, f) in
            rw (e, f, no_socket) (h.0, h.1, h.2, refl)
        | inr f ↦ elim (Bool-cases (same_text name (codes "--port") && not o.socket_option_seen)) [
          | inl g ↦
              let no_socket : o.socket_option_seen ≡ false = ground (arith, g) in
              rw (e, f, g) (port_option-CheckedTurn o argument _ h no_socket refl)
          | inr g ↦ elim (Bool-cases (same_text name (codes "--log-level"))) [
            | inl k ↦ rw (e, f, g, k) (level_option-CheckedTurn o argument _ h refl)
            | inr k ↦ rw (e, f, g, k) tt
          ]
        ]
      ]
    ]

abbrev CheckedResult : OptionsResult → Type 0
CheckedResult none = Unit
CheckedResult (some (o, rest)) = IsChecked o

options-CheckedResult :
    (o : Options) (arguments : List Bytes) → IsChecked o → CheckedResult (parse_options o arguments)
unfolding parse_options
options-CheckedResult o [] h = h
options-CheckedResult o (name ∷ []) h = h
options-CheckedResult o (name ∷ argument ∷ rest) h =
    at_turn (option_turn o name argument) (option_turn-CheckedTurn o name argument h)
      (λ o'. options-CheckedResult o' rest)
  where
    at_turn :
        (x : Turn)
        → CheckedTurn x
        → ((o' : Options) → IsChecked o' → CheckedResult (parse_options o' rest))
        → CheckedResult (elim x as (λ y. OptionsResult) [
          | usage ↦ none
          | no_option ↦ some (o, name ∷ argument ∷ rest)
          | option o' ↦ parse_options o' rest
        ])
    at_turn usage c more = tt
    at_turn no_option c more = h
    at_turn (option o') c more = more o' c

-- Whatever arguments the client is given, the options that it goes on with have a port from 1 to 65535
-- and one of the five levels, and ask for at most one of the two transports.
pub parse_options-IsChecked :
    (arguments rest : List Bytes) (o : Options)
    → parse_options default_options arguments ≡ some (o, rest)
    → IsChecked o
parse_options-IsChecked arguments rest o e =
    rw e at (
      options-CheckedResult default_options arguments (omega arith, omega arith, omega arith, refl))

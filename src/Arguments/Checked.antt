-- ===== src/Arguments/Checked.antt =====
-- What the options of the servers can be.
use wire_command_c.Common.{
  ℕ, suc, ◌+◌, ◌≤◌, ◌<◌, ◌≡◌, refl, arith, inl, inr, Bool-cases, Option, none, some, List, [], ◌∷◌,
  length, Outcome, value, error, Bytes, uint16_max, codes,
}
use wire_command_c.Arguments.{same_text, same_letters, find_name, level_names}
use wire_command_c.Arguments.Servers.{
  tcp_parse_port, tcp_parse_log_level, TcpOptions, with_port, with_level, tcp_option, tcp_options,
}
use wire_command_c.Logging.{log_trace}

pub find_name-bound :
    (index : ℕ) (names : List Bytes) (text : Bytes) (level : ℕ)
    → find_name index names text ≡ value level
    → level < index + length names
unfolding find_name
find_name-bound index [] text level e = absurd (cc)
find_name-bound index (name ∷ names) text level e = elim (Bool-cases (same_letters text name)) [
  | inl f ↦ ground (arith, rw f at e)
  | inr f ↦ omega (arith, find_name-bound (suc index) names text level (rw f at e))
]

-- The port and the level are in their ranges.
abbrev pub IsTcpChecked : TcpOptions → Type 0
IsTcpChecked o = (0 < o.port) × (o.port ≤ uint16_max) × (o.log_level ≤ log_trace)

abbrev pub CheckedResult : Option TcpOptions → Type 0
CheckedResult none = Unit
CheckedResult (some o) = IsTcpChecked o

with_port-CheckedResult :
    (o : TcpOptions) (text : Bytes) (x : Outcome ℕ)
    → IsTcpChecked o
    → tcp_parse_port text ≡ x
    → CheckedResult (with_port o x)
unfolding tcp_parse_port
with_port-CheckedResult o text (error e) h f = tt
with_port-CheckedResult o text (value port) h f = (ground (arith, f), ground (arith, f), h.2)

with_level-CheckedResult :
    (o : TcpOptions) (text : Bytes) (x : Outcome ℕ)
    → IsTcpChecked o
    → tcp_parse_log_level text ≡ x
    → CheckedResult (with_level o x)
unfolding tcp_parse_log_level
with_level-CheckedResult o text (error e) h f = tt
with_level-CheckedResult o text (value level) h f =
    (h.0, h.1, omega (arith, find_name-bound 0 level_names text level f))

tcp_option-CheckedResult :
    (o : TcpOptions) (name argument : Bytes)
    → IsTcpChecked o
    → CheckedResult (tcp_option o name argument)
unfolding tcp_option
tcp_option-CheckedResult o name argument h = elim (Bool-cases (same_text name (codes "--bind"))) [
  | inl e ↦ rw e h
  | inr e ↦ elim (Bool-cases (same_text name (codes "--port"))) [
    | inl f ↦ rw (e, f) (with_port-CheckedResult o argument _ h refl)
    | inr f ↦ elim (Bool-cases (same_text name (codes "--log-level"))) [
      | inl g ↦ rw (e, f, g) (with_level-CheckedResult o argument _ h refl)
      | inr g ↦ rw (e, f, g) tt
    ]
  ]
]

-- The options that the server over TCP starts with have a port from 1 to 65535 and one of the five levels.
pub tcp_options-CheckedResult :
    (o : TcpOptions) (arguments : List Bytes)
    → IsTcpChecked o
    → CheckedResult (tcp_options o arguments)
unfolding tcp_options
tcp_options-CheckedResult o [] h = h
tcp_options-CheckedResult o (name ∷ []) h = tt
tcp_options-CheckedResult o (name ∷ argument ∷ rest) h =
    at_option (tcp_option o name argument) (tcp_option-CheckedResult o name argument h)
      (λ o'. tcp_options-CheckedResult o' rest)
  where
    at_option :
        (x : Option TcpOptions)
        → CheckedResult x
        → ((o' : TcpOptions) → IsTcpChecked o' → CheckedResult (tcp_options o' rest))
        → CheckedResult
            (elim x as (λ y. Option TcpOptions) [ none ↦ none | some o' ↦ tcp_options o' rest ])
    at_option none c more = tt
    at_option (some o') c more = more o' c

-- ===== src/Arguments.antt =====
-- What the programs use of the C library on the texts of their command lines: `strcmp()`,
-- `strcasecmp()` in the POSIX locale, and `strtoul()` with base 10 and 64 bits. A text is the list of its
-- bytes before the final NUL.
pub mod Decimal
pub mod Servers
pub mod Checked
use wire_command_c.Common.{
  ℕ, zero, suc, ◌+◌, ◌-◌, ◌*◌, Bool, true, false, Option, none, some, List, [], ◌∷◌, ◌==◌, ◌&&◌,
  ◌||◌, if◌then◌else◌, leb, ltb, size_mod, sub_size, Errno, einval, Outcome, value, error, Bytes,
  uint16_max, codes,
}

-- `strcmp(a, b) == 0`
abbrev pub same_text : Bytes → Bytes → Bool
same_text [] [] = true
same_text [] (d ∷ ds) = false
same_text (c ∷ cs) [] = false
same_text (c ∷ cs) (d ∷ ds) = c == d && same_text cs ds

abbrev pub lower : ℕ → ℕ
lower c = if leb 65 c && leb c 90 then c + 32 else c

-- `strcasecmp(a, b) == 0`
abbrev pub same_letters : Bytes → Bytes → Bool
same_letters [] [] = true
same_letters [] (d ∷ ds) = false
same_letters (c ∷ cs) [] = false
same_letters (c ∷ cs) (d ∷ ds) = lower c == lower d && same_letters cs ds

abbrev pub is_space : ℕ → Bool
is_space c = c == 32 || (leb 9 c && leb c 13)

abbrev pub is_digit : ℕ → Bool
is_digit c = leb 48 c && leb c 57

abbrev pub skip_space : Bytes → Bytes
skip_space [] = []
skip_space (c ∷ cs) = let rest = skip_space cs in if is_space c then rest else c ∷ cs

-- The value of the digits in front, and what is behind them.
unfoldable pub digits : ℕ → Bytes → ℕ × Bytes
digits acc [] = (acc, [])
digits acc (c ∷ cs) =
    let rest = digits (acc * 10 + (c - 48)) cs in if is_digit c then rest else (acc, c ∷ cs)

-- The value, whether `errno` is set to ERANGE, and the text from `*end` on.
pub record Number : Type 0 where
  pub value : ℕ
  pub out_of_range : Bool
  pub end : Bytes

-- The digits behind the sign. A value that does not fit is ULONG_MAX; a minus sign negates modulo 2 ^ 64.
unfoldable pub number : Bool → Bytes → Number
unfolding digits
number negative cs =
    let (n, rest) = digits 0 cs in
    if leb size_mod n
    then record { value = size_mod - 1; out_of_range = true; end = rest }
    else record { value = if negative then sub_size 0 n else n; out_of_range = false; end = rest }

abbrev pub starts_number : Bytes → Bool
starts_number [] = false
starts_number (c ∷ cs) = is_digit c

-- Without a digit there is no number, and `*end` is the text itself.
unfoldable pub unsigned_or_none : Bytes → Bool → Bytes → Number
unfolding number
unsigned_or_none text negative cs =
    if starts_number cs
    then number negative cs
    else record { value = 0; out_of_range = false; end = text }

abbrev pub after_space : Bytes → Bytes → Number
after_space text [] = unsigned_or_none text false []
after_space text (c ∷ cs) =
    if c == 45
    then unsigned_or_none text true cs
    else if c == 43
    then unsigned_or_none text false cs
    else unsigned_or_none text false (c ∷ cs)

-- `strtoul(text, &end, 10)`
unfoldable pub strtoul : Bytes → Number
strtoul text = after_space text (skip_space text)

abbrev pub level_names : List Bytes
level_names = codes "error" ∷ codes "warn" ∷ codes "info" ∷ codes "debug" ∷ codes "trace" ∷ []

-- The loop of `strcasecmp()` over the names, from an index on.
unfoldable pub find_name : ℕ → List Bytes → Bytes → Outcome ℕ
find_name index [] text = error einval
find_name index (name ∷ names) text =
    let rest = find_name (suc index) names text in
    if same_letters text name then value index else rest

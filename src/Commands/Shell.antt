-- ===== src/Commands/Shell.antt =====
-- How a POSIX shell reads one word of a command line (XCU 2.2, quoting): an independent description,
-- against which the quoting of src/commands.c is proved.
use wire_command_c.Common.{
  ℕ, Bool, Option, none, some, [], ◌∷◌, ◌==◌, if◌then◌else◌, ◌||◌, leb, ◌&&◌, Bytes,
}
use wire_command_c.Commands.{quote_mark, backslash}

-- Outside quotes these bytes end a word or mean something to the shell; so does any byte that is not
-- a letter, a digit or one of the harmless marks, in this reading.
abbrev pub is_plain : ℕ → Bool
is_plain c =
    (leb 97 c && leb c 122)
    || ((leb 65 c && leb c 90) || ((leb 48 c && leb c 57) || (c == 47 || (c == 45 || c == 46))))

pub data Mode : Type 0 where
  unquoted quoted escaped : Mode

abbrev pub push : ℕ → Option (Bytes × Bytes) → Option (Bytes × Bytes)
push c none = none
push c (some (word, left)) = some (c ∷ word, left)

-- The word that the line begins with, and the line behind it, if the word ends at a blank; `none` if
-- the shell would do anything but take the bytes for themselves.
unfoldable pub read_word : Mode → Bytes → Option (Bytes × Bytes)
read_word mode [] = none
read_word quoted (c ∷ cs) =
    let closed = read_word unquoted cs in
    let inside = push c (read_word quoted cs) in if c == quote_mark then closed else inside
read_word escaped (c ∷ cs) = push c (read_word unquoted cs)
read_word unquoted (c ∷ cs) =
    let opened = read_word quoted cs in
    let escape = read_word escaped cs in
    let plain = push c (read_word unquoted cs) in
    if c == quote_mark
    then opened
    else if c == backslash
    then escape
    else if c == 32
    then some ([], c ∷ cs)
    else if is_plain c
    then plain
    else none

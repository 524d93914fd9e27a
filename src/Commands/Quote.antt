-- ===== src/Commands/Quote.antt =====
-- The quoting of src/commands.c, read back by the shell.
use wire_command_c.Common.{
  ℕ, ◌+◌, ◌-◌, ◌*◌, ◌/◌, ◌≤◌, ◌<◌, ◌≡◌, refl, ◌∙◌, ap, Bool, true, false, Option, some, [], ◌∷◌,
  ◌++◌, arith, inl, inr, Bool-cases, ◌==◌, ltb, length, length-append, length-take, take, take_all,
  drop, append_assoc, size_mod, Outcome, value, error, Bytes, bytes, sub_size,
}
use wire_command_c.Commands.{
  quote_mark, quote_loop, has_nul, quote_argument, build, suffix, format_command, command_length,
}
use wire_command_c.Commands.Shell.{unquoted, quoted, read_word}

-- Inside quotes, the shell takes the bytes of the loop for the argument's, and leaves the quotes.
read_word-quote_loop :
    (xs rest : Bytes)
    → read_word quoted (quote_loop xs ++ quote_mark ∷ 32 ∷ rest) ≡ some (xs, 32 ∷ rest)
unfolding read_word
read_word-quote_loop [] rest = refl
read_word-quote_loop (c ∷ cs) rest = elim (Bool-cases (c == quote_mark)) [
  | inl e ↦ rw e (ground (arith, read_word-quote_loop cs rest))
  | inr f ↦ rw (f, f) (ground (arith, read_word-quote_loop cs rest))
]

length-quote_loop : (xs : Bytes) → length (quote_loop xs) ≤ 4 * length xs
length-quote_loop [] = omega arith
length-quote_loop (c ∷ cs) = ground (arith, length-quote_loop cs)

-- When an argument of `n` bytes is quoted, it has a byte and no NUL among them; the quoted text fits
-- with its final NUL the `4 * n + 3` bytes allocated, a size that does not wrap; and a shell that
-- reads it before a blank takes it for the one word whose bytes are those of the argument, whatever
-- they are.
pub quote_argument-read_word :
    (memory : Bool) (argument : Option Bytes) (n : ℕ) (text rest : Bytes)
    → n ≤ length (bytes argument)
    → quote_argument memory argument n ≡ value text
    → (0 < n)
      × (has_nul (take n (bytes argument)) ≡ false)
      × (length text + 1 ≤ 4 * n + 3)
      × (4 * n + 3 < size_mod)
      × (read_word unquoted (text ++ 32 ∷ rest) ≡ some (take n (bytes argument), 32 ∷ rest))
unfolding quote_argument
quote_argument-read_word memory argument n text rest given h =
    let xs = take n (bytes argument) in
    let shape : text ≡ quote_mark ∷ (quote_loop xs ++ quote_mark ∷ []) = ground arith in
    let size = length-quote_loop xs in
    let total : length text ≡ 1 + (length (quote_loop xs) + 1) =
      ap (λ (t : Bytes). length t) shape
      ∙ omega (arith, length-append (quote_loop xs) (quote_mark ∷ [])) in
    let count : length xs ≡ n = omega (arith, length-take n (bytes argument)) in
    (
      ground arith,
      ground arith,
      omega (arith, total, size, count),
      ground arith,
      rw shape (unfold read_word in (rw append_assoc (read_word-quote_loop xs rest))),
    )

format_command-whole :
    (memory : Bool) (program text command : Bytes)
    → length program + length text + 13 < size_mod
    → format_command memory program text ≡ value command
    → command ≡ program ++ (32 ∷ (text ++ suffix))
unfolding format_command
format_command-whole memory program text command small h =
    let whole : Bytes = program ++ (32 ∷ (text ++ suffix)) in
    let cut : command ≡ take (sub_size (command_length program text) 1) whole = ground arith in
    cut
    ∙ take_all (sub_size (command_length program text) 1) whole
        (omega (arith, length-append program (32 ∷ (text ++ suffix)), length-append text suffix))

-- The command line that is built is not truncated: it is the program, a blank, and a text that the
-- shell reads as the one word of the argument's bytes, in front of the redirection.
pub build-read_word :
    (memory₁ memory₂ : Bool) (program : Bytes) (argument : Option Bytes) (n : ℕ) (command : Bytes)
    → n ≤ length (bytes argument)
    → length program + (4 * n + 3) + 13 < size_mod
    → build memory₁ memory₂ program argument n ≡ value command
    → (line : Bytes) × (command ≡ program ++ (32 ∷ line))
      × (read_word unquoted line ≡ some (take n (bytes argument), suffix))
unfolding build
build-read_word memory₁ memory₂ program argument n command given small h =
    go (quote_argument memory₁ argument n) refl
  where
    go :
        (q : Outcome Bytes)
        → quote_argument memory₁ argument n ≡ q
        → (line : Bytes) × (command ≡ program ++ (32 ∷ line))
          × (read_word unquoted line ≡ some (take n (bytes argument), suffix))
    go (error e) eq = absurd (let h' = rw (eq, build) at h in cc)
    go (value text) eq =
        let facts = quote_argument-read_word memory₁ argument n text (drop 1 suffix) given eq in
        (
          text ++ suffix,
          format_command-whole memory₂ program text command (omega (arith, facts.2))
              (rw (eq, build) at h),
          facts.4,
        )

quote_argument_valid :
    (xs : Bytes) (n : ℕ)
    → 0 < n
    → has_nul (take n xs) ≡ false
    → 4 * n + 3 < size_mod
    → quote_argument true (some xs) n
      ≡ value (quote_mark ∷ (quote_loop (take n xs) ++ quote_mark ∷ []))
unfolding quote_argument
quote_argument_valid xs n pos clean small =
    let some_bytes : n == 0 ≡ false = ground arith in
    let fits : ltb ((size_mod - 1 - 3) / 4) n ≡ false = ground arith in
    rw (some_bytes, clean, fits) refl

build_succeeds :
    (program xs : Bytes) (n : ℕ)
    → 0 < n
    → n ≤ length xs
    → has_nul (take n xs) ≡ false
    → length program + (4 * n + 3) + 13 < size_mod
    → (command : Bytes) × (build true true program (some xs) n ≡ value command)
unfolding build format_command
build_succeeds program xs n pos given clean small =
    rw (build, quote_argument_valid xs n pos clean (omega arith)) (_, refl)

-- A command line is built for every argument of at least one byte, none of them NUL, when memory is
-- there and the sizes do not wrap; its text is read by the shell as the one word of these bytes.
pub build_valid :
    (program xs : Bytes) (n : ℕ)
    → 0 < n
    → n ≤ length xs
    → has_nul (take n xs) ≡ false
    → length program + (4 * n + 3) + 13 < size_mod
    → (line : Bytes) × (build true true program (some xs) n ≡ value (program ++ (32 ∷ line)))
      × (read_word unquoted line ≡ some (take n xs, suffix))
build_valid program xs n pos given clean small =
    let (command, made) = build_succeeds program xs n pos given clean small in
    let (line, shape, word) =
      build-read_word true true program (some xs) n command given small made in
    (line, made ∙ ap value shape, word)

-- ===== src/Commands/Examples.antt =====
-- Tests of the model of src/commands.c, and the theorems at concrete inputs.
use wire_command_c.Common.{
  ◌≡◌, refl, true, false, some, ◌∷◌, ◌++◌, arith, Bytes, value, codes, take, false,
}
use wire_command_c.Buffer.Plain.{plain_realloc, plain-IsRealloc}
use wire_command_c.Commands.{Child, Shell, exited, quote_argument, build, suffix, run, no_result}
use wire_command_c.Commands.Shell.{unquoted, read_word}
use wire_command_c.Commands.Quote.{build-read_word}
use wire_command_c.Commands.Result.{Ran, run_lem}

-- it's
abbrev argument : Bytes
argument = codes "it's"

quote_test : quote_argument true (some argument) 4 ≡ value (codes "'it'\\''s'")
unfolding quote_argument
quote_test = refl

build_test :
    build true true (codes "cat --") (some argument) 4
    ≡ value (codes "cat -- 'it'\\''s' 2>/dev/null")
unfolding build quote_argument
build_test = refl

build-read_word_example :
    (line : Bytes) × (codes "cat -- 'it'\\''s' 2>/dev/null" ≡ codes "cat --" ++ (32 ∷ line))
    × (read_word unquoted line ≡ some (take 4 argument, suffix))
build-read_word_example =
    build-read_word true true (codes "cat --") (some argument) 4
      (codes "cat -- 'it'\\''s' 2>/dev/null") (omega arith) (omega arith) build_test

abbrev child : Child
child = record { output = codes "a\nb\n"; read_fails = false; status = exited 0 }

abbrev shell : Shell
shell command = value child

run_lem_example :
    Ran
      (λ k. plain_realloc)
      child
      100
      no_result
      (run shell (λ k. plain_realloc) (codes "ls") 100 no_result)
run_lem_example =
    run_lem shell (λ k. plain_realloc) (codes "ls") 100 no_result child (λ k. plain-IsRealloc)
      (omega arith) refl

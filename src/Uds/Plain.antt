-- ===== src/Uds/Plain.antt =====
-- A request for PWD, and calls that answer every request with the path of the root: they show that the
-- hypotheses of the theorems can be met.
use wire_command_c.Common.{true, false, [], ◌∷◌, Bytes, value, codes}
use wire_command_c.Buffer.Plain.{plain_realloc}
use wire_command_c.Commands.{exited}
use wire_command_c.Uds.Respond.{Calls}

-- The frame of PWD.
abbrev pub pwd_frame : Bytes
pwd_frame = 0 ∷ 6 ∷ 0 ∷ 2 ∷ 0 ∷ 0 ∷ []

abbrev pub calls : Calls
calls = record {
  command = record {
    memory₁ = true;
    memory₂ = true;
    realloc = λ k. plain_realloc;
    shell =
        λ command. value (record { output = codes "/\n"; read_fails = false; status = exited 0 });
  };
  strerror = λ e. codes "no";
  snprintf_fails = false;
  realloc₁ = plain_realloc;
  realloc₂ = plain_realloc;
}

-- ===== src/Commands/Bounds.antt =====
-- The results of the commands of src/commands.c are within their limit, and lie in their block.
use wire_command_c.Common.{
  ℕ, ◌-◌, ◌≤◌, ◌<◌, ◌≡◌, refl, ap, Option, arith, inl, inr, Bool-cases, ◌==◌, ◌||◌, ◌&&◌, not,
  get_or, ltb, length, length-take, size_mod, Outcome, value, error, Bytes, bytes, is_null, Status,
  ok, fail, codes,
}
use wire_command_c.Buffer.{Realloc}
use wire_command_c.Buffer.Contents.{IsRealloc}
use wire_command_c.Commands.{
  CommandResult, Child, Environment, no_result, run, run_built, build, ls, pwd, cat, strip_newline,
}
use wire_command_c.Commands.Result.{Ran, run_lem}

-- A successful result has at most `max_size` bytes, all of them in its block.
abbrev pub Bounded : ℕ → Status × CommandResult → Type 0
Bounded max_size (s, r) = (s ≡ ok) → (r.length ≤ max_size) × (r.length ≤ length (bytes r.block))

abbrev pub IsEnvironment : Environment → Type 0
IsEnvironment env = (k : ℕ) → IsRealloc (env.realloc k)

Ran-Bounded :
    (realloc : ℕ → Realloc) (child : Child) (max_size : ℕ) (before : CommandResult)
    (x : Status × CommandResult)
    → Ran realloc child max_size before x
    → Bounded max_size x
Ran-Bounded realloc child max_size before (s, r) (inl (es, z, f, small, l, t)) e = (
  omega arith,
  omega (arith, l, length-take r.length (bytes r.block), ap (λ (xs : Bytes). length xs) t),
)
Ran-Bounded realloc child max_size before (s, r) (inr (e', es, same, why)) e = absurd (cc)

module _ (env : Environment) (law : IsEnvironment env) (max_size : ℕ)
    (small : max_size < size_mod) where
  run-Bounded :
      (command : Bytes) → Bounded max_size (run env.shell env.realloc command max_size no_result)
  unfolding run
  run-Bounded command = go (env.shell command) refl
    where
      go :
          (o : Outcome Child)
          → env.shell command ≡ o
          → Bounded max_size (run env.shell env.realloc command max_size no_result)
      go (error e) h = rw (h, run) (λ n. cc)
      go (value child) h =
          Ran-Bounded env.realloc child max_size no_result _
            (run_lem env.shell env.realloc command max_size no_result child law small h)

  run_built-Bounded : (o : Outcome Bytes) → Bounded max_size (run_built env max_size o)
  unfolding run_built
  run_built-Bounded (error e) n = absurd (cc)
  run_built-Bounded (value command) n = run-Bounded command n

  strip_newline-Bounded :
      (x : Status × CommandResult) → Bounded max_size x → Bounded max_size (strip_newline x)
  unfolding strip_newline
  strip_newline-Bounded (fail e, r) b = b
  strip_newline-Bounded (ok, r) b =
      elim (Bool-cases (ltb 0 r.length && get_or (bytes r.block) (r.length - 1) 0 == 10)) [
        | inl h ↦ rw h (λ n. let t = b refl in (omega arith, omega arith))
        | inr h ↦ rw h b
      ]

  -- LS, PWD and CAT succeed only with a result within their limit, all of it in its block.
  pub ls-Bounded : (argument : Option Bytes) (n : ℕ) → Bounded max_size (ls env argument n max_size)
  unfolding ls
  ls-Bounded argument n =
      run_built-Bounded (build env.memory₁ env.memory₂ (codes "ls -1 --") argument n)

  pub pwd-Bounded : Bounded max_size (pwd env max_size)
  unfolding pwd
  pwd-Bounded = strip_newline-Bounded _ (run-Bounded (codes "pwd 2>/dev/null"))

  pub cat-Bounded :
      (argument : Option Bytes) (n : ℕ) → Bounded max_size (cat env argument n max_size)
  unfolding cat
  cat-Bounded argument n =
      elim (Bool-cases (is_null argument || (n == 0 || not (get_or (bytes argument) 0 0 == 47)))) [
        | inl h ↦ rw h (λ e. absurd (cc))
        | inr h ↦
            rw h (run_built-Bounded (build env.memory₁ env.memory₂ (codes "cat --") argument n))
      ]

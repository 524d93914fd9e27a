-- ===== src/Arguments/Decimal.antt =====
-- Decimal numerals, and what `strtoul()` reads of them.
use wire_command_c.Common.{
  ℕ, zero, suc, ◌+◌, ◌-◌, ◌*◌, ◌/◌, ◌%◌, ◌≤◌, ◌<◌, ◌≡◌, refl, ◌∙◌, sym, ap, append-nil,
  append_assoc, true, false, [], ◌∷◌, ◌++◌, arith, inl, inr, Bool-cases, ◌==◌, if◌then◌else◌, leb,
  ltb, size_mod, Bytes,
}
use wire_command_c.Arguments.{is_digit, is_space, digits, number, unsigned_or_none, strtoul}

-- The numeral of a number, on fuel: its last digit stands behind the numeral of its tenth.
abbrev pub numeral : ℕ → ℕ → Bytes
numeral zero n = (48 + n % 10) ∷ []
numeral (suc fuel) n =
    let rest = numeral fuel (n / 10) in
    if ltb n 10 then (48 + n % 10) ∷ [] else rest ++ ((48 + n % 10) ∷ [])

-- The number is fuel enough.
abbrev pub decimal : ℕ → Bytes
decimal n = numeral n n

digits-digit :
    (acc d : ℕ) (rest : Bytes) → d < 10 → digits acc ((48 + d) ∷ rest) ≡ digits (acc * 10 + d) rest
unfolding digits
digits-digit acc d rest h =
    let found : is_digit (48 + d) ≡ true = ground arith in
    let value : acc * 10 + (48 + d - 48) ≡ acc * 10 + d = omega arith in rw (found, value) refl

digits-numeral :
    (fuel n : ℕ) (rest : Bytes) → n ≤ fuel → digits 0 (numeral fuel n ++ rest) ≡ digits n rest
digits-numeral zero n rest h =
    digits-digit 0 (n % 10) rest (omega arith)
    ∙ ap (λ (k : ℕ). digits k rest) (let e : 0 * 10 + n % 10 ≡ n = omega arith in e)
digits-numeral (suc fuel) n rest h = elim (Bool-cases (ltb n 10)) [
  | inl e ↦ rw e (
      digits-digit 0 (n % 10) rest (omega arith)
      ∙ ap (λ (k : ℕ). digits k rest) (let e' : 0 * 10 + n % 10 ≡ n = ground (arith, e) in e'))
  | inr e ↦ rw e (
      ap (digits 0) (append_assoc (numeral fuel (n / 10)) ((48 + n % 10) ∷ []) rest)
      ∙ digits-numeral fuel (n / 10) ((48 + n % 10) ∷ rest) (ground (arith, e))
      ∙ digits-digit (n / 10) (n % 10) rest (omega arith)
      ∙ ap (λ (k : ℕ). digits k rest) (let e' : n / 10 * 10 + n % 10 ≡ n = omega arith in e'))
]

-- A numeral begins with a digit.
pub numeral-digit :
    (fuel n : ℕ) → (d : ℕ) × (cs : Bytes) × (numeral fuel n ≡ (48 + d) ∷ cs) × (d < 10)
numeral-digit zero n = (n % 10, [], refl, omega arith)
numeral-digit (suc fuel) n =
    let (d, cs, e, small) = numeral-digit fuel (n / 10) in
    elim (Bool-cases (ltb n 10)) [
      | inl f ↦ rw f (n % 10, [], refl, omega arith)
      | inr f ↦ rw (f, e) (d, cs ++ ((48 + n % 10) ∷ []), refl, small)
    ]

number-decimal :
    (n : ℕ)
    → n < size_mod
    → number false (decimal n) ≡ record { value = n; out_of_range = false; end = [] }
unfolding number
number-decimal n h =
    let read : digits 0 (decimal n) ≡ (n, []) =
      ap (digits 0) (sym (append-nil (decimal n)))
      ∙ digits-numeral n n [] (omega arith)
      ∙ at_end n in
    let fits : leb size_mod n ≡ false = ground arith in rw (read, fits) refl
  where
    at_end : (k : ℕ) → digits k [] ≡ (k, [])
    at_end k = unfold digits in refl

-- A text that begins with a digit has neither blanks nor a sign in front.
strtoul-digit :
    (d : ℕ) (cs : Bytes) → d < 10 → strtoul ((48 + d) ∷ cs) ≡ number false ((48 + d) ∷ cs)
unfolding strtoul unsigned_or_none
strtoul-digit d cs h =
    let no_space : is_space (48 + d) ≡ false = ground arith in
    let no_minus : 48 + d == 45 ≡ false = ground arith in
    let no_plus : 48 + d == 43 ≡ false = ground arith in
    let found : is_digit (48 + d) ≡ true = ground arith in
    rw (no_space, no_minus, no_plus, found) refl

-- `strtoul()` reads the decimal numeral of a number below 2 ^ 64 to its end, with its value.
pub strtoul-decimal :
    (n : ℕ)
    → n < size_mod
    → strtoul (decimal n) ≡ record { value = n; out_of_range = false; end = [] }
strtoul-decimal n h =
    let (d, cs, e, small) = numeral-digit n n in
    ap strtoul e ∙ strtoul-digit d cs small ∙ ap (number false) (sym e) ∙ number-decimal n h

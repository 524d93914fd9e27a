-- ===== src/Buffer/Plain.antt =====
-- A `realloc()` that always finds memory and fills new bytes with 0, and some buffers: they show that
-- the hypotheses of the theorems can be met.
use wire_command_c.Common.{
  ℕ, zero, suc, ◌-◌, ◌≤◌, ◌≡◌, refl, ◌∙◌, ap, none, some, [], ◌∷◌, ◌++◌, arith, length, take,
  length-append, length-take, take-append_le, take-take, Bytes, bytes,
}
use wire_command_c.Buffer.{Buffer, Realloc}
use wire_command_c.Buffer.Contents.{IsValid, IsRealloc}

abbrev pub zeros : ℕ → Bytes
zeros zero = []
zeros (suc n) = 0 ∷ zeros n

length-zeros : (n : ℕ) → length (zeros n) ≡ n
length-zeros zero = refl
length-zeros (suc n) = ap suc (length-zeros n)

abbrev resized : Bytes → ℕ → Bytes
resized xs n = take n xs ++ zeros (n - length xs)

abbrev pub plain_realloc : Realloc
plain_realloc p n = some (resized (bytes p) n)

length-resized : (xs : Bytes) (n : ℕ) → length (resized xs n) ≡ n
length-resized xs n = omega (
  arith,
  length-append (take n xs) (zeros (n - length xs)),
  length-take n xs,
  length-zeros (n - length xs),
)

take-resized : (xs : Bytes) (n k : ℕ) → k ≤ length xs → k ≤ n → take k (resized xs n) ≡ take k xs
take-resized xs n k h l =
    take-append_le k (take n xs) (zeros (n - length xs)) (omega (arith, length-take n xs))
    ∙ take-take k n xs l

pub plain-IsRealloc : IsRealloc plain_realloc
plain-IsRealloc = record {
  size = λ p n q e.
      rw (let same : resized (bytes p) n ≡ q = ground arith in same) at
        (length-resized (bytes p) n);
  keeps = λ p n q k e h l.
      rw (let same : resized (bytes p) n ≡ q = ground arith in same) at
        (take-resized (bytes p) n k h l);
}

-- A buffer with nothing in it, for up to 100 bytes.
abbrev pub empty_buffer : Buffer
empty_buffer = record { block = none; length = 0; capacity = 0; max_size = 100 }

pub empty_buffer-IsValid : IsValid empty_buffer
empty_buffer-IsValid = omega arith

-- Three bytes in a block of four.
abbrev pub small_buffer : Buffer
small_buffer = record {
  block = some (7 ∷ 8 ∷ 9 ∷ 0 ∷ []);
  length = 3;
  capacity = 4;
  max_size = 100;
}

pub small_buffer-IsValid : IsValid small_buffer
small_buffer-IsValid = omega arith

-- ===== src/Sockets/Laws.antt =====
-- What `wc_socket_write_all` of src/socket_utils.c writes.
use wire_command_c.Common.{
  ℕ, zero, suc, ◌<◌, ◌≡◌, ◌≢◌, refl, ◌∙◌, ap, Option, none, List, [], ◌∷◌, ◌++◌, arith, ◌⊎◌, inl,
  inr, length, length-append, take, drop, append_assoc, take-append-drop, ok, fail, Bytes, bytes,
  is_null, ◌&&◌, not, ◌==◌, Bool-cases, einval,
}
use wire_command_c.Sockets.{
  WriteResult, wrote, write_interrupted, write_failed, Written, returned, blocked, after,
  write_loop, write_all,
}

-- The bytes `taken` are a beginning of `xs`, and all of it if the status is 0.
abbrev pub WrittenOf : Bytes → Written → Type 0
WrittenOf xs (returned ok taken) = taken ≡ xs
WrittenOf xs (returned (fail e) taken) =
    (rest : Bytes) × (taken ++ rest ≡ xs) × (length taken < length xs)
WrittenOf xs (blocked taken) = (rest : Bytes) × (taken ++ rest ≡ xs) × (length taken < length xs)

after-WrittenOf : (xs ys : Bytes) (w : Written) → WrittenOf ys w → WrittenOf (xs ++ ys) (after xs w)
after-WrittenOf xs ys (returned ok taken) e = ap (◌++◌ xs) e
after-WrittenOf xs ys (returned (fail e) taken) (rest, p, l) = (
  rest,
  append_assoc xs taken rest ∙ ap (◌++◌ xs) p,
  omega (arith, length-append xs taken, length-append xs ys),
)
after-WrittenOf xs ys (blocked taken) (rest, p, l) = (
  rest,
  append_assoc xs taken rest ∙ ap (◌++◌ xs) p,
  omega (arith, length-append xs taken, length-append xs ys),
)

write_loop-WrittenOf : (rs : List WriteResult) (xs : Bytes) → WrittenOf xs (write_loop rs xs)
unfolding write_loop
write_loop-WrittenOf rs [] = refl
write_loop-WrittenOf [] (x ∷ xs) = (x ∷ xs, refl, omega arith)
write_loop-WrittenOf (wrote zero ∷ rs) (x ∷ xs) = (x ∷ xs, refl, omega arith)
write_loop-WrittenOf (wrote (suc n) ∷ rs) (x ∷ xs) =
    rw (take-append-drop n xs) at
      (after-WrittenOf (x ∷ take n xs) (drop n xs) _ (write_loop-WrittenOf rs (drop n xs)))
write_loop-WrittenOf (write_interrupted ∷ rs) (x ∷ xs) = write_loop-WrittenOf rs (x ∷ xs)
write_loop-WrittenOf (write_failed e ∷ rs) (x ∷ xs) = (x ∷ xs, refl, omega arith)

pub write_all-WrittenOf :
    (rs : List WriteResult) (src : Option Bytes) (size : ℕ)
    → ((src ≡ none) × (size ≢ 0) × (write_all rs src size ≡ returned (fail einval) []))
      ⊎ WrittenOf (take size (bytes src)) (write_all rs src size)
unfolding write_all
write_all-WrittenOf rs src size = elim (Bool-cases (is_null src && not (size == 0))) [
  | inl e ↦ rw e (inl (ground arith, ground arith, refl))
  | inr e ↦ rw e (inr (write_loop-WrittenOf rs (take size (bytes src))))
]

-- ===== src/Protocol/Stream.antt =====
-- Incremental parsing: what the request parser of src/protocol.c answers on a part of the input it
-- still answers when more bytes have arrived, so that a stream is cut into the same requests however
-- it is split into reads.
use wire_command_c.Common.{
  ℕ, zero, suc, ◌+◌, ◌≤◌, ◌<◌, ◌≡◌, ◌≢◌, refl, ◌∙◌, ap, ◌⊎◌, inl, inr, some, [], ◌∷◌, ◌++◌, arith,
  length, drop, uint16_max, Bytes, length-append, length-drop, take-append_le, drop-append_le,
}
use wire_command_c.Protocol.{
  ParseResult, complete, need_more, invalid, Request, parse_request, decode_u16,
}
use wire_command_c.Protocol.Frame.{request_frame, IsRequestType}
use wire_command_c.Protocol.Parse.{accepted, parse_request-frame}

-- Once the parser has accepted or refused a message, bytes that arrive behind it change nothing.
pub parse_request-append :
    (xs ys : Bytes)
    → parse_request (some xs) (length xs) ≢ need_more
    → parse_request (some (xs ++ ys)) (length (xs ++ ys)) ≡ parse_request (some xs) (length xs)
unfolding parse_request
parse_request-append (a ∷ b ∷ c ∷ d ∷ e ∷ f ∷ rest) ys h = ground (
  arith,
  length-append rest ys,
  take-append_le (decode_u16 (a ∷ b ∷ c ∷ d ∷ e ∷ f ∷ rest) 4) rest ys,
)
parse_request-append xs ys h = absurd (h refl)

-- The parser never waits for more when as many bytes as the largest message has are there.
pub parse_request-need_more :
    (xs : Bytes) → parse_request (some xs) (length xs) ≡ need_more → length xs < uint16_max
unfolding parse_request
parse_request-need_more xs h = ground arith

-- Bytes are refused only if no request frame begins with them, or they with one.
pub parse_request-invalid :
    (xs ys argument rest : Bytes) (type : ℕ)
    → parse_request (some xs) (length xs) ≡ invalid
    → IsRequestType type
    → 6 + length argument ≤ uint16_max
    → xs ++ ys ≢ request_frame type argument ++ rest
parse_request-invalid xs ys argument rest type h t l e =
    let same = parse_request-append xs ys (λ n. cc) in
    let found = parse_request-frame type argument rest t l in
    let agree = ap (λ (zs : Bytes). parse_request (some zs) (length zs)) e in cc

-- A stream of bytes, cut into requests as long as this can be done.
pub data Stream : Type 0 where
  more : Request → Stream → Stream
  rest_is : Bytes → Stream
  broken : Stream

cut_from : ℕ → Bytes → Stream
cut_from zero xs = rest_is xs
cut_from (suc fuel) xs = elim (parse_request (some xs) (length xs)) [
  | complete r k ↦ more r (cut_from fuel (drop k xs))
  | need_more ↦ rest_is xs
  | invalid ↦ broken
]

-- Each request takes six bytes at least, so that the length is fuel enough.
pub cut : Bytes → Stream
cut xs = cut_from (suc (length xs)) xs

unfoldable pub feed : Stream → Bytes → Stream
feed (more r s) ys = more r (feed s ys)
feed (rest_is xs) ys = cut (xs ++ ys)
feed broken ys = broken

pub parse-cases :
    (xs : Bytes)
    → let p = parse_request (some xs) (length xs) in
      ((r : Request) × (k : ℕ) × (p ≡ complete r k) × (0 < k) × (k ≤ length xs))
      ⊎ ((p ≡ need_more) ⊎ (p ≡ invalid))
parse-cases xs = go (parse_request (some xs) (length xs)) refl
  where
    go :
        (p : ParseResult Request)
        → parse_request (some xs) (length xs) ≡ p
        → ((r : Request) × (k : ℕ) × (p ≡ complete r k) × (0 < k) × (k ≤ length xs))
          ⊎ ((p ≡ need_more) ⊎ (p ≡ invalid))
    go (complete r k) e = let t = accepted xs r k e in inl (r, k, refl, omega arith, omega arith)
    go need_more e = inr (inl refl)
    go invalid e = inr (inr refl)

cut_from-complete :
    (fuel : ℕ) (xs : Bytes) (r : Request) (k : ℕ)
    → parse_request (some xs) (length xs) ≡ complete r k
    → cut_from (suc fuel) xs ≡ more r (cut_from fuel (drop k xs))
unfolding cut_from
cut_from-complete fuel xs r k e = rw (e, cut_from)

cut_from-need_more :
    (fuel : ℕ) (xs : Bytes)
    → parse_request (some xs) (length xs) ≡ need_more
    → cut_from (suc fuel) xs ≡ rest_is xs
unfolding cut_from
cut_from-need_more fuel xs e = rw (e, cut_from)

cut_from-invalid :
    (fuel : ℕ) (xs : Bytes)
    → parse_request (some xs) (length xs) ≡ invalid
    → cut_from (suc fuel) xs ≡ broken
unfolding cut_from
cut_from-invalid fuel xs e = rw (e, cut_from)

-- Any fuel above the length gives the same cut.
cut_from-fuel :
    (f g : ℕ) (xs : Bytes) → length xs < f → length xs < g → cut_from f xs ≡ cut_from g xs
unfolding cut_from
cut_from-fuel zero g xs p q = absurd (omega arith)
cut_from-fuel (suc f) zero xs p q = absurd (omega arith)
cut_from-fuel (suc f) (suc g) xs p q = elim (parse-cases xs) [
  | inl (r, k, e, pos, le) ↦
      rw (cut_from-complete f xs r k e, cut_from-complete g xs r k e)
        (ap (more r) (
          cut_from-fuel f g (drop k xs) (omega (arith, length-drop k xs))
            (omega (arith, length-drop k xs))))
  | inr (inl e) ↦ rw (cut_from-need_more f xs e, cut_from-need_more g xs e)
  | inr (inr e) ↦ rw (cut_from-invalid f xs e, cut_from-invalid g xs e)
]

cut_from-append :
    (f g : ℕ) (xs ys : Bytes)
    → length xs < g
    → length (xs ++ ys) < f
    → cut_from f (xs ++ ys) ≡ feed (cut_from g xs) ys
unfolding feed cut
cut_from-append zero g xs ys p q = absurd (omega arith)
cut_from-append (suc f) zero xs ys p q = absurd (omega arith)
cut_from-append (suc f) (suc g) xs ys p q = elim (parse-cases xs) [
  | inl (r, k, e, pos, le) ↦
      rw
        (
          cut_from-complete f (xs ++ ys) r k (parse_request-append xs ys (λ n. cc) ∙ e),
          cut_from-complete g xs r k e,
          drop-append_le k xs ys le,
        )
        (ap (more r) (
          cut_from-append f g (drop k xs) ys (omega (arith, length-drop k xs))
            (omega (arith, length-drop k xs, length-append (drop k xs) ys, length-append xs ys))))
  | inr (inl e) ↦
      rw (cut_from-need_more g xs e)
        (cut_from-fuel (suc f) (suc (length (xs ++ ys))) (xs ++ ys) q (omega arith))
  | inr (inr e) ↦ rw (
    cut_from-invalid f (xs ++ ys) (parse_request-append xs ys (λ n. cc) ∙ e),
    cut_from-invalid g xs e,
  )
]

-- A stream that arrives in two parts is cut into the same requests as the whole.
pub cut-append : (xs ys : Bytes) → cut (xs ++ ys) ≡ feed (cut xs) ys
unfolding cut
cut-append xs ys =
    cut_from-append (suc (length (xs ++ ys))) (suc (length xs)) xs ys (omega arith) (omega arith)

-- How a cut begins.
pub cut-complete :
    (xs : Bytes) (r : Request) (k : ℕ)
    → parse_request (some xs) (length xs) ≡ complete r k
    → cut xs ≡ more r (cut (drop k xs))
unfolding cut
cut-complete xs r k e =
    let t = accepted xs r k e in
    cut_from-complete (length xs) xs r k e
    ∙ ap (more r) (
        cut_from-fuel (length xs) (suc (length (drop k xs))) (drop k xs)
          (omega (arith, length-drop k xs)) (omega arith))

pub cut-need_more :
    (xs : Bytes) → parse_request (some xs) (length xs) ≡ need_more → cut xs ≡ rest_is xs
unfolding cut
cut-need_more xs e = cut_from-need_more (length xs) xs e

pub cut-invalid : (xs : Bytes) → parse_request (some xs) (length xs) ≡ invalid → cut xs ≡ broken
unfolding cut
cut-invalid xs e = cut_from-invalid (length xs) xs e

-- Nothing has been sent yet.
pub cut-nil : cut [] ≡ rest_is []
unfolding parse_request
cut-nil = cut-need_more [] refl

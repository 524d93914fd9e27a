-- ===== src/Protocol/Append.antt =====
-- The two appends of an encoder of src/protocol.c: the whole frame, or the buffer rolled back.
use wire_command_c.Common.{
  ℕ, ◌+◌, ◌≤◌, ◌≡◌, refl, ◌∙◌, sym, ap, ◌⊎◌, inl, inr, Option, some, ◌++◌, append_assoc, arith,
  false, ◌&&◌, not, ◌==◌, length, take, is_null, Errno, Status, ok, fail, enomem, Bytes, bytes,
  length-append, take_all, take-take, take-append_le,
}
use wire_command_c.Buffer.{Buffer, Realloc, append, new_capacity}
use wire_command_c.Buffer.Contents.{contents, IsValid, IsRealloc, length-contents}
use wire_command_c.Buffer.Laws.{
  Extends, IsReadable, Refuses, Refuses-by, AppendFailure, no_source, too_long, no_memory,
  append_lem,
}
use wire_command_c.Protocol.{append_frame}

-- `b'` holds the bytes of `b` under the same limit; its block may be a larger one.
pub record SameBytes (b b' : Buffer) : Type 0 where
  pub valid : IsValid b'
  pub holds : contents b' ≡ contents b
  pub same_length : b'.length ≡ b.length
  pub limit : b'.max_size ≡ b.max_size

pub SameBytes-refl : {b : Buffer} → IsValid b → SameBytes b b
SameBytes-refl v = record { valid = v; holds = refl; same_length = refl; limit = refl }

-- With its length put back, a buffer that was extended holds what it held before.
rolled_back :
    {b b' : Buffer} {xs : Bytes}
    → IsValid b
    → Extends b xs b'
    → SameBytes b (record b' { length = b.length })
rolled_back {b} {b'} {xs} v x = record {
  valid = ground (arith, x.longer, x.valid);
  holds =
      sym (take-take b.length b'.length (bytes b'.block) (omega (arith, x.longer)))
      ∙ ap (λ (t : Bytes). take b.length t) x.holds
      ∙ take-append_le b.length (contents b) xs (omega (arith, length-contents b v))
      ∙ take_all b.length (contents b) (omega (arith, length-contents b v));
  same_length = refl;
  limit = x.limit;
}

-- The two ends of an encoder whose frame fits: all of it appended, or the same bytes because a
-- `realloc()` has refused.
abbrev pub Framed : Realloc → Realloc → Buffer → Bytes → Status × Buffer → Type 0
Framed realloc₁ realloc₂ b frame (s, b') =
    ((s ≡ ok) × Extends b frame b')
    ⊎ ((s ≡ fail enomem) × SameBytes b b' × (Refuses realloc₁ ⊎ Refuses realloc₂))

pub Extends-trans :
    {b b' b'' : Buffer} {xs ys : Bytes}
    → Extends b xs b'
    → Extends b' ys b''
    → Extends b (xs ++ ys) b''
Extends-trans {b} {b'} {b''} {xs} {ys} x y = record {
  valid = y.valid;
  holds = y.holds ∙ ap (λ (t : Bytes). t ++ ys) x.holds ∙ append_assoc (contents b) xs ys;
  longer = omega (arith, x.longer, y.longer, length-append xs ys);
  limit = y.limit ∙ x.limit;
}

-- Bytes that fit can fail to be appended only for want of memory.
only_memory :
    {realloc : Realloc} {b : Buffer} {src : Option Bytes} {size : ℕ} {e : Errno}
    → AppendFailure realloc b src size e
    → is_null src && not (size == 0) ≡ false
    → b.length + size ≤ b.max_size
    → (e ≡ enomem) × Refuses realloc
only_memory {src} {size} (no_source n z) given fits = absurd (ground arith)
only_memory (too_long h) given fits = absurd (omega arith)
only_memory {b} {size} (no_memory h k refused) given fits =
    (refl, Refuses-by b.block (new_capacity b (b.length + size)) refused)

module _ (realloc : Realloc) (law : IsRealloc realloc) (b : Buffer) (v : IsValid b) where
  append_fits :
      (src : Option Bytes) (size : ℕ)
      → is_null src && not (size == 0) ≡ false
      → IsReadable src size
      → b.length + size ≤ b.max_size
      → let (s, b') = append realloc b src size in
        ((s ≡ ok) × Extends b (take size (bytes src)) b')
        ⊎ ((s ≡ fail enomem) × (b' ≡ b) × Refuses realloc)
  append_fits src size given readable fits = elim (append_lem realloc b src size law v readable) [
    | inl done ↦ inl done
    | inr (e, es, eb, why) ↦
        inr (let only = only_memory why given fits in (es ∙ ap fail only.0, eb, only.1))
  ]

module _ (realloc₁ realloc₂ : Realloc) (law₁ : IsRealloc realloc₁) (law₂ : IsRealloc realloc₂)
    (b : Buffer) (v : IsValid b) where
  pub append_frame-Framed :
      (header : Bytes) (src : Option Bytes) (size : ℕ)
      → is_null src && not (size == 0) ≡ false
      → IsReadable src size
      → b.length + (length header + size) ≤ b.max_size
      → Framed realloc₁ realloc₂ b
          (header ++ take size (bytes src))
          (append_frame realloc₁ realloc₂ b header src size)
  unfolding append_frame
  append_frame-Framed header src size given readable fits =
      elim (append_fits realloc₁ law₁ b v (some header) (length header) refl (inr (omega arith))
        (omega arith)) [
          | inr (es, eb, short) ↦
              rw (es, append_frame) (inr (refl, rw eb (SameBytes-refl v), inl short))
          | inl (es, x) ↦
              let whole : take (length header) header ≡ header =
                take_all (length header) header (omega arith) in
              let x' : Extends b header (append realloc₁ b (some header) (length header)).1 =
                rw whole at x in
              elim (append_fits realloc₂ law₂ (append realloc₁ b (some header) (length header)).1
                x'.valid src size given readable (omega (arith, x'.longer, x'.limit))) [
                  | inl (es', y) ↦ rw (es, es', append_frame) (inl (refl, Extends-trans x' y))
                  | inr (es', eb, short) ↦
                      rw (es, es', append_frame) (inr (refl, rw eb (rolled_back v x'), inr short))
                ]
        ]

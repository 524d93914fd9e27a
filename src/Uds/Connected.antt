-- ===== src/Uds/Connected.antt =====
-- Which clients the table of src/server_uds.c has, and how its operations change that.
use wire_command_c.Common.{
  ℕ, zero, suc, ◌≡◌, ◌≢◌, refl, ◌∙◌, sym, ap, arith, ◌⊎◌, inl, inr, Bool, true, false, Bool-cases,
  ◌||◌, Option, none, some, [], ◌∷◌, ◌==◌,
}
use wire_command_c.Uds.Table.{Client, Clients, is_fd, next_slot, find_client}
use wire_command_c.Uds.Slots.{get_slot}
use wire_command_c.Uds.Process.{set_slot, slot_at, find_slot}

abbrev pub connected : Clients → ℕ → Bool
connected [] n = false
connected (c ∷ cs) n = is_fd c.fd n || connected cs n

abbrev pub IsNew : Option ℕ → Clients → Type 0
IsNew none cs = Unit
IsNew (some n) cs = connected cs n ≡ false

-- No two slots have the same descriptor.
abbrev pub AllDistinct : Clients → Type 0
AllDistinct [] = Unit
AllDistinct (c ∷ cs) = IsNew c.fd cs × AllDistinct cs

-- A slot keeps its client, or loses it.
abbrev pub IsReplaced : Client → Client → Type 0
IsReplaced c c' = (c'.fd ≡ c.fd) ⊎ (c'.fd ≡ none)

pub set_slot-connected_same :
    (cs : Clients) (i : ℕ) {c : Client} (c' : Client) (n : ℕ)
    → get_slot cs i ≡ some c
    → c'.fd ≡ c.fd
    → connected (set_slot cs i c') n ≡ connected cs n
unfolding get_slot set_slot
set_slot-connected_same [] i c' n e f = absurd (cc)
set_slot-connected_same (c₀ ∷ cs) zero {c} c' n e f =
    let same : c'.fd ≡ c₀.fd = cc in ap (λ (o : Option ℕ). is_fd o n || connected cs n) same
set_slot-connected_same (c₀ ∷ cs) (suc i) c' n e f =
    ap (λ (b : Bool). is_fd c₀.fd n || b) (set_slot-connected_same cs i c' n e f)

-- A slot that loses its client leaves the other clients connected.
pub set_slot-connected_other :
    (cs : Clients) (i : ℕ) {c : Client} (c' : Client) (n m : ℕ)
    → get_slot cs i ≡ some c
    → c.fd ≡ some n
    → c'.fd ≡ none
    → m == n ≡ false
    → connected (set_slot cs i c') m ≡ connected cs m
unfolding get_slot set_slot
set_slot-connected_other [] i c' n m e f g d = absurd (cc)
set_slot-connected_other (c₀ ∷ cs) zero {c} c' n m e f g d =
    let there : c₀.fd ≡ some n = cc in
    let differ : n == m ≡ false = ground (arith, d) in
    ap (λ (o : Option ℕ). is_fd o m || connected cs m) g
    ∙ ap (λ (b : Bool). b || connected cs m) (sym differ)
    ∙ ap (λ (o : Option ℕ). is_fd o m || connected cs m) (sym there)
set_slot-connected_other (c₀ ∷ cs) (suc i) c' n m e f g d =
    ap (λ (b : Bool). is_fd c₀.fd m || b) (set_slot-connected_other cs i c' n m e f g d)

set_slot-absent :
    (cs : Clients) (i : ℕ) {c : Client} (c' : Client) (m : ℕ)
    → get_slot cs i ≡ some c
    → IsReplaced c c'
    → connected cs m ≡ false
    → connected (set_slot cs i c') m ≡ false
unfolding get_slot set_slot
set_slot-absent [] i c' m e f a = absurd (cc)
set_slot-absent (c₀ ∷ cs) zero c' m e (inl f) a =
    set_slot-connected_same (c₀ ∷ cs) zero c' m e f ∙ a
set_slot-absent (c₀ ∷ cs) zero c' m e (inr f) a =
    ap (λ (o : Option ℕ). is_fd o m || connected cs m) f ∙ (ground (arith, a))
set_slot-absent (c₀ ∷ cs) (suc i) c' m e f a =
    let rest = set_slot-absent cs i c' m e f (ground (arith, a)) in ground (arith, a, rest)

pub set_slot-AllDistinct :
    (cs : Clients) (i : ℕ) {c : Client} (c' : Client)
    → get_slot cs i ≡ some c
    → IsReplaced c c'
    → AllDistinct cs
    → AllDistinct (set_slot cs i c')
unfolding get_slot set_slot
set_slot-AllDistinct [] i c' e f d = absurd (cc)
set_slot-AllDistinct (c₀ ∷ cs) zero c' e (inl f) d =
    let same : c'.fd ≡ c₀.fd = cc in (rw (sym same) at d.0, d.1)
set_slot-AllDistinct (c₀ ∷ cs) zero c' e (inr f) d = (free c'.fd f, d.1)
  where
    free : (o : Option ℕ) → o ≡ none → IsNew o cs
    free none h = tt
    free (some n) h = absurd (cc)
set_slot-AllDistinct (c₀ ∷ cs) (suc i) {c} c' e f d =
    (new c₀.fd d.0, set_slot-AllDistinct cs i c' e f d.1)
  where
    new : (o : Option ℕ) → IsNew o cs → IsNew o (set_slot cs i c')
    new none h = tt
    new (some n) h = set_slot-absent cs i c' n e f h

pub get_slot-connected :
    (cs : Clients) (i n : ℕ) {c : Client}
    → get_slot cs i ≡ some c
    → c.fd ≡ some n
    → connected cs n ≡ true
unfolding get_slot
get_slot-connected [] i n e f = absurd (cc)
get_slot-connected (c₀ ∷ cs) zero n e f =
    let there : c₀.fd ≡ some n = cc in
    let same : n == n ≡ true = ground arith in
    ap (λ (o : Option ℕ). is_fd o n || connected cs n) there
    ∙ ap (λ (b : Bool). b || connected cs n) same
get_slot-connected (c₀ ∷ cs) (suc i) n e f =
    let rest = get_slot-connected cs i n e f in ground (arith, rest)

get_slot-find_client :
    (cs : Clients) (n i : ℕ)
    → find_client cs n ≡ some i
    → (c : Client) × (get_slot cs i ≡ some c) × (c.fd ≡ some n)
unfolding find_client get_slot
get_slot-find_client [] n i e = absurd (cc)
get_slot-find_client (c ∷ cs) n i e = elim (Bool-cases (is_fd c.fd n)) [
  | inl here ↦
      let first : i ≡ zero = ground (arith, rw here at e) in rw first (c, refl, owner c.fd here)
  | inr further ↦ in_rest (find_client cs n) (λ j. get_slot-find_client cs n j) (rw further at e)
]
  where
    owner : (o : Option ℕ) → is_fd o n ≡ true → o ≡ some n
    owner none h = absurd (cc)
    owner (some m) h = ap some (ground (arith, h))

    in_rest :
        (o : Option ℕ)
        → ((j : ℕ) → o ≡ some j → (c' : Client) × (get_slot cs j ≡ some c') × (c'.fd ≡ some n))
        → next_slot o ≡ some i
        → (c' : Client) × (get_slot (c ∷ cs) i ≡ some c') × (c'.fd ≡ some n)
    in_rest none rest h = absurd (cc)
    in_rest (some j) rest h = let at : i ≡ suc j = cc in rw at (rest j refl)

find_client-absent : (cs : Clients) (n : ℕ) → find_client cs n ≡ none → connected cs n ≢ true
unfolding find_client
find_client-absent [] n e k = cc
find_client-absent (c ∷ cs) n e k = elim (Bool-cases (is_fd c.fd n)) [
  | inl here ↦ let bad : some zero ≡ none = rw here at e in absurd (cc)
  | inr further ↦
      in_rest (find_client cs n) refl (rw further at e) (rw further at k) (find_client-absent cs n)
]
  where
    in_rest :
        (o : Option ℕ)
        → find_client cs n ≡ o
        → next_slot o ≡ none
        → connected cs n ≡ true
        → (find_client cs n ≡ none → connected cs n ≢ true)
        → ⊥
    in_rest none f h k' rest = rest f k'
    in_rest (some j) f h k' rest = absurd (cc)

pub find_slot-owner :
    (cs : Clients) (n i : ℕ) (c : Client)
    → find_slot cs n ≡ some (i, c)
    → (get_slot cs i ≡ some c) × (c.fd ≡ some n)
find_slot-owner cs n i c e = at_index (find_client cs n) refl e
  where
    at_slot :
        (j : ℕ) (o : Option Client)
        → get_slot cs j ≡ o
        → (elim o as (λ x. Option (ℕ × Client)) [ none ↦ none | some c' ↦ some (j, c') ])
          ≡ some (i, c)
        → (get_slot cs j ≡ some c) × (i ≡ j)
    at_slot j none g h = absurd (cc)
    at_slot j (some c') g h = (cc, cc)

    at_index :
        (o : Option ℕ)
        → find_client cs n ≡ o
        → slot_at cs o ≡ some (i, c)
        → (get_slot cs i ≡ some c) × (c.fd ≡ some n)
    at_index none f h = absurd (cc)
    at_index (some j) f h =
        let (here, same) = at_slot j (get_slot cs j) refl h in
        let (c', there, owner) = get_slot-find_client cs n j f in
        let equal : c' ≡ c = cc in
        (ap (get_slot cs) same ∙ here, ap (λ (x : Client). x.fd) (sym equal) ∙ owner)

pub find_slot-absent : (cs : Clients) (n : ℕ) → find_slot cs n ≡ none → connected cs n ≢ true
find_slot-absent cs n e k = at_index (find_client cs n) refl e
  where
    at_index : (o : Option ℕ) → find_client cs n ≡ o → slot_at cs o ≡ none → ⊥
    at_index none f h = find_client-absent cs n f k
    at_index (some j) f h =
        let (c, there, owner) = get_slot-find_client cs n j f in
        let pair : ℕ × Client = (j, c) in
        let bad : some pair ≡ none = rw (slot_at, there) at h in absurd (cc)

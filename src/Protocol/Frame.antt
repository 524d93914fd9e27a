-- ===== src/Protocol/Frame.antt =====
-- The layouts that README.md ("Protocol") and include/wirecommand/protocol.h give for the frames,
-- as lists of bytes: an independent description of what src/protocol.c writes and reads.
use wire_command_c.Common.{
  ℕ, ◌+◌, ◌*◌, ◌^◌, ◌/◌, ◌%◌, ◌≤◌, ◌≡◌, ◌⊎◌, true, ◌∷◌, [], ◌++◌, length, arith, uint16_max, Bytes,
}
use wire_command_c.Protocol.{RequestType, request_ls, request_pwd, request_cat, request_type_valid}

-- Two bytes, high byte first (network order).
abbrev pub u16 : ℕ → Bytes
u16 v = (v / 256) ∷ (v % 256) ∷ []

-- Total size, type, argument size, argument.
abbrev pub request_frame : RequestType → Bytes → Bytes
request_frame type argument =
    u16 (6 + length argument) ++ (u16 type ++ (u16 (length argument) ++ argument))

-- Data size, data.
abbrev pub response_frame : Bytes → Bytes
response_frame body = u16 (length body) ++ body

-- The three requests that exist.
abbrev pub IsRequestType : RequestType → Type 0
IsRequestType type = (type ≡ request_ls) ⊎ ((type ≡ request_pwd) ⊎ (type ≡ request_cat))

pub request_type_valid→ : (type : ℕ) → request_type_valid type ≡ true → IsRequestType type
request_type_valid→ type h = ground arith

pub →request_type_valid : (type : ℕ) → IsRequestType type → request_type_valid type ≡ true
→request_type_valid type h = ground arith

-- The two bytes of a `uint16_t` give it back.
pub decode-u16 : (v : ℕ) → v ≤ uint16_max → (v / 256 * 256 + v % 256) % 2 ^ 16 ≡ v
decode-u16 v h = omega arith

-- ===== src/Logging/Laws.antt =====
-- Which calls of src/logging.c write a line.
use wire_command_c.Common.{
  ℕ, ◌≤◌, ◌<◌, ◌≡◌, ◌≢◌, refl, ◌⊎◌, inl, inr, false, none, some, List, [], ◌∷◌, arith, ltb, ◌||◌,
  not, Bool-cases, Bytes, Errno,
}
use wire_command_c.Logging.{Call, log_trace, level_valid, timestamp, set_level, written, log_v}

-- The minimum level after a list of calls of `wc_log_set_level`.
abbrev pub set_levels : ℕ → List ℕ → ℕ
set_levels minimum_level [] = minimum_level
set_levels minimum_level (level ∷ levels) = set_levels (set_level minimum_level level) levels

set_level-valid : (m level : ℕ) → m ≤ log_trace → set_level m level ≤ log_trace
unfolding set_level
set_level-valid m level h = ground arith

set_levels-valid : (m : ℕ) (levels : List ℕ) → m ≤ log_trace → set_levels m levels ≤ log_trace
set_levels-valid m [] h = h
set_levels-valid m (level ∷ levels) h =
    set_levels-valid (set_level m level) levels (set_level-valid m level h)

-- Whatever levels have been set, the minimum level is one of the five; a call above it writes nothing,
-- and a call at or below it, with a component, an event and a timestamp, writes a line.
pub log_v-set_levels :
    (minimum_level : ℕ) (levels : List ℕ) (errno : Errno) (call : Call)
    (component event stamp : Bytes)
    → minimum_level ≤ log_trace
    → call.component ≡ some component
    → call.event ≡ some event
    → timestamp call.clock ≡ some stamp
    → let m = set_levels minimum_level levels in
      (m ≤ log_trace)
      × (((call.level ≤ m) × ((log_v m errno call).0 ≢ none))
          ⊎ ((m < call.level) × ((log_v m errno call).0 ≡ none)))
unfolding log_v written
log_v-set_levels minimum_level levels errno call component event stamp h c e t =
    let m = set_levels minimum_level levels in
    let small = set_levels-valid minimum_level levels h in
    (
      small,
      elim (Bool-cases (not (level_valid call.level) || (ltb m call.level || false))) [
        | inl f ↦ rw (c, e, f) (inr (ground (arith, f, small), refl))
        | inr f ↦ rw (c, e, t, f) (inl (ground (arith, f), λ n. cc))
      ],
    )

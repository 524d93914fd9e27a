-- ===== src/Common.antt =====
-- Names that the other modules share: those of the libraries, passed on, and those of the children
-- (Boolean tests, lists measured by native numbers, C integers and outcomes of C calls).
mod Tests
mod Lists
mod Machine
mod Text
mod Family
pub use Tests.*
pub use Lists.*
pub use Machine.*
pub use Text.*
pub use Family.*
pub use Prim.Native.Nat.{ℕ, zero, suc, ◌+◌, ◌-◌, ◌*◌, ◌/◌, ◌%◌, ◌^◌, ◌≤◌, ◌<◌, min}
pub use mathlib.Core.Path.{◌≡◌, refl, sym, ap, subst, ◌∙◌}
pub use mathlib.Core.Logic.{◌≢◌, ◌↔◌, ◌⊎◌, inl, inr}
pub use mathlib.Core.Bool.{Bool, true, false, not, ◌&&◌, ◌||◌}
pub use mathlib.Core.Option.{Option, none, some}
pub use mathlib.Core.List.{List, [], ◌∷◌, ◌++◌, map, append-nil, append_assoc}
pub use native.Mathlib.Omega.{arith}

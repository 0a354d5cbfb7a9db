-- ===== src/Base.antt =====
-- Names that the other modules share: the libraries', passed on, and those of the children
-- (tests on numbers, lists over native numbers, bytes and bit operations, results of Go calls).
mod Tests
mod Lists
mod Maps
pub mod Bits
pub mod Outcome
pub use Tests.*
pub use Lists.*
unfoldable pub use Maps.*
pub use Prim.Native.Nat.{ℕ, zero, suc, ◌+◌, ◌-◌, ◌*◌, ◌/◌, ◌%◌, ◌^◌, ◌≤◌, ◌<◌, bit_and, bit_or}
pub use Prim.Native.String.{String}
pub use mathlib.Core.Path.{◌≡◌, refl, sym, ap, ◌∙◌}
pub use mathlib.Core.Logic.{◌≢◌, ◌↔◌, ◌⊎◌, inl, inr}
pub use mathlib.Core.Bool.{Bool, true, false, not, ◌&&◌, ◌||◌}
pub use mathlib.Core.Option.{Option, none, some}
pub use mathlib.Core.List.{List, [], ◌∷◌, ◌++◌, map, append-nil, append_assoc}
pub use native.Mathlib.Omega.{arith}
pub use mathlib.Core.Logic.{ite, if_pos, if_neg}
unfoldable pub use native.Mathlib.Decide.{ℕ_discrete, dec_lt}

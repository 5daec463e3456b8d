-- ===== src/Prelude.antt =====
-- The names that the other modules share: the libraries', passed on, and those of the children.
-- `Tests` has the Boolean tests on numbers, `Lists` the lists measured by native numbers, `Bytes`
-- the little-endian integers and the readers of byte buffers, `Utf8` the check of a string's
-- bytes, `Results` Rust's `Result`, `Words` the 64-bit counters,
-- `Maps` the maps with numbers for keys.
mod Tests
mod Lists
pub mod Bytes
pub mod Utf8
pub mod Results
pub mod Words
pub mod Maps
pub mod Bits
pub mod Keys
pub use Tests.*
pub use Lists.*
pub use Prim.Native.Nat.{ℕ, zero, suc, ◌+◌, ◌-◌, ◌*◌, ◌/◌, ◌%◌, ◌^◌, ◌≤◌, ◌<◌, min, max}
pub use mathlib.Core.Path.{◌≡◌, refl, sym, ap, ◌∙◌}
pub use mathlib.Core.Logic.{◌≢◌, ◌↔◌, ◌⊎◌, inl, inr}
pub use mathlib.Core.Bool.{Bool, true, false, not, ◌&&◌, ◌||◌}
pub use mathlib.Core.Option.{Option, none, some}
pub use mathlib.Core.List.{List, [], ◌∷◌, ◌++◌, map}
pub use native.Mathlib.Omega.{arith}

-- ===== src/Common.antt =====
-- Names that the modules share: those of the libraries, passed on, Boolean tests and lists over the
-- native numbers, the outcomes of fallible code, and machine words.
mod Tests
mod Lists
mod Entries
mod Related
pub mod Outcome
pub mod Word
pub mod Powers
unfoldable pub use Tests.*
pub use Lists.*
pub use Entries.*
pub use Related.*
pub use Prim.Native.Nat.{ℕ, zero, suc, ◌+◌, ◌-◌, ◌*◌, ◌/◌, ◌%◌, ◌^◌, ◌≤◌, ◌<◌, min}
pub use mathlib.Core.Path.{◌≡◌, refl, sym, ap, ap₂, ◌∙◌, subst, fun_ext}
pub use mathlib.Core.Logic.{◌≢◌, ◌↔◌, ◌⊎◌, inl, inr}
pub use mathlib.Core.Bool.{Bool, true, false, ◌&&◌, ◌||◌, not}
pub use mathlib.Core.Option.{Option, none, some}
pub use mathlib.Core.List.{List, [], ◌∷◌, ◌++◌, map, append_assoc, append-nil}
pub use native.Mathlib.Omega.{arith}

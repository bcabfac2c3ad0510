-- ===== src/Base.antt =====
-- Names that every module shares: the libraries', passed on, and those of the children, which model
-- the parts of Python's builtins that the source leans on (tests, results, lists, sorting, labels).
mod Tests
mod Errors
mod Lists
mod Sorting
mod Rising
mod Labels
pub use Tests.*
pub use Errors.*
unfoldable pub use Lists.*
unfoldable pub use Sorting.*
pub use Rising.*
unfoldable pub use Labels.*
pub use Prim.Native.Nat.{ℕ, zero, suc, ◌+◌, ◌-◌, ◌≤◌, ◌<◌}
pub use Prim.Native.String.{String}
pub use mathlib.Core.Path.{◌≡◌, refl, sym, ap, ◌∙◌}
pub use mathlib.Core.Logic.{◌≢◌, ◌↔◌, ◌⊎◌, inl, inr}
pub use mathlib.Core.Bool.{Bool, true, false, not, ◌&&◌, ◌||◌}
pub use mathlib.Core.Option.{Option, none, some}
pub use mathlib.Core.List.{List, [], ◌∷◌, ◌++◌, map, Memᴰ, append-nil, append_assoc}
pub use native.Mathlib.Omega.{arith}
pub use text.Mathlib.Text.{◌==◌ as str_eq}
pub use text.Mathlib.TextEquality.{eq_iff}

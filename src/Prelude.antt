-- ===== src/Prelude.antt =====
-- The names that every module shares: the libraries', passed on, and those of two children. A Go
-- string is a `Text`, the list of its bytes; a partial Go operation (a slice or an index out of
-- range, a write to a nil map) is an `Option`, whose `none` is the panic.
mod Tests
mod Lists
pub use Tests.*
unfoldable pub use Tests.{text_eq}
pub use Lists.*
pub use Prim.Native.Nat.{ℕ, zero, suc, ◌+◌, ◌-◌, ◌*◌, ◌/◌, ◌%◌, ◌^◌, ◌≤◌, ◌<◌}
pub use mathlib.Core.Path.{◌≡◌, refl, sym, ap, ◌∙◌, subst}
pub use mathlib.Core.Logic.{◌≢◌, ◌↔◌, ◌⊎◌, inl, inr}
pub use mathlib.Core.Bool.{Bool, true, false, not, ◌&&◌, ◌||◌}
pub use mathlib.Core.Option.{Option, none, some}
pub use mathlib.Core.List.{List, [], ◌∷◌, ◌++◌, map, append-nil, append_assoc}
pub use native.Mathlib.Omega.{arith}

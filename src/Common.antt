-- ===== src/Common.antt =====
-- The names that the modules share: the libraries', passed on, Boolean tests on the native
-- numbers, C strings, and the outcome of a C function.
mod Tests
mod Lists
mod Text
mod Outcomes
pub use Tests.*
pub use Lists.*
pub use Text.*
unfoldable pub use Text.{str_eq, decimal}
pub use Outcomes.*
pub use Prim.Native.Nat.{ℕ, zero, suc, ◌+◌, ◌-◌, ◌*◌, ◌/◌, ◌%◌, ◌^◌, ◌≤◌, ◌<◌}
pub use mathlib.Core.Path.{◌≡◌, refl, sym, ap, subst, ◌∙◌}
pub use mathlib.Core.Logic.{◌≢◌, ◌↔◌, ◌⊎◌, inl, inr}
pub use mathlib.Core.Bool.{Bool, true, false, not, ◌&&◌, ◌||◌}
pub use mathlib.Core.Option.{Option, none, some}
pub use mathlib.Core.List.{List, [], ◌∷◌, ◌++◌, map, append-nil, append_assoc}
pub use mathlib.Core.List.{
  Mem, Memᴰ, mem-cast, mem-cons_self, mem-cons_of_mem, mem-append_left, mem-map_of_mem,
}
pub use native.Mathlib.Omega.{arith}

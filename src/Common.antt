-- ===== src/Common.antt =====
-- Names that the components share: the libraries', passed on, and those of the children.
mod Tests
mod Lists
mod Int
mod Bytes
mod Assoc
mod Clock
mod Outcome
mod Letters
mod Recent
mod Patterns
mod Keys
pub use Tests.*
pub use Lists.*
pub use Int.*
unfoldable pub use Bytes.*
unfoldable pub use Assoc.*
unfoldable pub use Clock.*
pub use Outcome.*
pub use Letters.*
pub use Recent.*
pub use Patterns.*
pub use Keys.*
pub use Prim.Native.Nat.{ℕ, zero, suc, ◌+◌, ◌-◌, ◌*◌, ◌/◌, ◌%◌, ◌^◌, ◌≤◌, ◌<◌, min, max}
pub use mathlib.Core.Path.{◌≡◌, refl, sym, ap, ap₂, subst, ◌∙◌, ◌≡⟨◌⟩◌, ◌∎}
pub use mathlib.Core.Logic.{◌≢◌, ◌↔◌, ◌⊎◌, inl, inr}
pub use mathlib.Core.Bool.{Bool, true, false, not, ◌&&◌, ◌||◌}
pub use mathlib.Core.Option.{Option, none, some}
pub use mathlib.Core.List.{List, [], ◌∷◌, ◌++◌, map, reverse, append-nil, append_assoc, map-append}
pub use native.Mathlib.Omega.{arith}
unfoldable pub use native.Mathlib.Decide.{dec_lt, dec_le, ℕ_discrete}

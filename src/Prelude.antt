-- ===== src/Prelude.antt =====
-- The names that the other modules share: the libraries', passed on, and those of the children.
mod Tests
mod Lists
mod Keys
mod Slices
mod Words
mod Maps
pub use Tests.*
pub use Lists.*
unfoldable pub use Maps.*
unfoldable pub use Keys.{hex, same}
unfoldable pub use Slices.{copy_at}
pub use Slices.{
  sub, length-copy_at, take-nil, drop-nil, drop-drop, take-take, drop-take, take_all, drop_all,
  take-append, drop-append, take_split, sub_split, sub_after, drop-length, take-length, sub_middle,
  sub-append, drop-append_le, get_or-append,
}
pub use Words.*
pub use Keys.{eq_of_same, same_self, same_iff}
pub use Prim.Native.Nat.{
  ℕ, zero, suc, ◌+◌, ◌-◌, ◌*◌, ◌/◌, ◌%◌, ◌^◌, ◌≤◌, ◌<◌, min, bit_xor, Ordering, compare,
}
pub use mathlib.Core.Path.{◌≡◌, refl, sym, ap, ◌∙◌, subst}
pub use mathlib.Core.Logic.{◌≢◌, ◌↔◌, ◌⊎◌, inl, inr}
pub use mathlib.Core.Bool.{Bool, true, false, not, ◌&&◌, ◌||◌}
pub use mathlib.Core.Option.{Option, none, some}
pub use mathlib.Core.List.{List, [], ◌∷◌, ◌++◌, map, append_assoc}
pub use native.Mathlib.Omega.{arith}
unfoldable pub use native.Mathlib.Decide.{dec_lt, ℕ_discrete}

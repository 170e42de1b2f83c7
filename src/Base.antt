-- ===== src/Base.antt =====
-- The names that every module of the development shares: the libraries', passed on, and those of
-- the children, which hold the Boolean tests, the lists over native numbers, powers, the bit
-- operations of machine words, and errors as values.
mod Tests
mod Lists
mod Order
mod Powers
mod Words
pub mod Bits
mod Tables
mod Endian
mod Slices
mod Overwrite
mod Splice
pub use Tests.*
pub use Lists.*
pub use Powers.*
pub use Words.*
pub use Slices.*
pub use Splice.*
pub use Overwrite.{
  length-write_at, write_at_end, write_at-append, write_at_padded, write_at-write_at,
  slice-write_at,
}
unfoldable pub use Overwrite.{write_at}
pub use Endian.{write_be-append, length-write_be, write_be-IsByte, read_be-write_be, read_be-lt}
unfoldable pub use Endian.{write_be, read_be, write_le}
pub use Tables.{all_below-at}
unfoldable pub use Tables.{all_below}
unfoldable pub use Order.{lt_wf}
pub use Prim.Native.Nat.{ℕ, zero, suc, ◌+◌, ◌-◌, ◌*◌, ◌/◌, ◌%◌, ◌^◌, ◌≤◌, ◌<◌, min, max}
pub use Prim.Native.Nat.{bit_and, bit_or, bit_xor}
pub use mathlib.Core.Path.{◌≡◌, refl, sym, ap, ap₂, ◌∙◌, ◌≡⟨◌⟩◌, ◌∎}
pub use mathlib.Core.Logic.{◌≢◌, ◌↔◌, ◌⊎◌, inl, inr}
pub use mathlib.Core.Bool.{Bool, true, false, not, ◌&&◌, ◌||◌}
pub use mathlib.Core.Option.{Option, none, some}
pub use mathlib.Core.List.{List, [], ◌∷◌, ◌++◌, map, reverse, append-nil, append_assoc}
pub use native.Mathlib.Omega.{arith}
unfoldable pub use native.Mathlib.Decide.{dec_lt, dec_le, ℕ_discrete}

-- ===== src/Common.antt =====
-- What the components share: the libraries' names passed on, Boolean tests, byte strings, maps with
-- text keys, sorting by a text key, and the machine's signed integers.
mod Tests
mod Lists
mod Bytes
mod Assoc
mod Sorting
mod Int
mod Strings
mod Splitting
mod Decimal
mod SortedKeys
mod Hosts
mod HostLaws
mod Runes
mod Paths
mod Ips
mod IpLaws
mod Http
pub use Tests.*
unfoldable pub use Lists.*
unfoldable pub use Bytes.*
unfoldable pub use Assoc.*
unfoldable pub use Sorting.*
unfoldable pub use Int.*
unfoldable pub use Strings.*
unfoldable pub use Splitting.*
unfoldable pub use Decimal.*
unfoldable pub use SortedKeys.*
unfoldable pub use Hosts.*
unfoldable pub use HostLaws.*
unfoldable pub use Runes.*
unfoldable pub use Paths.*
unfoldable pub use Ips.*
pub use IpLaws.*
pub use Http.*
pub use Prim.Native.Nat.{ℕ, zero, suc, ◌+◌, ◌-◌, ◌*◌, ◌^◌, ◌≤◌, ◌<◌}
pub use Prim.Native.String.{String}
pub use mathlib.Core.Path.{◌≡◌, refl, sym, ap, ap₂, subst, ◌∙◌}
pub use mathlib.Core.Logic.{◌≢◌, ◌↔◌, ◌⊎◌, inl, inr}
pub use mathlib.Core.Bool.{Bool, true, false, not, ◌&&◌, ◌||◌}
pub use mathlib.Core.Option.{Option, none, some}
pub use mathlib.Core.List.{List, [], ◌∷◌, ◌++◌, map, reverse, filter, append-nil, append_assoc}
pub use native.Mathlib.Omega.{arith}

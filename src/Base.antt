-- ===== src/Base.antt =====
-- The names that the modules of this library share: those of the libraries, passed on, and those
-- of the children below. `Tests` has the Boolean tests and the conditional, `Int` the integers of
-- Go's `int` and `time.Duration`, `Lists` the lists, `Text` the calls of package strings that the
-- program makes, `Maps` Go's maps with string keys, `Sorting` its sort.Slice, `Time`
-- its times and durations.
mod Tests
mod Int
mod Lists
mod Text
mod Maps
mod Sorting
mod Time
pub use Tests.*
unfoldable pub use Int.{add_ℤ, to_int64}
pub use Int.*
pub use Lists.*
pub use Text.*
unfoldable pub use Text.{is_space, trim_space, str_lt, contains_text}
unfoldable pub use Maps.{lookup, insert, update_all, remove, remove_where, HasKeysOnce}
pub use Maps.*
unfoldable pub use Sorting.{insert_sorted, sort_by}
pub use Sorting.*
unfoldable pub use Time.{add_time, unix_milli}
pub use Time.*
pub use Prim.Native.Nat.{min, max, ℕ, zero, suc, ◌+◌, ◌-◌, ◌*◌, ◌/◌, ◌%◌, ◌^◌, ◌≤◌, ◌<◌}
pub use Prim.Native.String.{String}
pub use mathlib.Core.Path.{◌≡◌, refl, sym, ap, ◌∙◌, subst}
pub use mathlib.Core.Logic.{◌≢◌, ◌↔◌, ◌⊎◌, inl, inr}
pub use mathlib.Core.Bool.{Bool, true, false, not, ◌&&◌, ◌||◌}
pub use mathlib.Core.Option.{Option, none, some}
pub use mathlib.Core.List.{List, [], ◌∷◌, ◌++◌, map}
pub use native.Mathlib.Omega.{arith}
pub use text.Mathlib.Text.{◌==◌ as str_eq}
pub use text.Mathlib.TextEquality.{eq_iff}
pub use text.Mathlib.TextPositions.{eq_refl}

-- ===== src/Base.antt =====
-- The names that the other modules share: those of the libraries, passed on, and those of the
-- children: Boolean tests, lists of texts as Python sets, dictionaries, sorting, results.
mod Tests
mod Lists
mod Names
mod Results
pub mod Dict
pub mod Sorted
pub mod Chars
pub mod Decimal
pub mod Scalars
pub use Tests.*
pub use Lists.*
pub use Results.*
unfoldable pub use Names.{elem, add, to_set, discard, remove_first, outside}
pub use Names.{
  elem-append, elem_snoc, elem_snoc_self, elem_snoc_of_elem, elem-cons_self, elem-add,
  elem-add-cases, elem-to_set, add_of_new, remove_first-add, outside-add-lt, outside-le-length,
  elem-discard,
}
pub use Prim.Native.Nat.{ℕ, zero, suc, ◌+◌, ◌-◌, ◌*◌, ◌≤◌, ◌<◌, max, min}
pub use Prim.Native.String.{String}
pub use mathlib.Core.Path.{◌≡◌, refl, sym, ap, subst, ◌∙◌, fun_ext}
pub use mathlib.Core.Logic.{◌≢◌, ◌↔◌, ◌⊎◌, inl, inr}
pub use mathlib.Core.Bool.{Bool, true, false, not, ◌&&◌, ◌||◌}
pub use mathlib.Core.Option.{Option, none, some}
pub use mathlib.Core.List.{List, [], ◌∷◌, ◌++◌, map, append-nil, append_assoc}
pub use native.Mathlib.Omega.{arith}
pub use text.Mathlib.Text.{◌==◌}
pub use text.Mathlib.TextEquality.{eq_iff}
pub use text.Mathlib.TextPositions.{eq_refl}

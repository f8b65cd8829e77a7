-- ===== src/Runtime/StartOrder.antt =====
-- `get_start_order` of core/runtime/runtime.py.
pub mod Sound
pub mod Faults
pub mod Outcome
use core_host.Base.{
  ℕ, zero, suc, ◌+◌, Bool, true, String, Option, List, [], ◌∷◌, ◌++◌, length, not, elem, add,
  remove_first, or_else, if◌then◌else◌, Result, ok, err, ◌>>=◌,
}
use core_host.Base.Dict.{lookup, has, keys}
use core_host.Base.Sorted.{sorted}
use core_host.Runtime.State.{
  Runtime, Exception, circular, missing_dependency, disabled_dependency, out_of_fuel,
}

-- The variables of `get_start_order`.
pub record Walk : Type 0 where
  pub visiting : List String
  pub visited : List String
  pub order : List String

abbrev pub Visitor : Type 0
Visitor = String → Walk → Result Exception Walk

-- `self._component_dependencies.get(name, set())`
unfoldable pub dependencies_of : Runtime → String → List String
dependencies_of r name = or_else (lookup name r.component_dependencies) []

-- `self._enabled.get(name, True)`
unfoldable pub enabled_or_true : Runtime → String → Bool
enabled_or_true r name = or_else (lookup name r.enabled) true

-- The loop of `visit` over the dependencies of `name`.
unfoldable pub visit_each : Runtime → Visitor → String → List String → Walk → Result Exception Walk
visit_each r go name [] w = ok w
visit_each r go name (d ∷ ds) w =
    if not (enabled_or_true r d)
    then err (disabled_dependency name d)
    else do w' ← go d w; visit_each r go name ds w'

-- `visiting.add(name)`
abbrev pub open_call : String → Walk → Walk
open_call name w = record w { visiting = add name w.visiting }

-- The last three lines of `visit`.
abbrev pub close_call : String → Walk → Walk
close_call name w = record {
  visiting = remove_first name w.visiting;
  visited = add name w.visited;
  order = w.order ++ name ∷ [];
}

-- `visit`. The fuel bounds the depth of its calls.
unfoldable pub visit : Runtime → ℕ → Visitor
visit r zero name w = err out_of_fuel
visit r (suc fuel) name w =
    if elem name w.visiting
    then err (circular name)
    else if elem name w.visited
    then ok w
    else if not (has name r.components)
    then err (missing_dependency name)
    else do
      w' ← visit_each r (visit r fuel) name (sorted (dependencies_of r name)) (open_call name w)
      ok (close_call name w')

-- The loop over all components. A chain of calls of `visit` has no component twice.
unfoldable pub visit_all : Runtime → List String → Walk → Result Exception Walk
visit_all r [] w = ok w
visit_all r (name ∷ names) w =
    let rest = visit_all r names w in
    if not (enabled_or_true r name)
    then rest
    else do w' ← visit r (length (keys r.components) + 1) name w; visit_all r names w'

unfoldable pub get_start_order : Runtime → Result Exception (List String)
get_start_order r = do
  w ← visit_all r (keys r.components) (record { visiting = []; visited = []; order = [] })
  ok w.order

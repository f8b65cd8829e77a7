-- ===== src/Runtime/Registration.antt =====
-- The methods of `Runtime` in core/runtime/runtime.py that set up its components and read their
-- state.
use core_host.Base.{
  Bool, true, false, String, Option, none, some, List, [], not, to_set, or_else, if◌then◌else◌,
  Result, ok, err,
}
use core_host.Base.Dict.{Dict, lookup, insert, has}
use core_host.Base.Sorted.{sorted}
use core_host.Runtime.State.{
  RuntimeState, ComponentState, Callable, Exception, Runtime, runtime_active, already_registered,
  not_registered, key_error,
}
use core_host.Runtime.StartOrder.{enabled_or_true}

abbrev pub Call : Type 0 → Type 0
Call A = Result Exception A × Runtime

-- `self._state == state`
abbrev pub is_stopped : RuntimeState → Bool
is_stopped RuntimeState.stopped = true
is_stopped _ = false

-- `self._component_state[name] = state`
abbrev pub set_component_state : String → ComponentState → Runtime → Runtime
set_component_state name s r = record r { component_state = insert name s r.component_state }

unfoldable pub add_shutdown : String → Option Callable → Dict Callable → Dict Callable
add_shutdown name none d = d
add_shutdown name (some f) d = insert name f d

unfoldable pub register_component :
    String → Callable → Option Callable → Option (List String) → Runtime → Call Unit
unfolding add_shutdown
register_component name initializer shutdown dependencies r =
    if not (is_stopped r.state)
    then (err runtime_active, r)
    else if has name r.components
    then (err (already_registered name), r)
    else (
      ok tt,
      record r {
        components = insert name initializer r.components;
        component_dependencies =
            insert name (to_set (or_else dependencies [])) r.component_dependencies;
        component_state = insert name ComponentState.registered r.component_state;
        enabled = insert name true r.enabled;
        shutdown_handlers = add_shutdown name shutdown r.shutdown_handlers;
      },
    )

unfoldable pub set_dependencies : String → List String → Runtime → Call Unit
set_dependencies name dependencies r =
    if not (is_stopped r.state)
    then (err runtime_active, r)
    else if not (has name r.components)
    then (err (not_registered name), r)
    else (
      ok tt,
      record r {
        component_dependencies = insert name (to_set dependencies) r.component_dependencies;
      },
    )

-- A missing key of `_component_dependencies` is a KeyError.
unfoldable pub get_dependencies : String → Runtime → Result Exception (List String)
get_dependencies name r =
    if not (has name r.components)
    then err (not_registered name)
    else elim (lookup name r.component_dependencies) [
      | none ↦ err (key_error name)
      | some ds ↦ ok (sorted ds)
    ]

unfoldable pub set_enabled : String → Bool → Runtime → Call Unit
set_enabled name on r =
    if not (is_stopped r.state)
    then (err runtime_active, r)
    else if not (has name r.components)
    then (err (not_registered name), r)
    else (ok tt, record r { enabled = insert name on r.enabled })

unfoldable pub is_enabled : String → Runtime → Result Exception Bool
is_enabled name r =
    if not (has name r.components) then err (not_registered name) else ok (enabled_or_true r name)

unfoldable pub component_state : String → Runtime → Result Exception ComponentState
component_state name r =
    if not (has name r.components)
    then err (not_registered name)
    else ok (or_else (lookup name r.component_state) ComponentState.registered)

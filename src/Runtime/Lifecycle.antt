-- ===== src/Runtime/Lifecycle.antt =====
-- The methods of `Runtime` in core/runtime/runtime.py that start, stop and clear its components.
pub mod Setup
pub mod Shutdown
pub mod Startup
pub mod Started
pub mod Invariant
use mathlib.Core.List.{reverse}
use core_host.Base.{
  Bool, true, false, String, Option, none, some, List, [], ◌∷◌, ◌++◌, not, ◌||◌, to_set, or_else,
  if◌then◌else◌, Result, ok, err,
}
use core_host.Base.Dict.{Dict, lookup, insert, has}
use core_host.Base.Sorted.{sorted}
use core_host.Runtime.State.{
  RuntimeState, ComponentState, Callable, Exception, Runtime, World, is_runtime_error,
  runtime_active, already_registered, not_registered, bad_state, init_failed, key_error,
}
use core_host.Runtime.StartOrder.{enabled_or_true, get_start_order}
use core_host.Runtime.Registration.{
  Call, is_stopped, set_component_state, add_shutdown, register_component, set_dependencies,
  get_dependencies, set_enabled, is_enabled, component_state,
}

abbrev pub is_running : RuntimeState → Bool
is_running RuntimeState.running = true
is_running _ = false

abbrev pub is_shutting_down : RuntimeState → Bool
is_shutting_down RuntimeState.shutting_down = true
is_shutting_down _ = false

-- `self._state in {STOPPED, FAILED}`
abbrev pub may_start : RuntimeState → Bool
may_start RuntimeState.stopped = true
may_start RuntimeState.failed = true
may_start _ = false

-- One round of the loop of `_shutdown_initialized_components`, with the handler of `name`.
abbrev pub shutdown_with : World → String → Option Callable → Runtime → Runtime
shutdown_with world name none r = set_component_state name ComponentState.stopped r
shutdown_with world name (some f) r =
    let called = record (set_component_state name ComponentState.stopping r) {
      calls = r.calls ++ f ∷ [];
    } in
    elim (world r.calls f) [
      | none ↦ set_component_state name ComponentState.stopped called
      | some e ↦
          set_component_state name ComponentState.failed
            (record called { shutdown_errors = r.shutdown_errors ++ (name, e) ∷ [] })
    ]

unfoldable pub shutdown_each : World → List String → Runtime → Runtime
shutdown_each world [] r = r
shutdown_each world (name ∷ names) r =
    shutdown_each world names (shutdown_with world name (lookup name r.shutdown_handlers) r)

unfoldable pub shutdown_initialized_components : World → Runtime → Runtime
shutdown_initialized_components world r = shutdown_each world (reverse r.initialized_components) r

-- The rest of the loop of `start` after `initializer()`.
abbrev pub mark_started : String → Callable → Runtime → Runtime
mark_started name f r = set_component_state name ComponentState.running (record r {
  initialized_components = r.initialized_components ++ name ∷ [];
  calls = r.calls ++ f ∷ [];
})

-- The loop of `start`: the component at which an exception ended it, or none.
unfoldable pub start_each : World → List String → Runtime → Option (String × Exception) × Runtime
start_each world [] r = (none, r)
start_each world (name ∷ names) r =
    let starting = set_component_state name ComponentState.starting r in
    elim (lookup name r.components) [
      | none ↦ (some (name, key_error name), starting)
      | some f ↦ elim (world r.calls f) [
        | none ↦ start_each world names (mark_started name f starting)
        | some e ↦ (some (name, e), record starting { calls = r.calls ++ f ∷ [] })
      ]
    ]

-- `for name, enabled in self._enabled.items()`
unfoldable pub mark_disabled : Dict Bool → Runtime → Runtime
mark_disabled [] r = r
mark_disabled ((name, on) ∷ d) r =
    mark_disabled d (if on then r else set_component_state name ComponentState.disabled r)

abbrev pub mark_failed : Option String → Runtime → Runtime
mark_failed none r = r
mark_failed (some name) r = set_component_state name ComponentState.failed r

-- The handler of `start`.
unfoldable pub fail_start : World → Option String → Exception → Runtime → Call Unit
fail_start world current e r =
    let failed =
      shutdown_initialized_components world
        (mark_failed current (record r { error = some e; state = RuntimeState.failed })) in
    (
      err (if is_runtime_error e then e else init_failed current),
      record failed { initialized_components = [] },
    )

-- The statements of `start` before the loop.
abbrev pub begin_start : Runtime → Runtime
begin_start r = record r {
  error = none;
  shutdown_errors = [];
  initialized_components = [];
  state = RuntimeState.initializing;
}

abbrev pub end_start : World → Option (String × Exception) × Runtime → Call Unit
end_start world (none, r) = (ok tt, record r { state = RuntimeState.running })
end_start world (some (name, e), r) = fail_start world (some name) e r

abbrev pub run_start : World → Result Exception (List String) → Runtime → Call Unit
run_start world (err e) r = fail_start world none e r
run_start world (ok order) r = end_start world (start_each world order (mark_disabled r.enabled r))

unfoldable pub start : World → Runtime → Call Unit
start world r =
    if is_running r.state
    then (ok tt, r)
    else if not (may_start r.state)
    then (err (bad_state r.state), r)
    else run_start world (get_start_order (begin_start r)) (begin_start r)

unfoldable pub stop : World → Runtime → Runtime
stop world r =
    if is_stopped r.state || is_shutting_down r.state
    then r
    else record (shutdown_initialized_components world
        (record r { state = RuntimeState.shutting_down })) {
          initialized_components = [];
          state = RuntimeState.stopped;
        }

unfoldable pub restart : World → Runtime → Call Unit
restart world r = start world (if is_stopped r.state then r else stop world r)

unfoldable pub clear_components : Runtime → Call Unit
clear_components r = if not (is_stopped r.state) then (err runtime_active, r) else (
  ok tt,
  record r {
    components = [];
    shutdown_handlers = [];
    component_dependencies = [];
    component_state = [];
    initialized_components = [];
    shutdown_errors = [];
    enabled = [];
  },
)

-- The calls that change the runtime.
pub data Op : Type 0 where
  register : String → Callable → Option Callable → Option (List String) → Op
  depend : String → List String → Op
  enable : String → Bool → Op
  start_all stop_all restart_all clear_all : Op

unfoldable pub step : World → Op → Runtime → Runtime
step world (register name f shutdown deps) r = (register_component name f shutdown deps r).1
step world (depend name deps) r = (set_dependencies name deps r).1
step world (enable name on) r = (set_enabled name on r).1
step world start_all r = (start world r).1
step world stop_all r = stop world r
step world restart_all r = (restart world r).1
step world clear_all r = (clear_components r).1

unfoldable pub run : World → List Op → Runtime → Runtime
unfolding step
run world [] r = r
run world (op ∷ ops) r = run world ops (step world op r)

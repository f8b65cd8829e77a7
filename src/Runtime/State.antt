-- ===== src/Runtime/State.antt =====
-- core/runtime/state.py, and the fields of `Runtime` in core/runtime/runtime.py.
use core_host.Base.{ℕ, Bool, true, false, String, Option, none, List, []}
use core_host.Base.Dict.{Dict}

pub data RuntimeState : Type 0 where
  starting initializing running shutting_down stopped failed : RuntimeState

pub data ComponentState : Type 0 where
  registered disabled starting running stopping stopped failed : ComponentState

-- The identity of a function object, which does not use the runtime while it is called.
abbrev pub Callable : Type 0
Callable = ℕ

-- What can be raised: the errors of the runtime, then a missing key and any other exception.
-- `out_of_fuel` is the model's own.
pub data Exception : Type 0 where
  runtime_active : Exception
  already_registered not_registered circular missing_dependency : String → Exception
  disabled_dependency : String → String → Exception
  bad_state : RuntimeState → Exception
  init_failed : Option String → Exception
  key_error : String → Exception
  foreign : ℕ → Exception
  out_of_fuel : Exception

-- `isinstance(exc, RuntimeError)`
unfoldable pub is_runtime_error : Exception → Bool
is_runtime_error (key_error k) = false
is_runtime_error (foreign n) = false
is_runtime_error out_of_fuel = false
is_runtime_error _ = true

-- `calls` is no field of the program: it records the initializers and the shutdown handlers that
-- were called, in order.
pub record Runtime : Type 0 where
  pub state : RuntimeState
  pub components : Dict Callable
  pub shutdown_handlers : Dict Callable
  pub component_dependencies : Dict (List String)
  pub component_state : Dict ComponentState
  pub enabled : Dict Bool
  pub initialized_components : List String
  pub error : Option Exception
  pub shutdown_errors : List (String × Exception)
  pub calls : List Callable

-- `Runtime()`
abbrev pub init : Runtime
init = record {
  state = RuntimeState.stopped;
  components = [];
  shutdown_handlers = [];
  component_dependencies = [];
  component_state = [];
  enabled = [];
  initialized_components = [];
  error = none;
  shutdown_errors = [];
  calls = [];
}

-- The functions that components hand in: what one raises, if it does, after the calls so far.
abbrev pub World : Type 0
World = List Callable → Callable → Option Exception

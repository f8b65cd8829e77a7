-- ===== src/Runtime/Examples.antt =====
-- A runtime with four components, one of them disabled, and what `start` and `stop` of
-- core/runtime/runtime.py do with it.
use mathlib.Core.List.{reverse}
use core_host.Base.{
  ◌≡◌, refl, true, false, String, none, some, List, [], ◌∷◌, ◌++◌, elem, add, to_set, remove_first,
  if◌then◌else◌, ok, err, num_eq, arith, eq_iff,
}
use core_host.Base.Dict.{lookup, insert, has}
use core_host.Base.Sorted.{sorted}
use core_host.Runtime.State.{
  RuntimeState, ComponentState, Runtime, World, init, circular, foreign, init_failed,
  is_runtime_error,
}
use core_host.Runtime.StartOrder.{
  dependencies_of, enabled_or_true, visit_each, visit, visit_all, get_start_order,
}
use core_host.Runtime.StartOrder.Sound.{IsStartOrder}
use core_host.Runtime.StartOrder.Faults.{Needs, direct, further}
use core_host.Runtime.StartOrder.Outcome.{
  IsStartable, get_start_order_returns, get_start_order_raises, get_start_order_total,
}
use core_host.Runtime.Registration.{add_shutdown, register_component, set_dependencies, set_enabled}
use core_host.Runtime.Lifecycle.{
  shutdown_each, shutdown_initialized_components, start_each, mark_disabled, fail_start, start,
  stop, restart, clear_components, Op, register, enable, step, run,
}
use core_host.Runtime.Lifecycle.Setup.{functions_of}
use core_host.Runtime.Lifecycle.Shutdown.{HasEnded, stop_lem}
use core_host.Runtime.Lifecycle.Started.{Ends, start-Ends}
use core_host.Runtime.Lifecycle.Invariant.{IsValid, run-IsValid}

-- Everything that a run computes with.
program : Unit {0}
unfolding run step register_component add_shutdown set_dependencies set_enabled start stop restart
    clear_components fail_start start_each mark_disabled shutdown_each
    shutdown_initialized_components get_start_order visit_all visit visit_each dependencies_of
    enabled_or_true is_runtime_error lookup insert has elem add to_set remove_first sorted
program = tt

-- Every function returns.
abbrev quiet : World
quiet calls f = none

-- The function 12 raises.
broken : World
broken calls f = if num_eq f 12 then some (foreign 1) else none

abbrev setup : List Op
setup =
    register "web" 12 (some 22) (some ("api" ∷ "bus" ∷ []))
    ∷ register "api" 11 (some 21) (some ("bus" ∷ []))
    ∷ register "bus" 10 (some 20) none
    ∷ register "tts" 13 none (some ("web" ∷ []))
    ∷ enable "tts" false
    ∷ []

abbrev sample : Runtime
sample = record init {
  components = ("web", 12) ∷ ("api", 11) ∷ ("bus", 10) ∷ ("tts", 13) ∷ [];
  shutdown_handlers = ("web", 22) ∷ ("api", 21) ∷ ("bus", 20) ∷ [];
  component_dependencies =
      ("web", "api" ∷ "bus" ∷ []) ∷ ("api", "bus" ∷ []) ∷ ("bus", []) ∷ ("tts", "web" ∷ []) ∷ [];
  component_state =
      ("web", ComponentState.registered)
      ∷ ("api", ComponentState.registered)
      ∷ ("bus", ComponentState.registered)
      ∷ ("tts", ComponentState.registered)
      ∷ [];
  enabled = ("web", true) ∷ ("api", true) ∷ ("bus", true) ∷ ("tts", false) ∷ [];
}

run-setup : run quiet setup init ≡ sample
unfolding program
run-setup = refl

abbrev order : List String
order = "bus" ∷ "api" ∷ "web" ∷ []

get_start_order-sample : get_start_order sample ≡ ok order
unfolding program
get_start_order-sample = refl

abbrev looped : Runtime
looped = record sample {
  component_dependencies =
      ("web", "api" ∷ "bus" ∷ []) ∷ ("api", "bus" ∷ []) ∷ ("bus", "web" ∷ []) ∷ ("tts", []) ∷ [];
}

get_start_order-looped : get_start_order looped ≡ err (circular "web")
unfolding program
get_start_order-looped = refl

abbrev started : Runtime
started = record sample {
  state = RuntimeState.running;
  initialized_components = order;
  calls = 10 ∷ 11 ∷ 12 ∷ [];
}

start-sample : (start quiet sample).1.calls ≡ 10 ∷ 11 ∷ 12 ∷ []
unfolding program
start-sample = refl

-- A start at which `web` fails: `api` and `bus` are shut down again.
start-broken :
    ((start broken sample).0 ≡ err (init_failed (some "web")))
    × ((start broken sample).1.calls ≡ 10 ∷ 11 ∷ 12 ∷ 21 ∷ 20 ∷ [])
unfolding program broken
start-broken = (refl, refl)

stop-started : (stop quiet started).calls ≡ 10 ∷ 11 ∷ 12 ∷ 22 ∷ 21 ∷ 20 ∷ []
unfolding program
stop-started = refl

get_start_order_returns_example :
    IsStartOrder sample order
    × ((x : String)
        → has x sample.components ≡ true
        → enabled_or_true sample x ≡ true
        → elem x order ≡ true)
get_start_order_returns_example = get_start_order_returns sample order get_start_order-sample

get_start_order_raises_example : Needs looped "web" "web"
get_start_order_raises_example =
    get_start_order_raises looped (circular "web") get_start_order-looped

-- Two components, one of which depends on the other.
abbrev pair : Runtime
pair = record init {
  components = ("web", 12) ∷ ("bus", 10) ∷ [];
  component_dependencies = ("web", "bus" ∷ []) ∷ ("bus", []) ∷ [];
  enabled = ("web", true) ∷ ("bus", true) ∷ [];
}

pair_dependencies :
    (n d : String) → elem d (dependencies_of pair n) ≡ true → ("web" ≡ n) × ("bus" ≡ d)
unfolding dependencies_of lookup elem
pair_dependencies n d h = ground (arith, eq_iff "web" n, eq_iff "bus" n, eq_iff "bus" d)

pair-Needs : (x d : String) → Needs pair x d → ("web" ≡ x) × ("bus" ≡ d)
pair-Needs x d (direct h) = pair_dependencies x d h
pair-Needs x d (further {y = y} n h) =
    let (web, bus) = pair-Needs x y n in let (web', bus') = pair_dependencies y d h in (web, bus')

pair-IsStartable : IsStartable pair
unfolding has lookup enabled_or_true
pair-IsStartable = record {
  acyclic = λ c n. let (web, bus) = pair-Needs c c n in ground (arith, eq_iff "web" "bus");
  closed =
      λ n d known named. let (web, bus) = pair_dependencies n d named in rw (← bus) (refl, refl);
}

get_start_order_total_example : (o : List String) × (get_start_order pair ≡ ok o)
get_start_order_total_example = get_start_order_total pair pair-IsStartable

start-Ends_example : Ends sample (start quiet sample)
start-Ends_example = start-Ends quiet sample refl

stop_lem_example :
    ((stop quiet started).state ≡ RuntimeState.stopped)
    × ((stop quiet started).initialized_components ≡ [])
    × ((stop quiet started).calls
        ≡ started.calls ++ functions_of started.shutdown_handlers (reverse order))
    × ((x : String)
        → elem x order ≡ true
        → HasEnded (lookup x (stop quiet started).component_state))
stop_lem_example = stop_lem quiet started refl

run-IsValid_example : IsValid (run quiet setup init)
run-IsValid_example = run-IsValid quiet setup

-- ===== src/Runtime/Lifecycle/Started.antt =====
-- `start` of core/runtime/runtime.py as a whole, on every branch.
use mathlib.Core.List.{reverse}
use core_host.Base.{
  ◌≡◌, refl, sym, subst, true, String, Option, none, some, List, [], ◌∷◌, ◌++◌, append-nil, arith,
  elem, ◌∙◌, inl, inr, if◌then◌else◌, Bool-cases, Result, ok, err,
}
use core_host.Base.Dict.{has}
use core_host.Runtime.State.{RuntimeState, Exception, Runtime, World, init_failed, is_runtime_error}
use core_host.Runtime.StartOrder.{dependencies_of, enabled_or_true, get_start_order}
use core_host.Runtime.StartOrder.Sound.{IsStartOrder, none_yet, then_start}
use core_host.Runtime.StartOrder.Outcome.{get_start_order_returns}
use core_host.Runtime.Registration.{Call}
use core_host.Runtime.Lifecycle.{
  start_each, mark_disabled, mark_failed, fail_start, begin_start, end_start, run_start, is_running,
  may_start, start,
}
use core_host.Runtime.Lifecycle.Setup.{SameSetup, SameSetup-refl, functions_of}
use core_host.Runtime.Lifecycle.Shutdown.{shutdown_initialized_lem}
use core_host.Runtime.Lifecycle.Startup.{
  HasStarted, Outcome, start_each-Outcome, mark_disabled_lem, HasStarted-after,
}

-- The component at which a start ended, behind those that were initialized.
abbrev pub with_last : List String → Option String → List String
with_last done none = done
with_last done (some name) = done ++ name ∷ []

-- A failed start from `a`: the initializers that were called, then the shutdown handlers of the
-- components that were initialized, in reverse order.
pub record HasFailed (a : Runtime) (raised : Exception) (b : Runtime) : Type 0 where
  pub done : List String
  pub last : Option String
  pub cause : Exception
  pub setup : SameSetup a b
  pub state : b.state ≡ RuntimeState.failed
  pub initialized : b.initialized_components ≡ []
  pub error : b.error ≡ some cause
  pub wrapped : raised ≡ (if is_runtime_error cause then cause else init_failed last)
  pub calls :
      b.calls
      ≡ (a.calls ++ functions_of a.components (with_last done last))
        ++ functions_of a.shutdown_handlers (reverse done)

-- A successful start from `a`: every enabled component was initialized, in a start order.
pub record HasSucceeded (a b : Runtime) : Type 0 where
  pub setup : SameSetup a b
  pub state : b.state ≡ RuntimeState.running
  pub ordered : IsStartOrder a b.initialized_components
  pub complete :
      (x : String)
      → has x a.components ≡ true
      → enabled_or_true a x ≡ true
      → elem x b.initialized_components ≡ true
  pub calls : b.calls ≡ a.calls ++ functions_of a.components b.initialized_components

abbrev pub Ends : Runtime → Call Unit → Type 0
Ends a (ok _, b) = HasSucceeded a b
Ends a (err x, b) = HasFailed a x b

-- `mark_failed` writes a component state only.
mark_failed_lem :
    (current : Option String) (b : Runtime)
    → SameSetup b (mark_failed current b)
      × ((mark_failed current b).state ≡ b.state)
      × ((mark_failed current b).error ≡ b.error)
      × ((mark_failed current b).calls ≡ b.calls)
      × ((mark_failed current b).initialized_components ≡ b.initialized_components)
mark_failed_lem none b = (SameSetup-refl b, refl, refl, refl, refl)
mark_failed_lem (some name) b = (ground arith, refl, refl, refl, refl)

module _ (world : World) (a : Runtime) (none_before : a.initialized_components ≡ []) where
  fail_start-Ends :
      (current : Option String) (e : Exception) (done : List String) (b : Runtime)
      → HasStarted done (with_last done current) a b
      → Ends a (fail_start world current e b)
  unfolding fail_start
  fail_start-Ends current e done b h =
      let b' = record b { error = some e; state = RuntimeState.failed } in
      let failed = mark_failed current b' in
      let (setup, state, error, calls, initialized) = mark_failed_lem current b' in
      let s = shutdown_initialized_lem world failed in
      record {
        done = done;
        last = current;
        cause = e;
        setup = record {
          components = s.setup.components ∙ setup.components ∙ h.setup.components;
          handlers = s.setup.handlers ∙ setup.handlers ∙ h.setup.handlers;
          dependencies = s.setup.dependencies ∙ setup.dependencies ∙ h.setup.dependencies;
          enabled = s.setup.enabled ∙ setup.enabled ∙ h.setup.enabled;
        };
        state = s.state ∙ state;
        initialized = refl;
        error = s.error ∙ error;
        wrapped = refl;
        calls = cc (
          s.calls, calls, setup.handlers, initialized, h.calls, h.initialized, none_before,
          h.setup.handlers,
        );
      }

  end_start-Ends :
      (order : List String) (b : Runtime) (o : Option (String × Exception) × Runtime)
      → HasStarted [] [] a b
      → Outcome order b o
      → get_start_order a ≡ ok order
      → Ends a (end_start world o)
  end_start-Ends order b (none, c) marks out found =
      let h = HasStarted-after marks out in
      let same : c.initialized_components ≡ order = cc (h.initialized) in
      let (ordered, complete) = get_start_order_returns a order found in
      record {
        setup = record {
          components = h.setup.components;
          handlers = h.setup.handlers;
          dependencies = h.setup.dependencies;
          enabled = h.setup.enabled;
        };
        state = refl;
        ordered = rw same ordered;
        complete = rw same complete;
        calls = cc (h.calls);
      }
  end_start-Ends order b (some (name, e), c) marks (done, out) found =
      fail_start-Ends (some name) e done c (HasStarted-after marks out)

  run_start-Ends :
      (o : Result Exception (List String)) → get_start_order a ≡ o → Ends a (run_start world o a)
  run_start-Ends (err e) found =
      fail_start-Ends none e [] a
        (record { setup = SameSetup-refl a; initialized = rw append-nil; calls = rw append-nil })
  run_start-Ends (ok order) found =
      let b = mark_disabled a.enabled a in
      end_start-Ends order b (start_each world order b) (mark_disabled_lem a.enabled a)
        (start_each-Outcome world order b) found

IsStartOrder-begin_start :
    (r : Runtime) (xs : List String) → IsStartOrder (begin_start r) xs → IsStartOrder r xs
unfolding dependencies_of enabled_or_true
IsStartOrder-begin_start r _ none_yet = none_yet
IsStartOrder-begin_start r _ (then_start name h known on new deps split) =
    then_start name (IsStartOrder-begin_start r _ h) known on new deps split

Ends-begin_start : (r : Runtime) (o : Call Unit) → Ends (begin_start r) o → Ends r o
Ends-begin_start r (ok _, b) h = record {
  setup = record {
    components = h.setup.components;
    handlers = h.setup.handlers;
    dependencies = h.setup.dependencies;
    enabled = h.setup.enabled;
  };
  state = h.state;
  ordered = IsStartOrder-begin_start r _ h.ordered;
  complete = λ x known on. h.complete x known (unfold enabled_or_true in on);
  calls = h.calls;
}
Ends-begin_start r (err x, b) h = record {
  setup = record {
    components = h.setup.components;
    handlers = h.setup.handlers;
    dependencies = h.setup.dependencies;
    enabled = h.setup.enabled;
  };
  done = h.done;
  last = h.last;
  cause = h.cause;
  state = h.state;
  initialized = h.initialized;
  error = h.error;
  wrapped = h.wrapped;
  calls = h.calls;
}

start-eq :
    (world : World) (r : Runtime)
    → may_start r.state ≡ true
    → start world r ≡ run_start world (get_start_order (begin_start r)) (begin_start r)
unfolding start
start-eq world r may = elim (Bool-cases (is_running r.state)) [
  | inl running ↦ ground arith
  | inr idle ↦ rw (idle, may)
]

-- From a stopped or failed runtime, `start` returns with every enabled component initialized in a
-- start order and the runtime running, or raises with the runtime failed and no component
-- initialized. In the first case it called the initializers in that order and nothing else. In the
-- second it called the initializers of some components, and of the one at which it ended, and then
-- the shutdown handlers of those components in reverse order.
pub start-Ends : (world : World) (r : Runtime) → may_start r.state ≡ true → Ends r (start world r)
start-Ends world r may = Ends-begin_start r (start world r) (
    subst (Ends (begin_start r)) (sym (start-eq world r may))
      (run_start-Ends world (begin_start r) refl (get_start_order (begin_start r)) refl))

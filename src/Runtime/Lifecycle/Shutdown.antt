-- ===== src/Runtime/Lifecycle/Shutdown.antt =====
-- `stop` of core/runtime/runtime.py.
use mathlib.Core.List.{reverse, reverse-append}
use core_host.Base.{
  ◌≡◌, refl, true, false, ◌||◌, String, Option, none, some, List, [], ◌∷◌, ◌++◌, append-nil,
  append_assoc, arith, elem, elem_snoc, ◌∙◌, ◌⊎◌, inl, inr, eq_iff, ◌==◌, Bool-cases,
}
use core_host.Base.Dict.{lookup, insert, lookup-insert}
use core_host.Runtime.State.{RuntimeState, ComponentState, Callable, Runtime, World}
use core_host.Runtime.Lifecycle.{
  shutdown_with, shutdown_each, shutdown_initialized_components, stop,
}
use core_host.Runtime.Lifecycle.Setup.{
  SameSetup, SameSetup-refl, SameSetup-trans, one_of, functions_of,
}

-- What shutting components down does beside their states and the errors.
pub record IsShutdown (names : List String) (a b : Runtime) : Type 0 where
  pub setup : SameSetup a b
  pub state : b.state ≡ a.state
  pub initialized : b.initialized_components ≡ a.initialized_components
  pub error : b.error ≡ a.error
  pub calls : b.calls ≡ a.calls ++ functions_of a.shutdown_handlers names

module _ (world : World) where
  shutdown_with_calls :
      (name : String) (handler : Option Callable) (r : Runtime)
      → (shutdown_with world name handler r).calls ≡ r.calls ++ one_of handler
  shutdown_with_calls name none r = rw append-nil
  shutdown_with_calls name (some f) r = ground arith

  shutdown_with_setup :
      (name : String) (handler : Option Callable) (r : Runtime)
      → SameSetup r (shutdown_with world name handler r)
  shutdown_with_setup name none r = ground arith
  shutdown_with_setup name (some f) r = ground arith

  shutdown_with_rest :
      (name : String) (handler : Option Callable) (r : Runtime)
      → let r' = shutdown_with world name handler r in
        (r'.state ≡ r.state)
        × (r'.initialized_components ≡ r.initialized_components)
        × (r'.error ≡ r.error)
  shutdown_with_rest name none r = (refl, refl, refl)
  shutdown_with_rest name (some f) r = ground arith

  pub shutdown_each_lem :
      (names : List String) (r : Runtime) → IsShutdown names r (shutdown_each world names r)
  unfolding shutdown_each
  shutdown_each_lem [] r = record {
    setup = SameSetup-refl r;
    state = refl;
    initialized = refl;
    error = refl;
    calls = rw append-nil;
  }
  shutdown_each_lem (name ∷ names) r =
      let handler = lookup name r.shutdown_handlers in
      let s = shutdown_with_setup name handler r in
      let (state, initialized, error) = shutdown_with_rest name handler r in
      let t = shutdown_each_lem names (shutdown_with world name handler r) in
      record {
        setup = SameSetup-trans s t.setup;
        state = t.state ∙ state;
        initialized = t.initialized ∙ initialized;
        error = t.error ∙ error;
        calls = cc (
          t.calls,
          s.handlers,
          shutdown_with_calls name handler r,
          append_assoc r.calls (one_of handler) (functions_of r.shutdown_handlers names),
        );
      }

-- A component that was shut down, or failed to.
abbrev pub HasEnded : Option ComponentState → Type 0
HasEnded (some ComponentState.stopped) = Unit
HasEnded (some ComponentState.failed) = Unit
HasEnded _ = ⊥

module _ (world : World) (x : String) where
  with_ends :
      (name : String) (handler : Option Callable) (r : Runtime)
      → (name ≡ x) ⊎ HasEnded (lookup x r.component_state)
      → HasEnded (lookup x (shutdown_with world name handler r).component_state)
  with_ends name none r h =
      ground (arith, eq_iff name x, lookup-insert name x ComponentState.stopped r.component_state)
  with_ends name (some f) r h =
      let starting = insert name ComponentState.stopping r.component_state in
      ground (
        arith,
        eq_iff name x,
        lookup-insert name x ComponentState.stopping r.component_state,
        lookup-insert name x ComponentState.stopped starting,
        lookup-insert name x ComponentState.failed starting,
      )

  pub shutdown_each_ends :
      (names : List String) (r : Runtime)
      → (elem x names ≡ true) ⊎ HasEnded (lookup x r.component_state)
      → HasEnded (lookup x (shutdown_each world names r).component_state)
  unfolding shutdown_each elem
  shutdown_each_ends [] r (inl h) = cc
  shutdown_each_ends [] r (inr h) = h
  shutdown_each_ends (name ∷ names) r h =
      let r' = shutdown_with world name (lookup name r.shutdown_handlers) r in
      elim (Bool-cases (elem x names)) [
        | inl later ↦ shutdown_each_ends names r' (inl later)
        | inr not_later ↦
            shutdown_each_ends names r'
              (inr (with_ends name (lookup name r.shutdown_handlers) r (now not_later h)))
      ]
    where
      now :
          elem x names ≡ false
          → ((name == x || elem x names) ≡ true) ⊎ HasEnded (lookup x r.component_state)
          → (name ≡ x) ⊎ HasEnded (lookup x r.component_state)
      now e (inl m) = inl (ground (arith, eq_iff name x))
      now e (inr m) = inr m

-- The members of a reversed list.
elem-reverse : (x : String) (xs : List String) → elem x (reverse xs) ≡ elem x xs
unfolding elem
elem-reverse x [] = refl
elem-reverse x (y ∷ ys) =
    ground (arith, elem_snoc x y (reverse ys), elem-reverse x ys, reverse-append (y ∷ []) ys)

pub shutdown_initialized_lem :
    (world : World) (r : Runtime)
    → IsShutdown (reverse r.initialized_components) r (shutdown_initialized_components world r)
unfolding shutdown_initialized_components
shutdown_initialized_lem world r = shutdown_each_lem world (reverse r.initialized_components) r

pub shutdown_initialized_ends :
    (world : World) (r : Runtime) (x : String)
    → elem x r.initialized_components ≡ true
    → HasEnded (lookup x (shutdown_initialized_components world r).component_state)
unfolding shutdown_initialized_components
shutdown_initialized_ends world r x h =
    shutdown_each_ends world x (reverse r.initialized_components) r
      (inl (elem-reverse x r.initialized_components ∙ h))

-- For functions of the components that do not use the runtime while they are called: whatever the
-- shutdown handlers raise, `stop` of a running runtime calls the handlers of the components that
-- were initialized, in the reverse order of their start, and no other function. It leaves the
-- runtime stopped with no initialized component, and each component that was initialized stopped or
-- failed.
pub stop_lem :
    (world : World) (r : Runtime)
    → r.state ≡ RuntimeState.running
    → ((stop world r).state ≡ RuntimeState.stopped)
      × ((stop world r).initialized_components ≡ [])
      × ((stop world r).calls
          ≡ r.calls ++ functions_of r.shutdown_handlers (reverse r.initialized_components))
      × ((x : String)
          → elem x r.initialized_components ≡ true
          → HasEnded (lookup x (stop world r).component_state))
unfolding stop
stop_lem world r running =
    let r' = record r { state = RuntimeState.shutting_down } in
    rw running
      (refl, refl, (shutdown_initialized_lem world r').calls, shutdown_initialized_ends world r')

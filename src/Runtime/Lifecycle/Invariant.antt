-- ===== src/Runtime/Lifecycle/Invariant.antt =====
-- An invariant of `Runtime` in core/runtime/runtime.py, between calls of its methods.
use core_host.Base.{
  ◌≡◌, refl, sym, Bool, true, false, ◌||◌, String, Option, none, some, List, [], ◌∷◌, arith, ◌∙◌,
  ap, inl, inr, if◌then◌else◌, Bool-cases, ok, err, eq_iff, ◌==◌, to_set, or_else, not,
}
use core_host.Base.Dict.{Dict, has, insert, has-insert}
use core_host.Runtime.State.{RuntimeState, Runtime, Callable, Exception, World, init}
use core_host.Runtime.Registration.{
  Call, is_stopped, register_component, set_dependencies, set_enabled, add_shutdown,
}
use core_host.Runtime.Lifecycle.{
  is_running, is_shutting_down, may_start, start, stop, restart, clear_components, Op, register,
  depend, enable, start_all, stop_all, restart_all, clear_all, step, run,
}
use core_host.Runtime.Lifecycle.Setup.{SameSetup}
use core_host.Runtime.Lifecycle.Shutdown.{shutdown_initialized_lem}
use core_host.Runtime.Lifecycle.Started.{Ends, start-Ends}

-- Every registered component has dependencies and a switch, and nothing else has these or a
-- shutdown handler.
pub record IsKeyed (r : Runtime) : Type 0 where
  pub dependencies : (x : String) → has x r.component_dependencies ≡ has x r.components
  pub enabled : (x : String) → has x r.enabled ≡ has x r.components
  pub handlers : (x : String) → has x r.shutdown_handlers ≡ true → has x r.components ≡ true

pub record IsValid (r : Runtime) : Type 0 where
  pub keyed : IsKeyed r
  pub settled : (is_running r.state || may_start r.state) ≡ true
  pub idle : is_running r.state ≡ false → r.initialized_components ≡ []

SameSetup-IsKeyed : {a b : Runtime} → SameSetup a b → IsKeyed a → IsKeyed b
SameSetup-IsKeyed s k = record {
  dependencies = λ x. rw (s.dependencies, s.components) (k.dependencies x);
  enabled = λ x. rw (s.enabled, s.components) (k.enabled x);
  handlers = λ x h. rw s.components (k.handlers x (rw s.handlers at h));
}

Ends-IsValid : (a : Runtime) (o : Call Unit) → Ends a o → IsKeyed a → IsValid o.1
Ends-IsValid a (ok _, b) h k = record {
  keyed = SameSetup-IsKeyed h.setup k;
  settled = rw h.state;
  idle = λ off. let e = h.state in ground arith;
}
Ends-IsValid a (err x, b) h k = record {
  keyed = SameSetup-IsKeyed h.setup k;
  settled = rw h.state;
  idle = λ off. h.initialized;
}

-- A guard that raises leaves the runtime alone.
guard-IsValid :
    (raises : Bool) (e : Exception) (r : Runtime) (rest : Call Unit)
    → IsValid r
    → (raises ≡ false → IsValid rest.1)
    → IsValid (if raises then (err e, r) else rest).1
guard-IsValid true e r rest v h = v
guard-IsValid false e r rest v h = h refl

start-IsValid : (world : World) (r : Runtime) → IsValid r → IsValid (start world r).1
start-IsValid world r v = elim (Bool-cases (may_start r.state)) [
  | inl may ↦ Ends-IsValid r (start world r) (start-Ends world r may) v.keyed
  | inr not_may ↦
      let running : is_running r.state ≡ true = ground (arith, v.settled) in
      unfold start in rw running v
]

stop-IsValid : (world : World) (r : Runtime) → IsValid r → IsValid (stop world r)
unfolding stop
stop-IsValid world r v = elim (Bool-cases (is_stopped r.state || is_shutting_down r.state)) [
  | inl nothing ↦ rw nothing v
  | inr something ↦
      let s = shutdown_initialized_lem world (record r { state = RuntimeState.shutting_down }) in
      let k = SameSetup-IsKeyed s.setup (record {
        dependencies = v.keyed.dependencies;
        enabled = v.keyed.enabled;
        handlers = v.keyed.handlers;
      }) in
      rw something (record {
        keyed = record {
          dependencies = k.dependencies;
          enabled = k.enabled;
          handlers = k.handlers;
        };
        settled = refl;
        idle = λ off. refl;
      })
]

has-add_shutdown :
    (x name : String) (shutdown : Option Callable) (d : Dict Callable)
    → has x (add_shutdown name shutdown d) ≡ true
    → (name == x || has x d) ≡ true
unfolding add_shutdown
has-add_shutdown x name none d h = ground arith
has-add_shutdown x name (some f) d h = ground (arith, has-insert name x f d)

register-IsValid :
    (name : String) (f : Callable) (shutdown : Option Callable) (deps : Option (List String))
    (r : Runtime)
    → IsValid r
    → IsValid (register_component name f shutdown deps r).1
unfolding register_component
register-IsValid name f shutdown deps r v =
    guard-IsValid (not (is_stopped r.state)) _ r _ v λ stopped.
      guard-IsValid (has name r.components) _ r _ v λ new. record {
        keyed = record {
          dependencies = λ x.
              has-insert name x (to_set (or_else deps [])) r.component_dependencies
              ∙ ap (λ b. name == x || b) (v.keyed.dependencies x)
              ∙ sym (has-insert name x f r.components);
          enabled = λ x.
              has-insert name x true r.enabled
              ∙ ap (λ b. name == x || b) (v.keyed.enabled x)
              ∙ sym (has-insert name x f r.components);
          handlers = λ x h. ground (
            arith,
            has-insert name x f r.components,
            v.keyed.handlers x,
            has-add_shutdown x name shutdown r.shutdown_handlers h,
          );
        };
        settled = v.settled;
        idle = v.idle;
      }

-- To write a key that is there leaves the keys.
has-insert_known :
    {V : Type 0} (name x : String) (v : V) (d : Dict V)
    → has name d ≡ true
    → has x (insert name v d) ≡ has x d
has-insert_known name x v d h = ground (arith, has-insert name x v d, eq_iff name x)

set_dependencies-IsValid :
    (name : String) (deps : List String) (r : Runtime)
    → IsValid r
    → IsValid (set_dependencies name deps r).1
unfolding set_dependencies
set_dependencies-IsValid name deps r v = guard-IsValid (not (is_stopped r.state)) _ r _ v λ stopped.
    guard-IsValid (not (has name r.components)) _ r _ v λ known. record {
      keyed = record {
        dependencies = λ x.
            has-insert_known name x (to_set deps) r.component_dependencies
              (ground (arith, v.keyed.dependencies name))
            ∙ v.keyed.dependencies x;
        enabled = v.keyed.enabled;
        handlers = v.keyed.handlers;
      };
      settled = v.settled;
      idle = v.idle;
    }

set_enabled-IsValid :
    (name : String) (on : Bool) (r : Runtime) → IsValid r → IsValid (set_enabled name on r).1
unfolding set_enabled
set_enabled-IsValid name on r v = guard-IsValid (not (is_stopped r.state)) _ r _ v λ stopped.
    guard-IsValid (not (has name r.components)) _ r _ v λ known. record {
      keyed = record {
        dependencies = v.keyed.dependencies;
        enabled = λ x.
            has-insert_known name x on r.enabled (ground (arith, v.keyed.enabled name))
            ∙ v.keyed.enabled x;
        handlers = v.keyed.handlers;
      };
      settled = v.settled;
      idle = v.idle;
    }

has_nothing : (x : String) → has {V = Callable} x [] ≡ false
unfolding has
has_nothing x = refl

clear-IsValid : (r : Runtime) → IsValid r → IsValid (clear_components r).1
unfolding clear_components has
clear-IsValid r v = guard-IsValid (not (is_stopped r.state)) _ r _ v λ stopped. record {
  keyed = record {
    dependencies = λ x. refl;
    enabled = λ x. refl;
    handlers = λ x h. cc (sym h, has_nothing x);
  };
  settled = v.settled;
  idle = λ off. refl;
}

step-IsValid : (world : World) (op : Op) (r : Runtime) → IsValid r → IsValid (step world op r)
unfolding step
step-IsValid world (register name f shutdown deps) r v = register-IsValid name f shutdown deps r v
step-IsValid world (depend name deps) r v = set_dependencies-IsValid name deps r v
step-IsValid world (enable name on) r v = set_enabled-IsValid name on r v
step-IsValid world start_all r v = start-IsValid world r v
step-IsValid world stop_all r v = stop-IsValid world r v
step-IsValid world restart_all r v =
    unfold restart in
    start-IsValid world _ (elim (Bool-cases (is_stopped r.state)) [
      | inl stopped ↦ rw stopped v
      | inr active ↦ rw active (stop-IsValid world r v)
    ])
step-IsValid world clear_all r v = clear-IsValid r v

run_from-IsValid :
    (world : World) (ops : List Op) (r : Runtime) → IsValid r → IsValid (run world ops r)
unfolding run
run_from-IsValid world [] r v = v
run_from-IsValid world (op ∷ ops) r v =
    run_from-IsValid world ops (step world op r) (step-IsValid world op r v)

init-IsValid : IsValid init
unfolding has
init-IsValid = record {
  keyed = record { dependencies = λ x. refl; enabled = λ x. refl; handlers = λ x h. cc };
  settled = refl;
  idle = λ off. refl;
}

-- For functions of the components that do not use the runtime while they are called: after any
-- calls of its methods, whatever the functions of the components raise, the runtime is stopped,
-- running or failed, has no initialized component unless it is running, and keeps dependencies and
-- a switch for exactly the registered components, and shutdown handlers only for registered
-- components.
pub run-IsValid : (world : World) (ops : List Op) → IsValid (run world ops init)
run-IsValid world ops = run_from-IsValid world ops init init-IsValid

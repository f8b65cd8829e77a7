-- ===== src/Runtime/Lifecycle/Startup.antt =====
-- `start` of core/runtime/runtime.py.
use core_host.Base.{
  ◌≡◌, sym, subst, Bool, true, false, String, Option, none, some, List, [], ◌∷◌, ◌++◌, append-nil,
  append_assoc, arith, ◌∙◌, inl, inr, Option-cases,
}
use core_host.Base.Dict.{Dict, lookup}
use core_host.Runtime.State.{ComponentState, Callable, Exception, Runtime, World, key_error}
use core_host.Runtime.Registration.{set_component_state}
use core_host.Runtime.Lifecycle.{mark_started, start_each, mark_disabled}
use core_host.Runtime.Lifecycle.Setup.{SameSetup, SameSetup-refl, SameSetup-trans, functions_of}

-- The start loop has gone from `a` to `b`: it called the initializers of `called`, and those of
-- `done` returned.
pub record HasStarted (done called : List String) (a b : Runtime) : Type 0 where
  pub setup : SameSetup a b
  pub initialized : b.initialized_components ≡ a.initialized_components ++ done
  pub calls : b.calls ≡ a.calls ++ functions_of a.components called

-- The outcome of the start loop: it went through all of its names, or stopped at one.
abbrev pub Outcome : List String → Runtime → Option (String × Exception) × Runtime → Type 0
Outcome names a (none, b) = HasStarted names names a b
Outcome names a (some (name, e), b) = (done : List String) × HasStarted done (done ++ name ∷ []) a b

abbrev starting : String → Runtime → Runtime
starting name r = set_component_state name ComponentState.starting r

HasStarted-cons :
    (name : String) (f : Callable) (done called : List String) (r b : Runtime)
    → lookup name r.components ≡ some f
    → HasStarted done called (mark_started name f (starting name r)) b
    → HasStarted (name ∷ done) (name ∷ called) r b
HasStarted-cons name f done called r b found h = record {
  setup = record {
    components = h.setup.components;
    handlers = h.setup.handlers;
    dependencies = h.setup.dependencies;
    enabled = h.setup.enabled;
  };
  initialized = h.initialized ∙ append_assoc r.initialized_components (name ∷ []) done;
  calls = rw found (h.calls ∙ append_assoc r.calls (f ∷ []) (functions_of r.components called));
}

Outcome-cons :
    (name : String) (f : Callable) (names : List String) (r : Runtime)
    → lookup name r.components ≡ some f
    → (o : Option (String × Exception) × Runtime)
    → Outcome names (mark_started name f (starting name r)) o
    → Outcome (name ∷ names) r o
Outcome-cons name f names r found (none, b) h = HasStarted-cons name f names names r b found h
Outcome-cons name f names r found (some (at, e), b) (done, h) =
    (name ∷ done, HasStarted-cons name f done (done ++ at ∷ []) r b found h)

module _ (world : World) (name : String) (names : List String) (r : Runtime) where
  start_each_missing :
      lookup name r.components ≡ none
      → start_each world (name ∷ names) r ≡ (some (name, key_error name), starting name r)
  unfolding start_each
  start_each_missing missing = ground arith

  start_each_raises :
      (f : Callable) (e : Exception)
      → lookup name r.components ≡ some f
      → world r.calls f ≡ some e
      → start_each world (name ∷ names) r
        ≡ (some (name, e), record (starting name r) { calls = r.calls ++ f ∷ [] })
  unfolding start_each
  start_each_raises f e found raised = ground arith

  start_each_next :
      (f : Callable)
      → lookup name r.components ≡ some f
      → world r.calls f ≡ none
      → start_each world (name ∷ names) r
        ≡ start_each world names (mark_started name f (starting name r))
  unfolding start_each
  start_each_next f found returned = ground arith

module _ (world : World) where
  pub start_each-Outcome :
      (names : List String) (r : Runtime) → Outcome names r (start_each world names r)
  start_each-Outcome [] r =
      unfold start_each in
      record { setup = SameSetup-refl r; initialized = rw append-nil; calls = rw append-nil }
  start_each-Outcome (name ∷ names) r = elim (Option-cases (lookup name r.components)) [
    | inl missing ↦
        subst (Outcome (name ∷ names) r) (sym (start_each_missing world name names r missing)) (
          [],
          record {
            setup = ground arith;
            initialized = rw append-nil;
            calls = rw (missing, append-nil);
          },
        )
    | inr (f, found) ↦ elim (Option-cases (world r.calls f)) [
      | inl returned ↦
          subst (Outcome (name ∷ names) r)
            (sym (start_each_next world name names r f found returned))
            (Outcome-cons name f names r found _
              (start_each-Outcome names (mark_started name f (starting name r))))
      | inr (e, raised) ↦
          subst (Outcome (name ∷ names) r)
            (sym (start_each_raises world name names r f e found raised))
            ([], record { setup = ground arith; initialized = rw append-nil; calls = rw found })
    ]
  ]

-- Marking the disabled components writes component states only.
pub mark_disabled_lem : (d : Dict Bool) (r : Runtime) → HasStarted [] [] r (mark_disabled d r)
unfolding mark_disabled
mark_disabled_lem [] r = record {
  setup = SameSetup-refl r;
  initialized = rw append-nil;
  calls = rw append-nil;
}
mark_disabled_lem ((name, true) ∷ d) r = mark_disabled_lem d r
mark_disabled_lem ((name, false) ∷ d) r =
    let h = mark_disabled_lem d (set_component_state name ComponentState.disabled r) in
    record {
      setup = record {
        components = h.setup.components;
        handlers = h.setup.handlers;
        dependencies = h.setup.dependencies;
        enabled = h.setup.enabled;
      };
      initialized = h.initialized;
      calls = h.calls;
    }

-- The loop after the marks.
pub HasStarted-after :
    {done called : List String} {a b c : Runtime}
    → HasStarted [] [] a b
    → HasStarted done called b c
    → HasStarted done called a c
HasStarted-after {done} {called} {a} {b} {c} f g = record {
  setup = SameSetup-trans f.setup g.setup;
  initialized = cc (f.initialized, g.initialized, append-nil a.initialized_components);
  calls = cc (f.calls, g.calls, f.setup.components, append-nil a.calls);
}
